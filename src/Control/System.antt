-- ===== src/Control/System.antt =====
-- ResourceControl over its connection, as histories of calls and replies.
use sems_yeti.Prelude.{
  ◌≡◌, refl, ◌⊎◌, inl, inr, Bool, true, false, Option, none, some, List, [], ◌∷◌, arith, Bool-cases,
  Option-cases,
}
use sems_yeti.Prelude.Classes.{Text, text_key}
use sems_yeti.Prelude.Map
use sems_yeti.Prelude.Int.{ℤ}
use sems_yeti.Prelude.Map.{Map}
use sems_yeti.Resource.{Resource}
use sems_yeti.Sequences.{Reply}
use sems_yeti.Sequences.Operations.{Operations}
use sems_yeti.Sequences.Check.{CheckResources}
use sems_yeti.Redis
use sems_yeti.Redis.{
  Redis, Effect, post, release, initialized, operation_result, disconnect, fresh, is_empty,
}
use sems_yeti.Redis.Select.{Checked, available, overloaded}
use sems_yeti.Redis.Get
use sems_yeti.Redis.Get.{Got}
use sems_yeti.Redis.Quiet.{
  Silent, IsSpent, Keeps, on_connect-Keeps, on_disconnect-IsSpent, operation_reply-Keeps,
  invalidate-Keeps, put-Keeps, take_active-Keeps, initial_reply-Marks,
}
use sems_yeti.Control.{
  Control, HandlersEntry, ResourceConfig, clear, on_resources_initialized, ask, get, put, put_entry,
  invalidate_resources,
}

-- The calls of the program and the events of the connection; the first argument says whether
-- requests can be posted at that moment.
pub data Event : Type 0 where
  connects disconnects : Bool → Event
  initial_replies : Bool → Reply → Event
  operation_replies : Bool → Operations → Reply → Event
  gets : Bool → List Resource → Text → Text → ResourceConfig → Text → Option CheckResources → Event
  puts : Bool → Text → Event
  invalidates : Bool → Event

-- `resources_initialized_cb` is `on_resources_initialized`.
pub deliver : List Effect → Control → Control
deliver [] c = c
deliver (initialized ∷ es) c = deliver es (on_resources_initialized c)
deliver (post k ∷ es) c = deliver es c
deliver (release o ∷ es) c = deliver es c
deliver (operation_result b ∷ es) c = deliver es c
deliver (disconnect ∷ es) c = deliver es c

-- A handler of the connection.
over : Control → Redis × List Effect → Control × List Effect
over c (r, es) = (record c { redis = r }, es)

outcome : Event → Control → Control × List Effect
unfolding over
outcome (connects b) c = over c (Redis.on_connect b c.redis)
outcome (disconnects b) c = (record c { redis = Redis.on_disconnect c.redis }, [])
outcome (initial_replies b reply) c = over c (Redis.initial_reply b c.redis reply)
outcome (operation_replies b o reply) c = over c (Redis.operation_reply b c.redis o reply)
outcome (gets b rl handler tag config new_id answer) c =
    let g = get b c rl handler tag config new_id answer in (g.control, g.effects)
outcome (puts b h) c = put b c h
outcome (invalidates b) c = invalidate_resources b c

unfoldable pub step : Event → Control → Control
unfolding outcome deliver
step e c = let (d, es) = outcome e c in deliver es d

unfoldable pub run : List Event → Control → Control
unfolding step
run [] c = c
run (e ∷ es) c = run es (step e c)

-- A started program: the loaded types, nothing initialised.
unfoldable pub started : Map ℤ ResourceConfig → Bool → Control
started types reject = record {
  redis = fresh;
  type2cfg = types;
  handlers = [];
  container_ready = false;
  reject_on_error = reject;
  stat = clear;
}

-- Ready only with the first initialisation behind.
abbrev Marked : Control → Type 0
Marked c = c.container_ready ≡ true → IsSpent c.redis

abbrev Lost : Control → Type 0
Lost c = (c.container_ready ≡ false) × IsSpent c.redis

deliver-Silent : (es : List Effect) (c : Control) → Silent es → deliver es c ≡ c
unfolding deliver
deliver-Silent [] c h = refl
deliver-Silent (initialized ∷ es) c h = absurd h
deliver-Silent (post k ∷ es) c h = deliver-Silent es c h
deliver-Silent (release o ∷ es) c h = deliver-Silent es c h
deliver-Silent (operation_result b ∷ es) c h = deliver-Silent es c h
deliver-Silent (disconnect ∷ es) c h = deliver-Silent es c h

deliver-redis : (es : List Effect) (c : Control) → (deliver es c).redis ≡ c.redis
unfolding deliver
deliver-redis [] c = refl
deliver-redis (initialized ∷ es) c = deliver-redis es (on_resources_initialized c)
deliver-redis (post k ∷ es) c = deliver-redis es c
deliver-redis (release o ∷ es) c = deliver-redis es c
deliver-redis (operation_result b ∷ es) c = deliver-redis es c
deliver-redis (disconnect ∷ es) c = deliver-redis es c

-- What every event does to the flag and to the first initialisation.
abbrev Calm : Control → Control × List Effect → Type 0
Calm c (d, es) =
    (IsSpent c.redis → Silent es × IsSpent d.redis)
    × (Silent es ⊎ IsSpent d.redis)
    × (d.container_ready ≡ true → c.container_ready ≡ true)

Calm-Marked :
    (c : Control) (p : Control × List Effect) → Calm c p → Marked c → Marked (deliver p.1 p.0)
Calm-Marked c (d, es) (spent, inl silent, flag) m =
    rw (deliver-Silent es d silent) (λ h. (spent (m (flag h))).1)
Calm-Marked c (d, es) (spent, inr over, flag) m = rw (deliver-redis es d) (λ h. over)

Calm-Lost : (c : Control) (p : Control × List Effect) → Calm c p → Lost c → Lost (deliver p.1 p.0)
Calm-Lost c (d, es) (spent, _, flag) l =
    let (silent, over) = spent l.1 in
    rw (deliver-Silent es d silent)
      (elim (Bool-cases d.container_ready) [ inl e ↦ absurd (cc (flag e)) | inr e ↦ (e, over) ])

Keeps-Calm :
    (c : Control) (p : Redis × List Effect)
    → Keeps c.redis p
    → Calm c (record c { redis = p.0 }, p.1)
Keeps-Calm c p k = ((λ s. (k.0, k.1 s)), inl k.0, λ h. h)

same-Calm : (c : Control) → Calm c (c, [])
same-Calm c = ((λ s. (tt, s)), inl tt, λ h. h)

put_entry-Calm :
    (b : Bool) (c : Control) (h : Text) (e : HandlersEntry) → Calm c (put_entry b c h e)
unfolding put_entry
put_entry-Calm b c h e = ground (arith, put-Keeps b c.redis e.resources)

put-Calm : (b : Bool) (c : Control) (h : Text) → Calm c (put b c h)
unfolding put
put-Calm b c [] = same-Calm c
put-Calm b c (k ∷ h) = elim (Option-cases (Map.find (k ∷ h) c.handlers)) [
  | inl q ↦ rw (q, put) (same-Calm c)
  | inr (e, q) ↦ rw (q, put) (put_entry-Calm b c (k ∷ h) e)
]

invalidate-Calm : (b : Bool) (c : Control) → Calm c (invalidate_resources b c)
unfolding invalidate_resources
invalidate-Calm b c =
    let k = invalidate-Keeps b c.redis in ((λ s. (k.0, k.1 s)), inl k.0, λ h. absurd (cc h))

conclude-Keeps :
    (b : Bool) (r : Redis) (x : Checked)
    → let g = Get.conclude b r x in Keeps r (g.redis, g.effects)
unfolding Get.conclude
conclude-Keeps b r (overloaded s rl) = (tt, λ s. s)
conclude-Keeps b r (available rl) = take_active-Keeps b r rl

ask-Keeps :
    (b : Bool) (c : Control) (rl : List Resource) (answer : Option CheckResources)
    → let g = ask b c rl answer in Keeps c.redis (g.redis, g.effects)
unfolding ask Get.get
ask-Keeps b c rl none = ground arith
ask-Keeps b c rl (some a) = elim (Bool-cases c.container_ready) [
  | inr e ↦ rw e (tt, λ s. s)
  | inl e ↦ rw e (elim (Bool-cases a.iserror) [
    | inl f ↦ rw f (tt, λ s. s)
    | inr f ↦ rw f (conclude-Keeps b c.redis _)
  ])
]

get-Calm :
    (b : Bool) (c : Control) (rl : List Resource) (handler tag : Text) (config : ResourceConfig)
    (new_id : Text) (answer : Option CheckResources)
    → let g = get b c rl handler tag config new_id answer in Calm c (g.control, g.effects)
unfolding get
get-Calm b c rl handler tag config new_id answer =
    ground (arith, ask-Keeps b (record c { stat = _ }) rl answer)

outcome-Calm : (e : Event) (c : Control) → Calm c (outcome e c)
unfolding outcome
outcome-Calm (connects b) c = Keeps-Calm c (Redis.on_connect b c.redis) (on_connect-Keeps b c.redis)
outcome-Calm (disconnects b) c = ((λ s. (tt, on_disconnect-IsSpent c.redis s)), inl tt, λ h. h)
outcome-Calm (initial_replies b reply) c =
    let m = initial_reply-Marks b c.redis reply in (m.0, m.1, λ h. h)
outcome-Calm (operation_replies b o reply) c =
    Keeps-Calm c (Redis.operation_reply b c.redis o reply) (operation_reply-Keeps b c.redis o reply)
outcome-Calm (gets b rl handler tag config new_id answer) c =
    get-Calm b c rl handler tag config new_id answer
outcome-Calm (puts b h) c = put-Calm b c h
outcome-Calm (invalidates b) c = invalidate-Calm b c

run-Marked : (es : List Event) (c : Control) → Marked c → Marked (run es c)
unfolding run step
run-Marked [] c m = m
run-Marked (e ∷ es) c m =
    run-Marked es (step e c) (Calm-Marked c (outcome e c) (outcome-Calm e c) m)

run-Lost : (es : List Event) (c : Control) → Lost c → Lost (run es c)
unfolding run step
run-Lost [] c l = l
run-Lost (e ∷ es) c l = run-Lost es (step e c) (Calm-Lost c (outcome e c) (outcome-Calm e c) l)

invalidate-Lost : (b : Bool) (c : Control) → IsSpent c.redis → Lost (step (invalidates b) c)
unfolding step invalidate_resources
invalidate-Lost b c s =
    let k = invalidate-Keeps b c.redis in
    rw (deliver-Silent (Redis.invalidate b c.redis).1 (invalidate_resources b c).0 k.0)
      (refl, k.1 s)

-- Whatever happened before: once the container was ready and its resources are invalidated on demand,
-- it is not ready after any further calls and events.
pub invalidation_is_final :
    (types : Map ℤ ResourceConfig) (reject : Bool) (before after : List Event) (b : Bool)
    → (run before (started types reject)).container_ready ≡ true
    → (run after (step (invalidates b) (run before (started types reject)))).container_ready ≡ false
unfolding started
invalidation_is_final types reject before after b ready =
    let c = run before (started types reject) in
    let spent = run-Marked before (started types reject) (λ h. absurd (cc h)) ready in
    (run-Lost after (step (invalidates b) c) (invalidate-Lost b c spent)).0
