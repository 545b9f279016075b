-- ===== src/Control/Handlers.antt =====
-- The handlers of ResourceControl: a grant is given back once.
use sems_yeti.Prelude.{
  ◌≡◌, refl, sym, ap, ◌∙◌, ◌≢◌, ◌⊎◌, inl, inr, Bool, true, false, not, ◌&&◌, Option, none, some,
  List, [], ◌∷◌, arith, Bool-cases, Option-cases, List-cases,
}
use sems_yeti.Prelude.Classes.{Text, text_key}
use sems_yeti.Prelude.Map
use sems_yeti.Prelude.Map.{Map, find, find-erase, find-emplace, same_refl}
use sems_yeti.Resource.{Resource}
use sems_yeti.Sequences.Check.{CheckResources}
use sems_yeti.Redis
use sems_yeti.Redis.{Redis, is_empty}
use sems_yeti.Redis.Select.{Checked, available, overloaded}
use sems_yeti.Redis.Get
use sems_yeti.Redis.Get.{Got, Response, res_succ, res_busy, res_err}
use sems_yeti.Control.{
  Control, HandlersEntry, ResourceConfig, Grant, ctl_ok, ask, get, put, put_entry,
  invalidate_resources, invalidate_all,
}

find-invalidate_all :
    (h : Text) (m : Map Text HandlersEntry)
    → find h (invalidate_all m)
      ≡ (elim (find h m) [ none ↦ none | some e ↦ some (record e { valid = false }) ])
unfolding invalidate_all find
find-invalidate_all h [] = refl
find-invalidate_all h ((j, e) ∷ m) = ground (arith, find-invalidate_all h m)

put-erased :
    (could_post : Bool) (c : Control) (h : Text) (e : HandlersEntry)
    → find h (put_entry could_post c h e).0.handlers ≡ none
unfolding put_entry
put-erased could_post c h e =
    let gone : find h (Map.erase h c.handlers) ≡ none =
      rw (find-erase h h c.handlers, same_refl h) in
    ground (arith, gone)

-- After a `put` the handler is unknown, or it is the empty text.
put-forgets :
    (could_post : Bool) (c : Control) (h : Text)
    → h ≢ []
    → find h (put could_post c h).0.handlers ≡ none
unfolding put
put-forgets could_post c [] named = absurd (named refl)
put-forgets could_post c (b ∷ h) named = elim (Option-cases (find (b ∷ h) c.handlers)) [
  | inl q ↦ rw q q
  | inr (e, q) ↦ rw q (put-erased could_post c (b ∷ h) e)
]

put_unknown :
    (could_post : Bool) (c : Control) (h : Text)
    → find h c.handlers ≡ none
    → put could_post c h ≡ (c, [])
unfolding put
put_unknown could_post c h q = rw (q, put) (ground arith)

put_unnamed : (could_post : Bool) (c : Control) → put could_post c [] ≡ (c, [])
unfolding put
put_unnamed could_post c = refl

-- A handler is good for one release: a second `put` of it, whatever happened to the first, changes
-- nothing and posts nothing.
pub put_twice :
    (first second : Bool) (c : Control) (h : Text)
    → put second (put first c h).0 h ≡ ((put first c h).0, [])
put_twice first second c [] = rw (put_unnamed first c) (put_unnamed second c)
put_twice first second c (b ∷ h) =
    put_unknown second (put first c (b ∷ h)).0 (b ∷ h) (put-forgets first c (b ∷ h) (λ e. cc))

-- Once the resources have been invalidated, no handler given out before gives anything back: `put`
-- posts nothing and leaves the connection alone.
pub put_after_invalidate :
    (first second : Bool) (c : Control) (h : Text)
    → let c' = (invalidate_resources first c).0 in
      ((put second c' h).1 ≡ []) × ((put second c' h).0.redis ≡ c'.redis)
unfolding put put_entry invalidate_resources
put_after_invalidate first second c h = ground (arith, find-invalidate_all h c.handlers)

abbrev pub is_res_succ : Response → Bool
is_res_succ res_succ = true
is_res_succ _ = false

-- What `get` did to the handlers: a grant, or nothing at all.
abbrev pub Granted : Control → Text → Text → Grant → Type 0
Granted c new_id owner_tag g =
    (g.response ≡ ctl_ok)
    × (g.handler ≡ new_id)
    × (g.control.handlers
        ≡ Map.emplace new_id (record { resources = g.rl; owner_tag = owner_tag; valid = true })
            c.handlers)

abbrev pub Untouched : Control → Text → Grant → Type 0
Untouched c handler g =
    (g.handler ≡ handler)
    × (g.control.handlers ≡ c.handlers)
    × (g.control.redis ≡ c.redis)
    × (g.effects ≡ [])

abbrev Settled : Redis → Got → Type 0
Settled r got =
    (got.response ≡ res_succ) ⊎ ((got.response ≢ res_succ) × (got.redis ≡ r) × (got.effects ≡ []))

conclude-Settled :
    (could_post : Bool) (r : Redis) (x : Checked) → Settled r (Get.conclude could_post r x)
unfolding Get.conclude
conclude-Settled could_post r (overloaded s rl) = inr ((λ e. cc), refl, refl)
conclude-Settled could_post r (available rl) = inl refl

get_redis :
    (could_post : Bool) (r : Redis) (rl : List Resource) (answer : Option CheckResources)
    → Settled r (Get.get could_post r rl answer)
unfolding Get.get
get_redis could_post r rl none = inr ((λ e. cc), refl, refl)
get_redis could_post r rl (some a) = elim (Bool-cases a.iserror) [
  | inl e ↦ rw e (inr ((λ e. cc), refl, refl))
  | inr e ↦ rw e (conclude-Settled could_post r _)
]

-- The container is ready and the connection grants the list, which is not empty.
abbrev pub admits : Bool → Control → List Resource → Option CheckResources → Bool
admits could_post c rl answer =
    not (is_empty rl) && is_res_succ (ask could_post c rl answer).response

-- Where `get` asks and what it is answered decide between the two.
pub get-Granted :
    (could_post : Bool) (c : Control) (rl : List Resource) (handler owner_tag : Text)
    (config : ResourceConfig) (new_id : Text) (answer : Option CheckResources)
    → let g = get could_post c rl handler owner_tag config new_id answer in
      ((admits could_post c rl answer ≡ true) × Granted c new_id owner_tag g)
      ⊎ ((admits could_post c rl answer ≡ false) × Untouched c handler g)
unfolding get
get-Granted could_post c rl handler owner_tag config new_id answer =
    ground (arith, get_redis could_post c.redis rl answer)

-- The list is not empty, the container is ready, and the connection grants the list.
abbrev pub grants : Bool → Control → List Resource → Option CheckResources → Bool
grants could_post c rl answer =
    not (is_empty rl)
    && c.container_ready
    && is_res_succ (Get.get could_post c.redis rl answer).response

put_named :
    (could_post : Bool) (c : Control) (h : Text) (e : HandlersEntry)
    → h ≢ []
    → find h c.handlers ≡ some e
    → put could_post c h ≡ put_entry could_post c h e
unfolding put
put_named could_post c [] e named q = absurd (named refl)
put_named could_post c (b ∷ h) e named q = rw (q, put) refl

put_none : (could_post : Bool) (r : Redis) → Redis.put could_post r [] ≡ (r, [])
unfolding Redis.put
put_none could_post r = refl

put_entry_valid :
    (could_post : Bool) (c : Control) (h : Text) (e : HandlersEntry)
    → e.valid ≡ true
    → put_entry could_post c h e ≡ (
      record c {
        handlers = Map.erase h c.handlers;
        redis = (Redis.put could_post c.redis e.resources).0;
      },
      (Redis.put could_post c.redis e.resources).1,
    )
unfolding put_entry
put_entry_valid could_post c h e v = elim (List-cases e.resources) [
  | inl q ↦ rw v (rw q (rw (put_none could_post c.redis) refl))
  | inr (r, rs, q) ↦ rw v (rw q refl)
]

put_granted :
    (could_post : Bool) (c : Control) (g : Grant) (new_id owner_tag : Text)
    → new_id ≢ []
    → find new_id c.handlers ≡ none
    → g.control.handlers
      ≡ Map.emplace new_id
          (record { resources = g.rl; owner_tag = owner_tag; valid = true })
          c.handlers
    → ((put could_post g.control new_id).1 ≡ (Redis.put could_post g.control.redis g.rl).1)
      × ((put could_post g.control new_id).0.redis ≡ (Redis.put could_post g.control.redis g.rl).0)
      × ((j : Text) → find j (put could_post g.control new_id).0.handlers ≡ find j c.handlers)
put_granted could_post c g new_id owner_tag named fresh h =
    let entry : HandlersEntry = record { resources = g.rl; owner_tag = owner_tag; valid = true } in
    let known : find new_id g.control.handlers ≡ some entry =
      rw (h, find-emplace new_id new_id entry c.handlers, same_refl new_id, fresh) refl in
    let p =
      put_named could_post g.control new_id entry named known
      ∙ put_entry_valid could_post g.control new_id entry refl in
    (
      ap (λ t. t.1) p,
      ap (λ t. t.0.redis) p,
      λ j.
          ap (λ t. find j t.0.handlers) p
          ∙ rw (h, find-erase new_id j, find-emplace new_id j)
              (ground (arith, text_key.same_iff new_id j, fresh)),
    )

-- A grant under a fresh handler, which is not empty and not what the caller's handler was before, is
-- given back by `put` of the handler: what is submitted is what the
-- connection's own `put` submits for the list as it was granted, and every lookup among the handlers is
-- as before the grant.
pub get_then_put :
    (could_get could_put : Bool) (c : Control) (rl : List Resource) (handler owner_tag : Text)
    (config : ResourceConfig) (new_id : Text) (answer : Option CheckResources)
    → new_id ≢ []
    → find new_id c.handlers ≡ none
    → handler ≢ new_id
    → (get could_get c rl handler owner_tag config new_id answer).handler ≡ new_id
    → let g = get could_get c rl handler owner_tag config new_id answer in
      ((put could_put g.control new_id).1 ≡ (Redis.put could_put g.control.redis g.rl).1)
      × ((put could_put g.control new_id).0.redis ≡ (Redis.put could_put g.control.redis g.rl).0)
      × ((j : Text) → find j (put could_put g.control new_id).0.handlers ≡ find j c.handlers)
get_then_put could_get could_put c rl handler owner_tag config new_id answer named fresh other got =
    elim (get-Granted could_get c rl handler owner_tag config new_id answer) [
      | inr kept ↦ absurd (other (sym kept.1.0 ∙ got))
      | inl given ↦
          put_granted could_put c (get could_get c rl handler owner_tag config new_id answer) new_id
            owner_tag named fresh given.1.2
    ]
