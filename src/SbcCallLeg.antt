-- ===== src/SbcCallLeg.antt =====
-- src/SBCCallLeg.cpp: the leg of a caller that is routed by the profiles of its call context, with the
-- resources that a profile takes. The leg, its context, the container of the resources and the translator
-- are one state. What is read of the surroundings while a handler runs is an argument: the record Outside,
-- and an Ask for each attempt at the resources of a profile.

pub mod Hunting
pub mod Refusal
pub mod Admission
pub mod Held
pub mod Holding
pub mod GivesBack
pub mod Released
pub mod Admitted
pub mod Fewer
pub mod Within
pub mod Life
pub mod Ending
pub mod Failing
pub mod Causes
pub mod Recorded
pub mod Untouched
pub mod FirstCause
mod Tests
mod EndingTests
use sems_yeti.Prelude.{
  ℕ, suc, ◌+◌, ◌-◌, ◌==◌, Bool, true, false, not, ◌&&◌, List, [], ◌∷◌, ◌++◌, Option, none, some,
  if◌then◌else◌, length, take, map,
}
use sems_yeti.Prelude.Int.{ℤ, pos}
use sems_yeti.Prelude.Words.{bits}
use sems_yeti.Prelude.Classes.{Text, codes}
use sems_yeti.Resource.{Resource}
use sems_yeti.Sequences.{is_zero}
use sems_yeti.Sequences.Check.{CheckResources}
use sems_yeti.Redis
use sems_yeti.Redis.{is_empty}
use sems_yeti.Redis.Get.{Response, res_succ, res_busy, res_err}
use sems_yeti.Control
use sems_yeti.Control.{Control, ResourceConfig, reject}
use sems_yeti.Codes
use sems_yeti.Codes.{Translator, Translation, Env, translate_db_code}
use sems_yeti.Cdr.{
  Cdr, Initiator, by_db, by_ts, update_internal_reason, update_aleg_reason, set_suppress,
  update_failed_resource,
}
use sems_yeti.CallCtx.{Profile, CallCtx, get_next_profile, get_override_id}

-- `written` is what is handed to the database, `redis` what the connection of the resources posts, `callee`
-- the start of a callee by a profile, and `singular` the use of an iterator that stands at no resource,
-- which is undefined behaviour.
pub data Effect (Details Carried : Type 0) : Type 0 where
  written : Cdr Details Carried → Effect Details Carried
  redis : Redis.Effect → Effect Details Carried
  callee : Profile Details → Effect Details Carried
  remove_fake_ringing : Effect Details Carried
  singular : Effect Details Carried

pub record Outside (Details : Type 0) : Type 0 where
  pub env : Env
  pub int2str : ℤ → Text
  pub clock : ℕ → ℕ
  pub now : ℕ
  pub time_limit : Details → ℕ

-- Whether the connection could post, what `AmSession::getNewId()` returns, and the answered check.
pub record Ask : Type 0 where
  pub could_post : Bool
  pub new_id : Text
  pub answer : Option CheckResources

-- `has_ctx` says that the pointer `call_ctx` is set, `references` is the context's; `duration_timer` is what
-- `call_timers` has for YETI_CALL_DURATION_TIMER.
pub record Leg (Details Carried : Type 0) : Type 0 where
  pub a_leg : Bool
  pub local_tag : Text
  pub other_id : Text
  pub has_ctx : Bool
  pub references : ℕ
  pub has_initial_invite : Bool
  pub ctx : CallCtx Details Carried
  pub control : Control
  pub translator : Translator
  pub call_profile : Profile Details
  pub duration_timer : Option ℕ

-- ResourceConfig(), whose action is not set and is not read before it is.
abbrev pub unset_config : ResourceConfig
unset_config = record {
  id = pos 0;
  name = [];
  internal_code_id = pos 0;
  action = reject;
  str_action = [];
}

abbrev pub starts_with : Text → Text → Bool
starts_with [] s = true
starts_with (a ∷ from) [] = false
starts_with (a ∷ from) (b ∷ s) = a == b && starts_with from s

abbrev pub skip_text : Text → Text → Text
skip_text [] s = s
skip_text (a ∷ from) [] = []
skip_text (a ∷ from) (b ∷ s) = skip_text from s

-- `ResourceControl::replace` of one text: the search goes on behind the end of the new text, so the first
-- occurrence is the only one that is replaced.
unfoldable pub replace_text : Text → Text → Text → Text
replace_text from to [] = []
replace_text from to (b ∷ s) =
    if starts_with from (b ∷ s) then to ++ skip_text from (b ∷ s) else b ∷ replace_text from to s

unfoldable pub replace : (ℤ → Text) → Resource → ResourceConfig → Text → Text
unfolding replace_text
replace int2str r rc s = replace_text (codes "$name") rc.name (
    replace_text (codes "$limit") (int2str r.limit) (
      replace_text (codes "$takes") (int2str r.takes) (
        replace_text (codes "$type") (int2str r.type)
          (replace_text (codes "$id") (int2str r.id) s))))

-- Where `ResourceControl::get` leaves its iterator: at the overloaded resource, at the first one where the
-- connection failed, where it was if the connection was not asked, and behind what was checked.
abbrev pub first_of : List Resource → Option Resource
first_of [] = none
first_of (r ∷ rs) = some r

abbrev pub stands_at : List Resource → Response → Option Resource
stands_at rl res_succ = none
stands_at rl (res_busy r) = some r
stands_at rl res_err = first_of rl

abbrev pub left_at : Ask → Control → List Resource → Option Resource → Option Resource
left_at ask c rl rli =
    if not (is_empty rl) && c.container_ready
    then stands_at rl (Control.ask ask.could_post c rl ask.answer).response
    else rli

abbrev pub Step : Type 0 → Type 0 → Type 0
Step Details Carried = Leg Details Carried × List (Effect Details Carried)

module _ {Details Carried : Type 0} where
  abbrev pub put_cdr : Cdr Details Carried → Leg Details Carried → Leg Details Carried
  put_cdr cdr leg = record leg { ctx = record (leg.ctx) { cdr = cdr } }

  -- What is written through the reference to the current profile, with those behind it.
  abbrev pub set_current :
      Profile Details → List (Profile Details) → CallCtx Details Carried → CallCtx Details Carried
  set_current p rest ctx = record ctx {
    profiles = take (length ctx.profiles - length ctx.current) ctx.profiles ++ p ∷ rest;
    current = p ∷ rest;
  }

  -- `cdr->update_failed_resource(*ri)`
  abbrev pub note_failed : Option Resource → Leg Details Carried → Step Details Carried
  note_failed none leg = (leg, singular ∷ [])
  note_failed (some r) leg = (put_cdr (update_failed_resource r leg.ctx.cdr) leg, [])

  -- `rctl.replace(.., *ri, resource_config)` for the two reasons.
  abbrev pub replaced :
      (ℤ → Text)
      → Option Resource
      → ResourceConfig
      → Translation
      → Translation × List (Effect Details Carried)
  replaced int2str none rc t = (t, singular ∷ [])
  replaced int2str (some r) rc t = (
    record t {
      internal_reason = replace int2str r rc t.internal_reason;
      response_reason = replace int2str r rc t.response_reason;
    },
    [],
  )

  -- `rctl.get` for the current profile `p`, which the call writes to, with those behind it.
  unfoldable pub take_resources :
      Ask
      → ResourceConfig
      → Profile Details
      → List (Profile Details)
      → Leg Details Carried
      → Leg Details Carried × Control.Grant
  unfolding Control.get
  take_resources ask config p rest leg =
      let g =
        Control.get ask.could_post leg.control p.rl p.resource_handler leg.local_tag config
          ask.new_id ask.answer in
      (
        record leg {
          control = g.control;
          ctx = set_current (record p { rl = g.rl; resource_handler = g.handler }) rest leg.ctx;
        },
        g,
      )

  -- `rctl.put`
  unfoldable pub give_back : Bool → Text → Leg Details Carried → Step Details Carried
  unfolding Control.put
  give_back could_post handler leg =
      let (c, es) = Control.put could_post leg.control handler in
      (record leg { control = c }, map redis es)

module _ {Details Carried : Type 0} (out : Outside Details) where
  -- With the profiles from the iterator on.
  unfoldable pub next_profile_at :
      Bool
      → Bool
      → Leg Details Carried
      → List (Profile Details)
      → Step Details Carried × Option (Profile Details)
  unfolding get_next_profile
  next_profile_at early_state resource_failover leg [] = ((leg, []), none)
  next_profile_at early_state resource_failover leg (p ∷ rest) =
      let c =
        get_next_profile out.env out.clock early_state resource_failover leg.ctx leg.translator p
          rest in
      ((record leg { ctx = c.ctx; translator = c.translator }, map written c.written), c.profile)

  -- A call of `getNextProfile` for the context of the leg, whose iterator is not at the end.
  unfoldable pub next_profile :
      Bool → Bool → Leg Details Carried → Step Details Carried × Option (Profile Details)
  unfolding next_profile_at
  next_profile early_state resource_failover leg =
      next_profile_at early_state resource_failover leg leg.ctx.current

  -- `SqlRouter::check_and_refuse`, without a reply.
  unfoldable pub check_and_refuse :
      Profile Details → Leg Details Carried → Leg Details Carried × Bool
  unfolding translate_db_code update_internal_reason update_aleg_reason set_suppress
  check_and_refuse p leg =
      let (t, tr) =
        translate_db_code out.env (bits p.disconnect_code_id) p.aleg_override_id leg.translator in
      let told =
        update_aleg_reason tr.response_reason tr.response_code
          (update_internal_reason by_db tr.internal_reason tr.internal_code out.now leg.ctx.cdr) in
      let cdr = if tr.write_cdr then told else set_suppress true leg.ctx.cdr in
      if is_zero p.disconnect_code_id
      then (leg, false)
      else (put_cdr cdr (record leg { translator = t }), true)

  -- The translation of a resource's internal code, with the placeholders of the reasons replaced.
  unfoldable pub translate_resource :
      ResourceConfig → Option Resource → Leg Details Carried → Step Details Carried × Translation
  unfolding translate_db_code get_override_id replace
  translate_resource rc rli leg =
      let (t, tr) =
        translate_db_code out.env (bits rc.internal_code_id) (get_override_id leg.a_leg leg.ctx)
          leg.translator in
      let (told, es) = replaced out.int2str rli rc tr in ((record leg { translator = t }, es), told)

  -- `cdr->update_internal_reason(DisconnectByTS, ...)`
  abbrev pub note_ts : Text → ℕ → Leg Details Carried → Leg Details Carried
  note_ts reason code leg =
      put_cdr (update_internal_reason by_ts reason code out.now leg.ctx.cdr) leg
