-- ===== src/SbcCallLeg/Causes.antt =====
-- src/SBCCallLeg.cpp: any sequence of the events that end a call, on both of its legs, and what it leaves in the
-- CDR that they share.
use sems_yeti.Prelude.{ℕ, ◌==◌, Bool, false, not, ◌&&◌, List, [], ◌∷◌, ◌++◌, if◌then◌else◌}
use sems_yeti.Prelude.Int.{ℤ}
use sems_yeti.Prelude.Words.{bits}
use sems_yeti.Prelude.Classes.{Text, codes}
use sems_yeti.Codes.{Env, Translation}
use sems_yeti.Cdr.{BlegReply, by_ts, by_dst, by_org}
use sems_yeti.Cdr.Updates.{Update, internal, bleg, aleg, sip_reply, missing_aleg}
use sems_yeti.SbcCallLeg.Ending.{
  Cause, early_dialog, connected_dialog, disconnecting_dialog, other_dialog, Side, Shared, Ended,
  is_connected, translated, on_bye, on_other_bye, on_rtp_timeout, on_tear_down,
  on_remote_disappeared,
}
use sems_yeti.SbcCallLeg.Failing.{
  Failed, is_disconnected, disconnect_code, on_exception, on_other_exception, on_failure,
  terminate_leg_on_reply_exception, on_call_status_change,
}

-- What happens to a leg.
pub data Happening : Type 0 where
  bye other_bye rtp_silent torn_down other_excepted failed : Happening
  remote_gone : ℕ → Text → Happening
  excepted : ℤ → Text → Happening
  reply_excepted : BlegReply → Failed → Happening
  status_changed : Cause → Happening

pub record Event : Type 0 where
  pub side : Side
  pub what : Happening

module _ {Details Carried : Type 0} (env : Env) where
  unfoldable pub handle : Happening → Side → Shared Details Carried → Ended Details Carried
  unfolding on_bye on_other_bye on_rtp_timeout on_tear_down on_remote_disappeared on_exception
      on_other_exception on_failure terminate_leg_on_reply_exception on_call_status_change
  handle bye = on_bye
  handle other_bye = on_other_bye
  handle rtp_silent = on_rtp_timeout env
  handle torn_down = on_tear_down
  handle (remote_gone code reason) = on_remote_disappeared code reason
  handle (excepted code reason) = on_exception code reason
  handle other_excepted = on_other_exception
  handle failed = on_failure
  handle (reply_excepted r e) = terminate_leg_on_reply_exception r e
  handle (status_changed cause) = on_call_status_change env cause

  unfoldable pub run : List Event → Shared Details Carried → Ended Details Carried
  unfolding handle
  run [] s = (s, [])
  run (e ∷ es) s =
      let (s', acts) = handle e.what e.side s in
      let (s'', acts') = run es s' in (s'', acts ++ acts')

-- What each event says of the end of a call: a table for the leg that has the call context, by the
-- translations of the internal codes and whether the ringing of the second leg was cut off.
abbrev dialog_says : Side → List Update
dialog_says side = elim side.dialog [
  | connected_dialog ↦ (if side.a_leg then aleg else bleg) (codes "Bye") 200 ∷ []
  | disconnecting_dialog ↦ (if side.a_leg then aleg else bleg) (codes "Bye") 200 ∷ []
  | early_dialog ↦ (if side.a_leg then aleg else bleg) (codes "Request terminated") 487 ∷ []
  | other_dialog ↦ []
]

abbrev pub by_code : (ℕ → Bool → Translation) → ℕ → Side → Update
by_code tr code side =
    internal by_ts (tr code side.a_leg).internal_reason (tr code side.a_leg).internal_code side.now

abbrev pub says : (ℕ → Bool → Translation) → Bool → Happening → Side → List Update
says tr rang bye side =
    if is_connected side.status
    then internal (if side.a_leg then by_org else by_dst) (codes "Bye") 200 side.now
      ∷ bleg (codes "Bye") 200
      ∷ []
    else (if side.a_leg
        then internal by_org (codes "EarlyBye") 500 side.now
          ∷ aleg (codes "EarlyBye") 200
          ∷ bleg (codes "Cancel") 487
          ∷ []
        else bleg (codes "EarlyBye") 200 ∷ [])
says tr rang other_bye side =
    if side.a_leg && not (is_connected side.status)
    then internal by_dst (codes "EarlyBye") 500 side.now
      ∷ aleg (codes "Request terminated") 487
      ∷ []
    else []
says tr rang rtp_silent side =
    if is_connected side.status
    then by_code tr 125 side ∷ aleg (codes "Bye") 200 ∷ bleg (codes "Bye") 200 ∷ []
    else []
says tr rang torn_down side =
    internal by_ts (codes "Teardown") 200 side.now
    ∷ aleg (codes "Bye") 200
    ∷ bleg (codes "Bye") 200
    ∷ []
says tr rang (remote_gone code reason) side =
    (if side.a_leg then internal by_ts reason code side.now ∷ [] else [])
    ++ (if is_connected side.status
        then internal by_ts (codes "reINVITE failed") 200 side.now ∷ bleg (codes "Bye") 200 ∷ []
        else [])
says tr rang (excepted code reason) side =
    internal by_ts reason (bits code) side.now ∷ dialog_says side
says tr rang other_excepted side = dialog_says side
says tr rang failed side =
    if side.a_leg
    then internal by_ts (codes "Generic Failure") 503 side.now
      ∷ missing_aleg side.local_tag side.global_tag side.call_id
      ∷ []
    else []
says tr rang (reply_excepted r e) side =
    if side.has_other
    then internal by_ts e.internal_reason e.internal_code side.now ∷ sip_reply r side.now ∷ []
    else []
says tr rang (status_changed cause) side =
    if is_disconnected side.status && not (disconnect_code rang cause == 0)
    then by_code tr (disconnect_code rang cause) side ∷ []
    else []

abbrev pub closes : Happening → Side → Bool
closes other_bye side = side.has_ctx && side.a_leg && not (is_connected side.status)
closes _ side = false

-- What a sequence says, up to the event that closes the record.
abbrev pub said : (ℕ → Bool → Translation) → Bool → List Event → List Update
said tr rang [] = []
said tr rang (e ∷ es) =
    let rest = said tr rang es in
    (if e.side.has_ctx then says tr rang e.what e.side else [])
    ++ (if closes e.what e.side then [] else rest)

module _ {Details Carried : Type 0} (env : Env) where
  abbrev pub translations : Shared Details Carried → ℕ → Bool → Translation
  translations s code a_leg = (translated env code a_leg s).1
