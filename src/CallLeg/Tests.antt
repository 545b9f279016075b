-- ===== src/CallLeg/Tests.antt =====
-- A call that is tried at three legs.
use sems_yeti.Prelude.{arith, ℕ, ◌≡◌, refl, true, false, [], ◌∷◌, none, some}
use sems_yeti.Prelude.Classes.{Text, codes, text_key}
use sems_yeti.Prelude.Map.{find}
use sems_yeti.CallLeg.{CallLeg, ringing, no_reply}
use sems_yeti.CallLeg.Replies.{Session, ReplyEvent, run}
use sems_yeti.CallLeg.Fork.{terminations, relayed, ConnectedTo, AllFromOthers, answered_by_one}

abbrev session : Session
session = record { cleared_id = []; terminated_id = λ id. id }

abbrev caller : CallLeg
caller = record {
  call_status = ringing;
  a_leg = true;
  local_tag = codes "caller";
  other_id = codes "a";
  other_legs = (codes "a", none) ∷ (codes "b", some 4) ∷ (codes "c", none) ∷ [];
  media_session = none;
  rtp_direct = false;
  oa_completed = true;
  sip_relay_only = false;
  allow_1xx_without_to_tag = false;
  est_invite_cseq = 10;
}

abbrev event : ℕ → Text → ReplyEvent
event code tag = record {
  reply = record { code = code; cseq = 10; is_invite = true; from_tag = tag; to_tag = codes "t" };
  forward = true;
  sender_ltag = tag;
  relays = true;
  fork = none;
}

late_from_others :
    AllFromOthers
      (codes "b")
      (event 180 (codes "a") ∷ event 487 (codes "c") ∷ event 200 (codes "a") ∷ [])
late_from_others = (
  (λ e. ground arith),
  (λ e. ground arith),
  ((λ e. ground arith), (λ e. ground arith), ((λ e. ground arith), (λ e. ground arith), tt)),
)

answered_by_one_example :
    ConnectedTo
      (codes "b")
      (run session
        (event 200 (codes "b")
          ∷ event 180 (codes "a")
          ∷ event 487 (codes "c")
          ∷ event 200 (codes "a")
          ∷ [])
        caller).0
    × (terminations
          (run session
            (event 200 (codes "b")
              ∷ event 180 (codes "a")
              ∷ event 487 (codes "c")
              ∷ event 200 (codes "a")
              ∷ [])
            caller).1
        ≡ codes "a" ∷ codes "c" ∷ [])
    × (relayed
          (run session
            (event 200 (codes "b")
              ∷ event 180 (codes "a")
              ∷ event 487 (codes "c")
              ∷ event 200 (codes "a")
              ∷ [])
            caller).1
        ≡ (event 200 (codes "b")).reply ∷ [])
unfolding find
answered_by_one_example =
    answered_by_one session caller (event 200 (codes "b"))
      (event 180 (codes "a") ∷ event 487 (codes "c") ∷ event 200 (codes "a") ∷ []) (some 4) refl
      refl refl refl refl late_from_others

abbrev waiting : CallLeg
waiting = record caller {
  call_status = no_reply;
  other_legs = (codes "a", none) ∷ (codes "b", some 4) ∷ [];
}
