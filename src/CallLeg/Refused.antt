-- ===== src/CallLeg/Refused.antt =====
-- src/CallLeg.cpp: a call whose legs all refuse comes to its end.
use sems_yeti.Prelude.{
  ℕ, ◌==◌, ltb, ◌≡◌, refl, Bool, true, false, not, ◌&&◌, ◌||◌, List, [], ◌∷◌, Option, none, arith,
}
use sems_yeti.Prelude.Classes.{Text, text_eq, text_key}
use sems_yeti.Prelude.Map.{Map, erase}
use sems_yeti.CallLeg.{
  CallLeg, Reply, disconnected, update_call_status, terminate_not_connected_legs,
}
use sems_yeti.CallLeg.Replies.{
  Session, end_status, session_terminated, terminate_other_leg, stop_call, all_refused, ReplyEvent,
}

-- The name is not among those of the map.
abbrev pub Absent : Text → Map Text (Option ℕ) → Type 0
Absent k [] = Unit {0}
Absent k ((j, m) ∷ legs) = (text_eq j k ≡ false) × Absent k legs

-- Each leg refuses in its turn, by a final reply that counts as an initial one, and no callee is tried
-- after it; the names are all different.
abbrev pub AllRefuse : ℕ → Map Text (Option ℕ) → List ReplyEvent → Type 0
AllRefuse cseq [] [] = Unit {0}
AllRefuse cseq ((k, m) ∷ legs) (e ∷ es) =
    (e.reply.from_tag ≡ k)
    × (e.reply.is_invite ≡ true)
    × (((e.reply.cseq == cseq && e.forward) || not e.forward) ≡ true)
    × (ltb e.reply.code 300 ≡ false)
    × (e.fork ≡ none)
    × Absent k legs
    × AllRefuse cseq legs es
AllRefuse cseq _ _ = ⊥

-- Disconnected, and no leg is known.
abbrev pub HasEnded : CallLeg → Type 0
HasEnded leg = (leg.call_status ≡ disconnected) × (leg.other_legs ≡ [])

only-HasEnded : (leg : CallLeg) → HasEnded leg → HasEnded (terminate_not_connected_legs leg).0
unfolding terminate_not_connected_legs
only-HasEnded leg (h, n) = (h, ground (arith, n))

module _ (session : Session) where
  end_status-HasEnded : (leg : CallLeg) → leg.other_legs ≡ [] → HasEnded (end_status session leg).0
  unfolding update_call_status
  end_status-HasEnded leg n = (ground arith, ground (arith, n))

  session-HasEnded : (leg : CallLeg) → HasEnded leg → HasEnded (session_terminated session leg).0
  unfolding erase
  session-HasEnded leg (h, n) = (h, ground (arith, n))

  terminate_other-HasEnded :
      (leg : CallLeg) → HasEnded leg → HasEnded (terminate_other_leg session leg).0
  unfolding terminate_other_leg
  terminate_other-HasEnded leg (h, n) =
      let t = terminate_not_connected_legs leg in
      let done_ = session-HasEnded t.0 (only-HasEnded leg (h, n)) in rw h (refl, done_.1)

  stop_call-HasEnded : (leg : CallLeg) → leg.other_legs ≡ [] → HasEnded (stop_call session leg).0
  unfolding stop_call
  stop_call-HasEnded leg n =
      let ended = end_status-HasEnded leg n in
      terminate_other-HasEnded (terminate_not_connected_legs (end_status session leg).0).0
        (only-HasEnded (end_status session leg).0 ended)

  all_refused-HasEnded :
      (reply : Reply) (forward : Bool) (leg : CallLeg)
      → leg.other_legs ≡ []
      → HasEnded (all_refused session reply forward leg).0
  unfolding all_refused
  all_refused-HasEnded reply forward leg n =
      stop_call-HasEnded (record leg { call_status = disconnected }) n
