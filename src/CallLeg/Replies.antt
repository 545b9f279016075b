-- ===== src/CallLeg/Replies.antt =====
-- src/CallLeg.cpp: what a caller's leg does on the replies of the legs that are tried for it, on CANCEL
-- and on BYE.
use sems_yeti.Prelude.{
  ℕ, ◌==◌, ltb, Bool, false, not, ◌&&◌, ◌||◌, List, [], ◌∷◌, Option, none, some, if◌then◌else◌,
  is_nil,
}
use sems_yeti.Prelude.Classes.{Text, text_eq, text_key}
use sems_yeti.Prelude.Map.{erase, emplace}
use sems_yeti.CallLeg.{
  disconnected, no_reply, ringing, connected, Reply, CallLeg, call_connected, call_failed,
  connected_err, b_leg_refused, call_canceled, relay_reply, send_reinvite, clear_receiver_relay,
  session_terminate_other, session_terminate, session_reply, session_bye, Step, ◌>>◌, is_connected,
  is_disconnected, is_no_reply, is_ringing, update_call_status, terminate_not_connected_legs,
  set_other,
}

-- The names of the other leg that AmB2BSession has after its clear_other and its terminateOtherLeg.
pub record Session : Type 0 where
  pub cleared_id : Text
  pub terminated_id : Text → Text

module _ (session : Session) where
  unfoldable pub remove_other_leg : Text → CallLeg → CallLeg
  unfolding erase
  remove_other_leg id leg = record leg {
    other_id = if text_eq leg.other_id id then session.cleared_id else leg.other_id;
    other_legs = erase id leg.other_legs;
  }

  abbrev pub end_status : CallLeg → Step
  end_status leg =
      if is_disconnected leg.call_status then (leg, []) else update_call_status disconnected leg

  abbrev pub session_terminated : CallLeg → Step
  session_terminated leg =
      let id = session.terminated_id leg.other_id in
      (
        record leg { other_id = id; other_legs = erase id leg.other_legs },
        session_terminate_other ∷ [],
      )

  unfoldable pub terminate_other_leg : CallLeg → Step
  unfolding terminate_not_connected_legs update_call_status erase
  terminate_other_leg leg =
      (if is_connected leg.call_status then (leg, []) else terminate_not_connected_legs leg)
      >> session_terminated
      >> end_status

  unfoldable pub stop_call : CallLeg → Step
  unfolding terminate_other_leg
  stop_call leg =
      end_status leg
      >> terminate_not_connected_legs
      >> terminate_other_leg
      >> (λ l. (l, session_terminate ∷ []))

  -- `relaySipReply`, whose success is `relays`; a failure ends the call.
  abbrev pub relay_or_stop : Bool → Reply → CallLeg → Step
  relay_or_stop relays reply leg =
      let stopped = stop_call leg in
      if relays then (leg, relay_reply reply ∷ []) else (stopped.0, relay_reply reply ∷ stopped.1)

  -- A provisional reply of a leg, with its to-tag mended.
  abbrev pub with_to_tag : CallLeg → Reply → Reply
  with_to_tag leg reply =
      if is_nil reply.to_tag then record reply { to_tag = leg.local_tag } else reply

  unfoldable pub b2b_initial_1xx : Bool → Reply → Bool → CallLeg → Step
  unfolding set_other update_call_status stop_call
  b2b_initial_1xx relays reply forward leg =
      let r = with_to_tag leg reply in
      let (found, peer) = set_other r.from_tag forward leg in
      let rings = peer >> update_call_status ringing >> λ l.
      if forward then relay_or_stop relays r l else (l, []) in
      if reply.code == 100 || (is_nil reply.to_tag && not leg.allow_1xx_without_to_tag)
      then (leg, [])
      else (if is_no_reply leg.call_status
          then (if found then rings else peer)
          else (if text_eq leg.other_id r.from_tag && forward
              then relay_or_stop relays r leg
              else (leg, [])))

  -- After 2xx: the reply is relayed, or a re-INVITE is sent, and unless the relay fails the leg is connected.
  abbrev pub complete : Bool → Reply → Bool → CallLeg → Step
  complete relays reply forward leg =
      let connect = update_call_status connected leg in
      let stopped = stop_call leg in
      if not forward
      then (connect.0, send_reinvite ∷ connect.1)
      else (if relays
          then (connect.0, relay_reply reply ∷ connect.1)
          else (stopped.0, relay_reply reply ∷ stopped.1))

  unfoldable pub b2b_initial_2xx : Bool → Reply → Bool → CallLeg → Step
  unfolding set_other terminate_not_connected_legs update_call_status stop_call
  b2b_initial_2xx relays reply forward leg =
      let (found, peer) = set_other reply.from_tag forward leg in
      let answered =
        peer
        >> terminate_not_connected_legs
        >> (λ l. (record l { other_legs = [] }, call_connected reply ∷ []))
        >> complete relays reply forward in
      if found then answered else peer

-- What `addNewCallee` keeps of a callee, which it also starts: its name and media session, and the status.
unfoldable pub remember_callee : Text → Option ℕ → CallLeg → Step
unfolding emplace update_call_status
remember_callee id m leg =
    let added = record leg { other_legs = emplace id m leg.other_legs } in
    if is_disconnected leg.call_status then update_call_status no_reply added else (added, [])

-- onBLegRefused of the derived class, which may try one more callee, `fork`.
abbrev pub refused : Option (Text × Option ℕ) → Reply → CallLeg → Step
refused none reply leg = (leg, b_leg_refused reply ∷ [])
refused (some (id, m)) reply leg = (leg, b_leg_refused reply ∷ []) >> remember_callee id m

module _ (session : Session) where
  -- The last leg has refused.
  unfoldable pub all_refused : Reply → Bool → CallLeg → Step
  unfolding update_call_status stop_call
  all_refused reply forward leg =
      (
        leg,
        clear_receiver_relay ∷ call_failed reply ∷ (if forward then relay_reply reply ∷ [] else []),
      )
      >> update_call_status disconnected
      >> stop_call session

  unfoldable pub b2b_initial_err : Option (Text × Option ℕ) → Reply → Bool → CallLeg → Step
  unfolding remove_other_leg update_call_status remember_callee all_refused
  b2b_initial_err fork reply forward leg =
      let removed = remove_other_leg session reply.from_tag leg in
      let cleaned =
        update_call_status no_reply removed
        >> refused fork reply
        >> (λ l. (record l { sip_relay_only = false }, []))
        >> (λ l. if not (is_nil l.other_legs) then (l, []) else all_refused reply forward l) in
      if is_ringing leg.call_status && not (text_eq leg.other_id reply.from_tag)
      then refused fork reply removed
      else cleaned

  unfoldable pub on_initial_reply : Option (Text × Option ℕ) → Bool → Reply → Bool → CallLeg → Step
  unfolding b2b_initial_1xx b2b_initial_2xx b2b_initial_err
  on_initial_reply fork relays reply forward leg =
      if ltb reply.code 200
      then b2b_initial_1xx session relays reply forward leg
      else (if ltb reply.code 300
          then b2b_initial_2xx session relays reply forward leg
          else b2b_initial_err fork reply forward leg)

  -- The event B2BSipReply: the reply, whether it is to be forwarded, and the leg that sends it.
  abbrev pub is_initial_reply : Reply → Bool → CallLeg → Bool
  is_initial_reply reply forward leg =
      reply.is_invite
      && (is_no_reply leg.call_status || is_ringing leg.call_status)
      && ((reply.cseq == leg.est_invite_cseq && forward) || not forward)

  -- A final reply to an INVITE from another leg than the connected one.
  abbrev pub is_late_final : Reply → CallLeg → Bool
  is_late_final reply leg =
      is_connected leg.call_status
      && not (ltb reply.code 200)
      && reply.is_invite
      && not (text_eq reply.from_tag leg.other_id)

  unfoldable pub on_b2b_reply :
      Option (Text × Option ℕ) → Bool → Reply → Bool → Text → CallLeg → Step
  unfolding on_initial_reply set_other
  on_b2b_reply fork relays reply forward sender_ltag leg =
      if is_initial_reply reply forward leg
      then on_initial_reply fork relays reply forward leg
      else (if is_late_final reply leg
          then (if ltb reply.code 300
              then (set_other reply.from_tag false leg).1
              else (leg, connected_err reply ∷ []))
          else (if not (text_eq leg.other_id sender_ltag)
                && not (text_eq leg.other_id reply.from_tag)
              then (leg, [])
              else (leg, session_reply ∷ [])))

  unfoldable pub on_cancel : CallLeg → Step
  unfolding update_call_status stop_call
  on_cancel leg =
      let canceled =
        (leg, call_canceled ∷ []) >> update_call_status disconnected >> stop_call session in
      if (is_ringing leg.call_status
          || is_no_reply leg.call_status
          || is_disconnected leg.call_status)
        && leg.a_leg
      then canceled
      else (leg, [])

  unfoldable pub on_bye : CallLeg → Step
  unfolding terminate_not_connected_legs update_call_status
  on_bye leg = terminate_not_connected_legs leg >> update_call_status disconnected >> λ l.
      (l, clear_receiver_relay ∷ session_bye ∷ [])

-- A reply as it arrives, with what relaySipReply and onBLegRefused make of it.
pub record ReplyEvent : Type 0 where
  pub reply : Reply
  pub forward : Bool
  pub sender_ltag : Text
  pub relays : Bool
  pub fork : Option (Text × Option ℕ)

module _ (session : Session) where
  unfoldable pub run : List ReplyEvent → CallLeg → Step
  unfolding on_b2b_reply
  run [] leg = (leg, [])
  run (e ∷ es) leg =
      on_b2b_reply session e.fork e.relays e.reply e.forward e.sender_ltag leg >> run es
