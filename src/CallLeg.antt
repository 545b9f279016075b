-- ===== src/CallLeg.antt =====
-- src/CallLeg.cpp: the leg of a caller and the legs that are tried for it. A reply of such a leg arrives
-- as an event; what the handler calls of the SEMS core or of the derived class is an effect, in order.
pub mod Replies
mod Fork
mod Refused
mod Tests
use sems_yeti.Prelude.{
  ℕ, ◌==◌, ltb, Bool, true, false, not, ◌&&◌, ◌||◌, List, [], ◌∷◌, ◌++◌, Option, none, some,
  if◌then◌else◌, is_nil,
}
use sems_yeti.Prelude.Classes.{Text, text_eq, Eq, text_key}
use sems_yeti.Prelude.Map.{Map, find, erase, emplace}

pub data CallStatus : Type 0 where
  disconnected no_reply ringing connected disconnecting : CallStatus

pub record Reply : Type 0 where
  pub code : ℕ
  pub cseq : ℕ
  pub is_invite : Bool
  pub from_tag : Text
  pub to_tag : Text

-- A media session is a number; `none` is the null pointer.
pub record CallLeg : Type 0 where
  pub call_status : CallStatus
  pub a_leg : Bool
  pub local_tag : Text
  pub other_id : Text
  pub other_legs : Map Text (Option ℕ)
  pub media_session : Option ℕ
  pub rtp_direct : Bool
  pub oa_completed : Bool
  pub sip_relay_only : Bool
  pub allow_1xx_without_to_tag : Bool
  pub est_invite_cseq : ℕ

-- `terminate_leg` is the event B2BTerminateLeg for another leg; `status_change` and the four behind it
-- are calls of virtual functions; the others are calls of AmB2BSession and of the dialog.
pub data Effect : Type 0 where
  terminate_leg : Text → Effect
  status_change : CallStatus → Effect
  call_connected call_failed connected_err b_leg_refused : Reply → Effect
  call_canceled : Effect
  relay_reply : Reply → Effect
  change_session : ℕ → Effect
  set_rtp_direct reset_oa_state send_reinvite clear_receiver_relay : Effect
  session_terminate_other session_terminate session_reply session_bye : Effect

abbrev pub Step : Type 0
Step = CallLeg × List Effect

infixl 5 ◌>>◌
abbrev pub ◌>>◌ : Step → (CallLeg → Step) → Step
(leg, es) >> f = let (leg', es') = f leg in (leg', es ++ es')

abbrev pub is_connected : CallStatus → Bool
is_connected connected = true
is_connected _ = false

abbrev pub is_disconnected : CallStatus → Bool
is_disconnected disconnected = true
is_disconnected _ = false

abbrev pub is_no_reply : CallStatus → Bool
is_no_reply no_reply = true
is_no_reply _ = false

abbrev pub is_ringing : CallStatus → Bool
is_ringing ringing = true
is_ringing _ = false

unfoldable pub update_call_status : CallStatus → CallLeg → Step
update_call_status s leg = (record leg { call_status = s }, status_change s ∷ [])

-- The events for all legs but the current one, and the legs that are left then.
unfoldable pub terminated : Text → Map Text (Option ℕ) → List Effect
terminated id [] = []
terminated id ((j, m) ∷ legs) =
    let rest = terminated id legs in if text_eq j id then rest else terminate_leg j ∷ rest

unfoldable pub only : Text → Map Text (Option ℕ) → Map Text (Option ℕ)
only id [] = []
only id ((j, m) ∷ legs) = let rest = only id legs in if text_eq j id then (j, m) ∷ rest else rest

unfoldable pub terminate_not_connected_legs : CallLeg → Step
unfolding terminated only
terminate_not_connected_legs leg = (
  record leg { other_legs = only leg.other_id leg.other_legs },
  terminated leg.other_id leg.other_legs,
)

-- What setMediaSession is given, once there was none: the session, or direct RTP.
abbrev pub connect_media : Option ℕ → CallLeg → Step
connect_media (some k) leg = (record leg { media_session = some k }, change_session k ∷ [])
connect_media none leg = (
  record leg { media_session = none; rtp_direct = true },
  if leg.rtp_direct then [] else set_rtp_direct ∷ [],
)

abbrev pub attach_media : Option ℕ → Option ℕ → CallLeg → Step
attach_media (some k) m leg = (leg, [])
attach_media none m leg = connect_media m leg

-- Both ends of `setOther`: the offer/answer state, and relaying from now on.
abbrev pub accept_relay : Bool → CallLeg → Step
accept_relay forward leg = (
  record leg { oa_completed = leg.oa_completed && not forward; sip_relay_only = true },
  if forward && leg.oa_completed then reset_oa_state ∷ [] else [],
)

abbrev pub set_found : Text → Bool → CallLeg → Option (Option ℕ) → Bool × Step
set_found id forward leg none = (false, (leg, []))
set_found id forward leg (some m) =
    (true, attach_media leg.media_session m (record leg { other_id = id }) >> accept_relay forward)

unfoldable pub set_other : Text → Bool → CallLeg → Bool × Step
unfolding find
set_other id forward leg =
    if text_eq leg.other_id id
    then (true, (leg, []))
    else set_found id forward leg (find id leg.other_legs)
