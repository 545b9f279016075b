-- ===== src/Sdp/Process.antt =====
-- src/sdp_filter.cpp: the whole treatment of an offer and of an answer by a leg (`processSdpOffer`,
-- `filterSdpOffer`, `processSdpAnswer`), and `normalizeSdpVersion` of src/SBCCallLeg.cpp. The code is that
-- of a build without WITH_ZRTP.
use sems_yeti.Prelude.{
  ℕ, ◌+◌, ◌%◌, ◌^◌, ◌==◌, Bool, true, false, not, ◌&&◌, ◌||◌, List, [], ◌∷◌, map, Option,
  if◌then◌else◌,
}
use sems_yeti.Prelude.Classes.{Text, text_eq, codes, nat_eq}
use sems_yeti.Sdp.{Sdp, Media, Transport, is_audio, same_transport}
use sems_yeti.Sdp.Filters.{FilterEntry}
use sems_yeti.Sdp.Mapping.{PayloadIdMapping}
use sems_yeti.Sdp.Places.{Location}

-- DC_REPLY_SDP_PARSING_FAILED, FC_INVALID_MEDIA_TRANSPORT and FC_CG_GROUP_NOT_FOUND
abbrev pub parsing_failed : ℕ
parsing_failed = 1501

abbrev pub invalid_media_transport : ℕ
invalid_media_transport = 143

abbrev pub group_not_found : ℕ
group_not_found = 140

-- What the code takes from the SEMS core for a body: whether it is empty, the payload of its SDP part if
-- it has one, that payload set and its content type normalized, and AmSdp's parse and print.
pub record Wire (Body : Type 0) : Type 0 where
  pub is_empty : Body → Bool
  pub sdp_body : Body → Option Text
  pub set_payload : Body → Text → Body
  pub parse : Text → Option Sdp
  pub print : Sdp → Text
  pub is_hold : Sdp → Bool
  pub parts : Text → ℕ

pub record Profile : Type 0 where
  pub sdpalinesfilter : List FilterEntry
  pub bleg_sdpalinesfilter : List FilterEntry
  pub filter_noaudio_streams : Bool
  pub rtprelay_enabled : Bool
  pub avoid_transcoding : Bool
  pub aleg_media_transport : Transport
  pub bleg_media_transport : Transport
  pub aleg_conn_location : Location
  pub bleg_conn_location : Location

-- The fields of a leg that the treatment reads and changes.
pub record Leg : Type 0 where
  pub a_leg : Bool
  pub transcoder_mapping : PayloadIdMapping
  pub sdp_session_version : ℕ
  pub sdp_session_offer_last_cseq : ℕ
  pub sdp_session_answer_last_cseq : ℕ

abbrev pub is_sdp_method : Text → Bool
is_sdp_method m =
    text_eq m (codes "INVITE")
    || text_eq m (codes "UPDATE")
    || text_eq m (codes "PRACK")
    || text_eq m (codes "ACK")

abbrev pub last_cseq : Leg → Bool → ℕ
last_cseq leg offer =
    if offer then leg.sdp_session_offer_last_cseq else leg.sdp_session_answer_last_cseq

abbrev pub set_last_cseq : ℕ → Bool → Leg → Leg
set_last_cseq cseq offer leg =
    if offer
    then record leg { sdp_session_offer_last_cseq = cseq }
    else record leg { sdp_session_answer_last_cseq = cseq }

-- The leg, whose version is that of the SDP then: an unsigned int that wraps around.
unfoldable pub normalize_sdp_version : Leg → ℕ → ℕ → Bool → Leg
normalize_sdp_version leg sess_v cseq offer =
    if not (leg.sdp_session_version == 0)
    then (if not (last_cseq leg offer == cseq)
        then (record (set_last_cseq cseq offer leg) {
          sdp_session_version = (leg.sdp_session_version + 1) % 2 ^ 32;
        })
        else leg)
    else record (set_last_cseq cseq offer leg) { sdp_session_version = sess_v }

abbrev pub activate : Media → Media
activate m = if m.send && not m.recv then record m { send = false; recv = true } else m

abbrev pub fix_media_activity : Bool → Sdp → Sdp
fix_media_activity is_hold sdp =
    if is_hold then record sdp { media = map activate sdp.media } else sdp

abbrev pub clear_media_ice : Media → Media
clear_media_ice m = record m { ice_pwd = []; ice_ufrag = []; ice_candidate = []; is_ice = false }

unfoldable pub clear_ice_params : Sdp → Sdp
clear_ice_params sdp = record sdp {
  ice_pwd = [];
  ice_ufrag = [];
  use_ice = false;
  media = map clear_media_ice sdp.media;
}

-- The first stream has audio and another transport than the leg. Of an SDP without streams the code
-- reads the first one all the same, and nothing can be said; the model does not refuse it.
abbrev pub transport_refused : Transport → List Media → Bool
transport_refused expected [] = false
transport_refused expected (m ∷ ms) = is_audio m.type && not (same_transport m.transport expected)

-- A code other than 0 is returned at once.
abbrev pub if_ok : ℕ × Sdp → (Sdp → ℕ × Sdp) → ℕ × Sdp
if_ok (code, sdp) k = if code == 0 then k sdp else (code, sdp)
