-- ===== src/Sdp.antt =====
-- SDP as src/sdp_filter.cpp and src/SDPFilter.cpp read and change it. AmSdp, SdpMedia, SdpPayload and
-- SdpConnection are of the SEMS core: the records have the fields that the code names. A vector is a
-- list, and what is parsed and printed is the record itself.
mod Tests
mod ProcessTests
mod Samples
pub mod Arrange
pub mod Codecs
pub mod Places
pub mod Kept
pub mod Streams
pub mod Filters
pub mod Normalize
pub mod Process
pub mod Offer
pub mod Relay
mod Kinds
mod Relayed
mod Accepted
mod Sent
mod Answer
mod Refusals
pub mod Mapping
mod Distinct
mod Numbered
mod Single
mod Normalized
mod Arranged
pub mod Within
pub mod Passing
mod Lines
mod Payloads
mod Types
use sems_yeti.Prelude.{
  ℕ, ◌+◌, ◌-◌, Bool, true, false, not, ◌&&◌, ◌||◌, ◌==◌, leb, List, [], ◌∷◌, map, Option, none,
  some, if◌then◌else◌,
}
use sems_yeti.Prelude.Int.{ℤ, pos, ltb_ℤ, leb_ℤ, eqb_ℤ}
use sems_yeti.Prelude.Classes.{Text, text_eq}

pub data MediaType : Type 0 where
  audio video : MediaType
  other_type : ℕ → MediaType

-- The RTP transports that `findPayload` names; any other is told apart by a number.
pub data Transport : Type 0 where
  rtpavp rtpavpf rtpsavp rtpsavpf udptls_rtpsavp udptls_rtpsavpf : Transport
  other_transport : ℕ → Transport

pub record Payload : Type 0 where
  pub payload_type : ℤ
  pub encoding_name : Text
  pub clock_rate : ℤ
  pub encoding_param : ℤ
  pub format : Text
  pub sdp_format_parameters : Text

pub record Connection : Type 0 where
  pub network : ℕ
  pub addr_type : ℕ
  pub address : Text

pub record Attribute : Type 0 where
  pub attribute : Text
  pub value : Text

pub record Media : Type 0 where
  pub type : MediaType
  pub transport : Transport
  pub port : ℕ
  pub conn : Connection
  pub send : Bool
  pub recv : Bool
  pub payloads : List Payload
  pub attributes : List Attribute
  pub ice_pwd : Text
  pub ice_ufrag : Text
  pub ice_candidate : List Text
  pub is_ice : Bool

pub record Sdp : Type 0 where
  pub conn : Connection
  pub media : List Media
  pub attributes : List Attribute
  pub sess_v : ℕ
  pub ice_pwd : Text
  pub ice_ufrag : Text
  pub use_ice : Bool

-- What the code takes from the SEMS core: DYNAMIC_PAYLOAD_TYPE_START, DTMF_ENCODING_NAME, `==` of
-- connections and the connection that SdpConnection() makes.
pub record Core : Type 0 where
  pub dynamic_start : ℕ
  pub dtmf_name : Text
  pub conn_eq : Connection → Connection → Bool
  pub no_conn : Connection

abbrev pub is_audio : MediaType → Bool
is_audio audio = true
is_audio _ = false

abbrev pub media_code : MediaType → ℕ
media_code audio = 0
media_code video = 1
media_code (other_type n) = n + 2

abbrev pub same_type : MediaType → MediaType → Bool
same_type a b = media_code a == media_code b

abbrev pub transport_code : Transport → ℕ
transport_code rtpavp = 0
transport_code rtpavpf = 1
transport_code rtpsavp = 2
transport_code rtpsavpf = 3
transport_code udptls_rtpsavp = 4
transport_code udptls_rtpsavpf = 5
transport_code (other_transport n) = n + 6

abbrev pub same_transport : Transport → Transport → Bool
same_transport a b = transport_code a == transport_code b

abbrev pub is_rtp : Transport → Bool
is_rtp (other_transport n) = false
is_rtp _ = true

-- `::tolower` and `::toupper` of the C locale.
abbrev pub to_lower : ℕ → ℕ
to_lower c = if leb b'A' c && leb c b'Z' then c + 32 else c

abbrev pub to_upper : ℕ → ℕ
to_upper c = if leb b'a' c && leb c b'z' then c - 32 else c

abbrev pub lower : Text → Text
lower = map to_lower

abbrev pub upper : Text → Text
upper = map to_upper

abbrev pub same_name : Payload → Payload → Bool
same_name p q = text_eq (lower p.encoding_name) (lower q.encoding_name)

abbrev pub is_some {ℓ} : {A : Type ℓ} → Option A → Bool
is_some none = false
is_some (some a) = true

module _ (core : Core) where
  abbrev pub is_static : Payload → Transport → Bool
  is_static payload transport =
      is_rtp transport
      && leb_ℤ (pos 0) payload.payload_type
      && ltb_ℤ payload.payload_type (pos core.dynamic_start)

  -- The body of the loop of `findPayload`, for the payload `p` of the list.
  unfoldable pub payload_matches : Payload → Transport → Payload → Bool
  payload_matches payload transport p =
      ((is_static payload transport && eqb_ℤ payload.payload_type p.payload_type)
        || same_name p payload)
      && not (ltb_ℤ (pos 0) p.clock_rate && not (eqb_ℤ p.clock_rate payload.clock_rate))
      && not (
          leb_ℤ (pos 0) p.encoding_param
          && leb_ℤ (pos 0) payload.encoding_param
          && not (eqb_ℤ p.encoding_param payload.encoding_param))

  unfoldable pub find_payload : List Payload → Payload → Transport → Option Payload
  unfolding payload_matches
  find_payload [] payload transport = none
  find_payload (p ∷ ps) payload transport =
      if payload_matches payload transport p then some p else find_payload ps payload transport

  unfoldable pub contains_payload : List Payload → Payload → Transport → Bool
  unfolding find_payload
  contains_payload ps payload transport = is_some (find_payload ps payload transport)

  unfoldable pub is_telephone_event : Payload → Bool
  is_telephone_event p = text_eq (upper p.encoding_name) core.dtmf_name

  abbrev pub is_only_event : List Payload → Bool
  is_only_event [] = false
  is_only_event (p ∷ []) = is_telephone_event p
  is_only_event (p ∷ q ∷ ps) = false

-- What a call returns, or the code of the InternalException that it throws.
pub data Outcome {ℓ} (A : Type ℓ) : Type ℓ where
  done : A → Outcome A
  thrown : ℕ → Outcome A
