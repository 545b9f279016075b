-- ===== src/Sdp/Normalize.antt =====
-- src/SDPFilter.cpp: what an SDP leaves out of the encodings of RFC 3551 and of the attribute silenceSupp
-- (RFC 3108), filled in. The table of the encodings is that of src/RTPParameters.cpp.
use sems_yeti.Prelude.{
  ℕ, zero, suc, ◌-◌, ltb, Bool, true, false, not, ◌&&◌, List, [], ◌∷◌, ◌++◌, map, Option, none,
  some, if◌then◌else◌, is_nil, get_elem?,
}
use sems_yeti.Prelude.Int.{ℤ, pos, negsuc}
use sems_yeti.Prelude.Classes.{Text, text_eq, codes}
use sems_yeti.Sdp.{MediaType, other_type, Payload, Attribute, Media, Sdp}

pub record IanaRtpPayload : Type 0 where
  pub payload_name : Text
  pub is_audio : Bool
  pub clock_rate : ℕ
  pub channels : ℕ

abbrev row : Text → Bool → ℕ → ℕ → IanaRtpPayload
row name is_audio clock_rate channels = record {
  payload_name = name;
  is_audio = is_audio;
  clock_rate = clock_rate;
  channels = channels;
}

abbrev pub iana_rtp_payloads : List IanaRtpPayload
iana_rtp_payloads =
    row (codes "PCMU") true 8000 1
    ∷ row (codes "") true 0 0
    ∷ row (codes "") true 0 0
    ∷ row (codes "GSM") true 8000 1
    ∷ row (codes "G723") true 8000 1
    ∷ row (codes "DVI4") true 8000 1
    ∷ row (codes "DVI4") true 16000 1
    ∷ row (codes "LPC") true 8000 1
    ∷ row (codes "PCMA") true 8000 1
    ∷ row (codes "G722") true 8000 1
    ∷ row (codes "L16") true 44100 2
    ∷ row (codes "L16") true 44100 1
    ∷ row (codes "QCELP") true 8000 1
    ∷ row (codes "CN") true 8000 1
    ∷ row (codes "MPA") true 90000 0
    ∷ row (codes "G728") true 8000 1
    ∷ row (codes "DVI4") true 11025 1
    ∷ row (codes "DVI4") true 22050 1
    ∷ row (codes "G729") true 8000 1
    ∷ row (codes "") true 0 0
    ∷ row (codes "") true 0 0
    ∷ row (codes "") true 0 0
    ∷ row (codes "") true 0 0
    ∷ row (codes "") true 0 0
    ∷ row (codes "") true 0 0
    ∷ row (codes "CelB") false 90000 0
    ∷ row (codes "JPEG") false 90000 0
    ∷ row (codes "") false 0 0
    ∷ row (codes "nv") false 90000 0
    ∷ row (codes "") false 0 0
    ∷ row (codes "") false 0 0
    ∷ row (codes "H261") false 90000 0
    ∷ row (codes "MPV") false 90000 0
    ∷ row (codes "MP2T") false 90000 0
    ∷ row (codes "H263") false 90000 0
    ∷ []

-- The row of a type between 0 and 34.
abbrev pub iana_payload : ℤ → Option IanaRtpPayload
iana_payload (negsuc n) = none
iana_payload (pos n) = get_elem? iana_rtp_payloads n

-- The payload `p` with a row of the table, unless that has no name.
abbrev pub with_encoding : IanaRtpPayload → Payload → Payload
with_encoding r p = if is_nil r.payload_name then p else record p {
  encoding_name = r.payload_name;
  clock_rate = pos r.clock_rate;
  encoding_param = if ltb 1 r.channels then pos r.channels else p.encoding_param;
}

unfoldable pub fix_encoding : Payload → Payload
fix_encoding p =
    if not (is_nil p.encoding_name)
    then p
    else elim (iana_payload p.payload_type) [ none ↦ p | some r ↦ with_encoding r p ]

unfoldable pub fix_missing_encodings : Media → Media
unfolding fix_encoding
fix_missing_encodings m = record m { payloads = map fix_encoding m.payloads }

-- `for(int i = n; i < 5; i++) value += " -"`
abbrev pub add_dashes : ℕ → Text → Text
add_dashes zero value = value
add_dashes (suc n) value = add_dashes n (value ++ codes " -")

abbrev pub has_fixes : MediaType → Bool
has_fixes (other_type n) = false
has_fixes _ = true

-- `parts` is the number of parts that `explode(value, " ")` gives.
module _ (parts : Text → ℕ) where
  unfoldable pub fix_attribute : Attribute → Attribute
  fix_attribute a =
      if text_eq a.attribute (codes "silenceSupp") && ltb (parts a.value) 5
      then record a { value = add_dashes (5 - parts a.value) a.value }
      else a

  unfoldable pub fix_incomplete_silencesupp : Media → Media
  unfolding fix_attribute
  fix_incomplete_silencesupp m = record m { attributes = map fix_attribute m.attributes }

  unfoldable pub normalize_stream : Media → Media
  unfolding fix_missing_encodings fix_incomplete_silencesupp
  normalize_stream m =
      if has_fixes m.type then fix_incomplete_silencesupp (fix_missing_encodings m) else m

  unfoldable pub normalize_sdp : Sdp → Sdp
  unfolding normalize_stream
  normalize_sdp sdp = record sdp { media = map normalize_stream sdp.media }
