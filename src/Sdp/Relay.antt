-- ===== src/Sdp/Relay.antt =====
-- src/sdp_filter.cpp: the offer that is sent on to the other leg (`filterSdpOffer`), and an answer
-- (`processSdpAnswer`).
use sems_yeti.Prelude.{ℕ, ◌==◌, Bool, true, false, not, List, Option, none, some, if◌then◌else◌}
use sems_yeti.Prelude.Classes.{Text, nat_eq}
use sems_yeti.Prelude.Map.{Map, find}
use sems_yeti.Sdp.{Core, Sdp, Media, Payload, Outcome, done, thrown}
use sems_yeti.Sdp.Arrange.{filter_arrange_sdp, cut_no_audio_streams}
use sems_yeti.Sdp.Filters.{FilterEntry, filter_sdp_alines}
use sems_yeti.Sdp.Mapping.{Masks, PayloadIdMapping, fix_dynamic_payloads}
use sems_yeti.Sdp.Normalize.{normalize_sdp}
use sems_yeti.Sdp.Places.{Location, normalize_conn_location}
use sems_yeti.Sdp.Streams.{filter_sdp_answer_media, empty_answer}
use sems_yeti.Sdp.Process.{
  parsing_failed, group_not_found, Wire, Profile, Leg, is_sdp_method, normalize_sdp_version,
  clear_ice_params,
}

module _ {Body : Type 0} (wire : Wire Body) (core : Core) (groups : Map ℕ (List Payload))
    {Mask : Type 0} (masks : Masks Mask) (limit : ℕ) where
  abbrev pub legs_filter : Profile → Leg → List FilterEntry
  legs_filter profile leg =
      if leg.a_leg then profile.sdpalinesfilter else profile.bleg_sdpalinesfilter

  abbrev pub legs_location : Profile → Leg → Location
  legs_location profile leg =
      if leg.a_leg then profile.bleg_conn_location else profile.aleg_conn_location

  -- `normalizeSDP` and `normalizeSdpVersion`.
  unfoldable pub normalized : Leg → Sdp → ℕ → Bool → Sdp × Leg
  unfolding normalize_sdp normalize_sdp_version
  normalized leg sdp cseq offer =
      let leg' = normalize_sdp_version leg sdp.sess_v cseq offer in
      (record (normalize_sdp wire.parts sdp) { sess_v = leg'.sdp_session_version }, leg')

  -- The rest of `filterSdpOffer` for an offer that is relayed, once the numbers are given.
  unfoldable pub relay_offer : Profile → Leg → Sdp → ℕ × Sdp
  relay_offer profile leg sdp =
      let (code, cut) =
        cut_no_audio_streams (clear_ice_params (filter_sdp_alines (legs_filter profile leg) sdp))
          profile.filter_noaudio_streams in
      if code == 0
      then (0, normalize_conn_location core cut (legs_location profile leg))
      else (code, cut)

  abbrev pub numbered_offer :
      Profile → Leg → Option (Sdp × PayloadIdMapping) → Option ((ℕ × Sdp) × Leg)
  numbered_offer profile leg none = none
  numbered_offer profile leg (some (sdp, mapping)) =
      some (relay_offer profile leg sdp, record leg { transcoder_mapping = mapping })

  -- `filterSdpOffer` for a parsed offer and the codecs of the group: `none` if no payload number is free.
  unfoldable pub filter_offer : Profile → Leg → ℕ → List Payload → Sdp → Option ((ℕ × Sdp) × Leg)
  unfolding normalized relay_offer
  filter_offer profile leg cseq static_codecs sdp =
      let (normal, leg') = normalized leg sdp cseq true in
      let relayed = filter_arrange_sdp core static_codecs true normal in
      let direct = filter_arrange_sdp core static_codecs false sdp in
      if profile.rtprelay_enabled
      then (if relayed.0 == 0
          then numbered_offer profile leg'
              (fix_dynamic_payloads masks core limit relayed.1 leg'.transcoder_mapping)
          else some (relayed, leg'))
      else some (direct, leg)

  -- The steps of `processSdpAnswer` once the payload numbers are given.
  abbrev pub numbered_answer :
      Profile → Leg → Option (Sdp × PayloadIdMapping) → Option (Outcome Sdp × Leg)
  numbered_answer profile leg none = none
  numbered_answer profile leg (some (sdp, mapping)) = some (
    done (
        clear_ice_params (
          normalize_conn_location core (filter_sdp_alines (legs_filter profile leg) sdp)
            (legs_location profile leg))),
    record leg { transcoder_mapping = mapping },
  )

  abbrev pub answered_streams :
      Profile → Leg → Sdp → Outcome (List Media) → Option (Outcome Sdp × Leg)
  answered_streams profile leg sdp (thrown c) = some (thrown c, leg)
  answered_streams profile leg sdp (done ms) =
      numbered_answer profile leg
        (fix_dynamic_payloads masks core limit (record sdp { media = ms }) leg.transcoder_mapping)

  -- `processSdpAnswer` for a parsed answer.
  unfoldable pub answer_steps :
      Profile → Leg → ℕ → List Media → Bool → Bool → Sdp → Option (Outcome Sdp × Leg)
  unfolding normalized
  answer_steps profile leg cseq negotiated single_codec noaudio_filtered sdp =
      let (normal, leg') = normalized leg sdp cseq false in
      if profile.rtprelay_enabled
      then answered_streams profile leg' normal (
          filter_sdp_answer_media core noaudio_filtered profile.avoid_transcoding single_codec
            negotiated normal.media)
      else some (done sdp, leg)

  -- `filterSdpOffer`: what it returns or throws with the body, and the leg; `none` if no payload number
  -- is free.
  abbrev pub finish_relay : Body → Option ((ℕ × Sdp) × Leg) → Option (Outcome (ℕ × Body) × Leg)
  finish_relay body none = none
  finish_relay body (some ((code, sdp), leg)) =
      some (
        done (if code == 0 then (0, wire.set_payload body (wire.print sdp)) else (code, body)),
        leg,
      )

  abbrev pub relay_group :
      Profile → Leg → ℕ → Body → Sdp → Option (List Payload) → Option (Outcome (ℕ × Body) × Leg)
  relay_group profile leg cseq body sdp none = some (
    thrown group_not_found,
    if profile.rtprelay_enabled then (normalized leg sdp cseq true).1 else leg,
  )
  relay_group profile leg cseq body sdp (some codecs) =
      finish_relay body (filter_offer profile leg cseq codecs sdp)

  abbrev pub relay_parsed :
      Profile → Leg → ℕ → ℕ → Body → Option Sdp → Option (Outcome (ℕ × Body) × Leg)
  relay_parsed profile leg cseq id body none = some (done (parsing_failed, body), leg)
  relay_parsed profile leg cseq id body (some sdp) =
      relay_group profile leg cseq body sdp (find id groups)

  abbrev pub relay_payload :
      Profile → Leg → ℕ → Text → ℕ → Body → Option Text → Option (Outcome (ℕ × Body) × Leg)
  relay_payload profile leg cseq method id body none = some (done (0, body), leg)
  relay_payload profile leg cseq method id body (some text) =
      if is_sdp_method method
      then relay_parsed profile leg cseq id body (wire.parse text)
      else some (done (0, body), leg)

  unfoldable pub filter_sdp_offer :
      Profile → Leg → ℕ → Body → Text → ℕ → Option (Outcome (ℕ × Body) × Leg)
  unfolding filter_offer
  filter_sdp_offer profile leg cseq body method static_codecs_id =
      if wire.is_empty body
      then some (done (0, body), leg)
      else relay_payload profile leg cseq method static_codecs_id body (wire.sdp_body body)

  -- `processSdpAnswer`: the body and the negotiated streams, or what is thrown, and the leg.
  abbrev pub finish_answer :
      Body → Option (Outcome Sdp × Leg) → Option (Outcome (Body × List Media) × Leg)
  finish_answer body none = none
  finish_answer body (some (thrown c, leg)) = some (thrown c, leg)
  finish_answer body (some (done sdp, leg)) =
      some (done (wire.set_payload body (wire.print sdp), sdp.media), leg)

  abbrev pub answer_parsed :
      Profile
      → Leg
      → ℕ
      → List Media
      → Bool
      → Bool
      → Body
      → Option Sdp
      → Option (Outcome (Body × List Media) × Leg)
  answer_parsed profile leg cseq negotiated single_codec noaudio body none =
      some (thrown parsing_failed, leg)
  answer_parsed profile leg cseq negotiated single_codec noaudio body (some sdp) =
      finish_answer body (answer_steps profile leg cseq negotiated single_codec noaudio sdp)

  -- An answer without SDP.
  abbrev pub no_answer : Bool → Leg → Body → List Media → Option (Outcome (Body × List Media) × Leg)
  no_answer mandatory leg body negotiated =
      some (if mandatory then thrown empty_answer else done (body, negotiated), leg)

  abbrev pub answer_payload :
      Profile
      → Leg
      → ℕ
      → List Media
      → Bool
      → Bool
      → Bool
      → Body
      → Option Text
      → Option (Outcome (Body × List Media) × Leg)
  answer_payload profile leg cseq negotiated single_codec noaudio mandatory body none =
      no_answer mandatory leg body negotiated
  answer_payload profile leg cseq negotiated single_codec noaudio mandatory body (some text) =
      answer_parsed profile leg cseq negotiated single_codec noaudio body (wire.parse text)

  unfoldable pub process_sdp_answer :
      Profile
      → Leg
      → ℕ
      → Body
      → Text
      → List Media
      → Bool
      → Bool
      → Bool
      → Option (Outcome (Body × List Media) × Leg)
  unfolding answer_steps
  process_sdp_answer profile leg cseq body method negotiated single_codec noaudio mandatory =
      if not (is_sdp_method method)
      then some (done (body, negotiated), leg)
      else (if wire.is_empty body
          then no_answer mandatory leg body negotiated
          else answer_payload profile leg cseq negotiated single_codec noaudio mandatory body
              (wire.sdp_body body))
