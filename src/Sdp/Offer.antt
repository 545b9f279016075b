-- ===== src/Sdp/Offer.antt =====
-- src/sdp_filter.cpp: the treatment of an offer that a leg receives (`processSdpOffer`).
use sems_yeti.Prelude.{ℕ, ◌==◌, Bool, false, ◌&&◌, List, Option, none, some, if◌then◌else◌}
use sems_yeti.Prelude.Classes.{Text, nat_eq}
use sems_yeti.Prelude.Map.{Map, find}
use sems_yeti.Sdp.{Core, Sdp, Media, Payload, Transport, Outcome, done, thrown}
use sems_yeti.Sdp.Arrange.{filter_arrange_sdp, filter_no_audio_streams}
use sems_yeti.Sdp.Codecs.{reduce_codecs_to_single}
use sems_yeti.Sdp.Filters.{filter_sdp_alines}
use sems_yeti.Sdp.Streams.{check_local}
use sems_yeti.Sdp.Process.{
  parsing_failed, invalid_media_transport, group_not_found, Wire, Profile, Leg, is_sdp_method,
  fix_media_activity, transport_refused, if_ok,
}

module _ (core : Core) where
  -- `processSdpOffer` for a parsed offer, after the check against the negotiated streams: the code and
  -- the SDP.
  unfoldable pub arrange_offer :
      Profile → Transport → (Sdp → Bool) → Bool → Bool → List Payload → Sdp → ℕ × Sdp
  arrange_offer profile media_transport is_hold local single_codec static_codecs sdp =
      if_ok (filter_arrange_sdp core static_codecs false sdp) λ arranged.
        if_ok
          (filter_no_audio_streams (filter_sdp_alines profile.sdpalinesfilter arranged)
            profile.filter_noaudio_streams)
          λ filtered.
            let fixed =
              if local then fix_media_activity (is_hold filtered) filtered else filtered in
            let reduced =
              if single_codec
              then record fixed { media = reduce_codecs_to_single core fixed.media }
              else fixed in
            (
              if profile.rtprelay_enabled && transport_refused media_transport reduced.media
                  then invalid_media_transport
                  else 0,
              reduced,
            )

  unfoldable pub local_check : Bool → List Media → Sdp → ℕ × Sdp
  unfolding check_local
  local_check local negotiated sdp =
      let (code, ms) = check_local negotiated sdp.media in
      if local then (code, record sdp { media = ms }) else (0, sdp)

module _ {Body : Type 0} (wire : Wire Body) (core : Core) (groups : Map ℕ (List Payload)) where
  -- What a handler returns: its code, the body and the negotiated streams.
  abbrev pub Reply : Type 0
  Reply = Outcome (ℕ × Body × List Media)

  -- The end of `processSdpOffer` for a code and an SDP: on 0 the streams are kept and the body written.
  abbrev pub finish_offer : Body → List Media → ℕ × Sdp → ℕ × Body × List Media
  finish_offer body negotiated (code, sdp) =
      if code == 0
      then (0, wire.set_payload body (wire.print sdp), sdp.media)
      else (code, body, negotiated)

  abbrev pub with_group : Option (List Payload) → (List Payload → ℕ × Sdp) → Outcome (ℕ × Sdp)
  with_group none k = thrown group_not_found
  with_group (some codecs) k = done (k codecs)

  -- The part of `processSdpOffer` that follows the parser.
  unfoldable pub offer_steps :
      Profile → Leg → ℕ → Bool → Bool → List Media → Sdp → Outcome (ℕ × Sdp)
  offer_steps profile leg static_codecs_id local single_codec negotiated sdp =
      let (code, checked) = local_check core local negotiated sdp in
      let media_transport =
        if leg.a_leg then profile.aleg_media_transport else profile.bleg_media_transport in
      if code == 0
      then with_group (find static_codecs_id groups) (λ codecs.
        arrange_offer core profile media_transport wire.is_hold local single_codec codecs checked)
      else done (code, checked)

  abbrev pub parsed_offer : Profile → Leg → ℕ → Bool → Bool → List Media → Body → Option Sdp → Reply
  parsed_offer profile leg id local single_codec negotiated body none =
      done (parsing_failed, body, negotiated)
  parsed_offer profile leg id local single_codec negotiated body (some sdp) =
      elim (offer_steps profile leg id local single_codec negotiated sdp) [
        | thrown c ↦ thrown c
        | done r ↦ done (finish_offer body negotiated r)
      ]

  abbrev pub offer_payload :
      Profile → Leg → Text → ℕ → Bool → Bool → List Media → Body → Option Text → Reply
  offer_payload profile leg method id local single_codec negotiated body none =
      done (0, body, negotiated)
  offer_payload profile leg method id local single_codec negotiated body (some text) =
      if is_sdp_method method
      then parsed_offer profile leg id local single_codec negotiated body (wire.parse text)
      else done (0, body, negotiated)

  unfoldable pub process_sdp_offer :
      Profile → Leg → Body → Text → List Media → ℕ → Bool → Bool → Reply
  unfolding offer_steps
  process_sdp_offer profile leg body method negotiated static_codecs_id local single_codec =
      offer_payload profile leg method static_codecs_id local single_codec negotiated body
        (wire.sdp_body body)
