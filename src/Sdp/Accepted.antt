-- ===== src/Sdp/Accepted.antt =====
-- src/sdp_filter.cpp: what the whole treatment of an answer keeps of the streams that were negotiated.
use sems_yeti.Prelude.{
  ℕ, ◌≡◌, ap, ◌∙◌, inl, inr, Bool, true, false, List, ◌∷◌, Option, none, some, arith, Bool-cases,
  Option-cases,
}
use sems_yeti.Prelude.Classes.{Text, nat_eq}
use sems_yeti.Prelude.Map.{Map}
use sems_yeti.Sdp.{Core, Sdp, Media, Payload, Outcome, done, thrown}
use sems_yeti.Sdp.Answer.{types, filter_sdp_answer_types}
use sems_yeti.Sdp.Filters.{filter_sdp_alines}
use sems_yeti.Sdp.Kinds.{alines-types, clear_ice-types, conn-types, fix_dynamic-types}
use sems_yeti.Sdp.Mapping.{Masks, PayloadIdMapping, fix_dynamic_payloads}
use sems_yeti.Sdp.Places.{normalize_conn_location}
use sems_yeti.Sdp.Process.{Wire, Profile, Leg, is_sdp_method}
use sems_yeti.Sdp.Relay.{
  legs_filter, legs_location, normalized, numbered_answer, answer_steps, finish_answer, no_answer,
  process_sdp_answer,
}
use sems_yeti.Sdp.Relayed.{Outcome-cases}
use sems_yeti.Sdp.Streams.{filter_sdp_answer_media}

module _ {Body : Type 0} (wire : Wire Body) (core : Core) (groups : Map ℕ (List Payload))
    {Mask : Type 0} (masks : Masks Mask) (limit : ℕ) where
  numbered-types :
      (profile : Profile) (leg leg' : Leg) (s s' : Sdp) (mapping : PayloadIdMapping)
      → numbered_answer wire core groups masks limit profile leg
          (fix_dynamic_payloads masks core limit s mapping)
        ≡ some (done s', leg')
      → types s'.media ≡ types s.media
  numbered-types profile leg leg' s s' mapping h =
      elim (Option-cases (fix_dynamic_payloads masks core limit s mapping)) [
        | inl gone ↦ absurd (ground (arith, gone))
        | inr ((t, next), there) ↦
            let l = filter_sdp_alines (legs_filter wire core groups masks limit profile leg) t in
            let c =
              normalize_conn_location core l
                (legs_location wire core groups masks limit profile leg) in
            ground (
              arith,
              there,
              fix_dynamic-types masks core limit s t mapping next there,
              alines-types (legs_filter wire core groups masks limit profile leg) t,
              conn-types core l (legs_location wire core groups masks limit profile leg),
              clear_ice-types c,
            )
      ]

  answer_steps-types :
      (profile : Profile) (leg leg' : Leg) (cseq : ℕ) (o : Media) (os : List Media)
      (single noaudio : Bool) (sdp s' : Sdp)
      → profile.rtprelay_enabled ≡ true
      → answer_steps wire core groups masks limit profile leg cseq (o ∷ os) single noaudio sdp
        ≡ some (done s', leg')
      → types s'.media ≡ types (o ∷ os)
  unfolding answer_steps
  answer_steps-types profile leg leg' cseq o os single noaudio sdp s' relay h =
      let (n, l) = normalized wire core groups masks limit leg sdp cseq false in
      elim (Outcome-cases
        (filter_sdp_answer_media core noaudio profile.avoid_transcoding single (o ∷ os) n.media)) [
          | inl (c, failed) ↦ absurd (ground (arith, relay, failed))
          | inr (ms, matched) ↦
              numbered-types profile l leg' (record n { media = ms }) s' l.transcoder_mapping
                (ground (arith, relay, matched))
              ∙ filter_sdp_answer_types core noaudio profile.avoid_transcoding single o os n.media
                  ms matched
        ]

  no_answer-same :
      (mandatory : Bool) (leg leg' : Leg) (body body' : Body) (ns ns' : List Media)
      → no_answer wire core groups masks limit mandatory leg body ns
        ≡ some (done (body', ns'), leg')
      → ns' ≡ ns
  no_answer-same true leg leg' body body' ns ns' h = absurd (ground arith)
  no_answer-same false leg leg' body body' ns ns' h = ground arith

  finish_answer-done :
      (out : Option (Outcome Sdp × Leg)) (leg' : Leg) (body body' : Body) (ns' : List Media)
      → finish_answer wire core groups masks limit body out ≡ some (done (body', ns'), leg')
      → (s : Sdp) × (out ≡ some (done s, leg')) × (ns' ≡ s.media)
  finish_answer-done none leg' body body' ns' h = absurd (ground arith)
  finish_answer-done (some (thrown c, leg)) leg' body body' ns' h = absurd (ground arith)
  finish_answer-done (some (done s, leg)) leg' body body' ns' h = (s, ground arith, ground arith)

  -- For an answer on a leg that relays RTP, with at least one negotiated stream, from the body of the
  -- reply to the streams that are kept: if processSdpAnswer does not throw, the streams that are
  -- negotiated then are as many as before and of the same types, in their order. This holds of a reply
  -- without SDP and of other methods too.
  pub process_sdp_answer-types :
      (profile : Profile) (leg leg' : Leg) (cseq : ℕ) (body body' : Body) (method : Text)
      (o : Media) (os ns' : List Media) (single noaudio mandatory : Bool)
      → profile.rtprelay_enabled ≡ true
      → process_sdp_answer wire core groups masks limit profile leg cseq body method
          (o ∷ os)
          single
          noaudio
          mandatory
        ≡ some (done (body', ns'), leg')
      → types ns' ≡ types (o ∷ os)
  unfolding process_sdp_answer
  process_sdp_answer-types profile leg leg' cseq body body' method o os ns' single noaudio mandatory
        relay h =
      elim (Bool-cases (is_sdp_method method)) [
        | inr other ↦ let e : ns' ≡ o ∷ os = ground (arith, other) in ap types e
        | inl sdp_method ↦ elim (Bool-cases (wire.is_empty body)) [
          | inl empty ↦ ap types (
              no_answer-same mandatory leg leg' body body' (o ∷ os) ns'
                (ground (arith, sdp_method, empty)))
          | inr full ↦ elim (Option-cases (wire.sdp_body body)) [
            | inl bare ↦ ap types (
                no_answer-same mandatory leg leg' body body' (o ∷ os) ns'
                  (ground (arith, sdp_method, full, bare)))
            | inr (text, there) ↦ elim (Option-cases (wire.parse text)) [
              | inl bad ↦ absurd (ground (arith, sdp_method, full, there, bad))
              | inr (sdp, parsed) ↦
                  let out =
                    answer_steps wire core groups masks limit profile leg cseq (o ∷ os) single
                      noaudio sdp in
                  let (s, e, f) =
                    finish_answer-done out leg' body body' ns'
                      (ground (arith, sdp_method, full, there, parsed)) in
                  ap types f
                  ∙ answer_steps-types profile leg leg' cseq o os single noaudio sdp s relay e
            ]
          ]
        ]
      ]
