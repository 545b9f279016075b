-- ===== src/Sdp/Relayed.antt =====
-- src/sdp_filter.cpp: what the whole treatment of an offer and of an answer keeps of the streams that were
-- negotiated.
use sems_yeti.Prelude.{
  ℕ, zero, suc, ◌==◌, ◌≡◌, refl, sym, ap, ◌∙◌, ◌⊎◌, inl, inr, Bool, true, false, some, List, [],
  ◌∷◌, take, length, take-length_self, leb, ◌&&◌, if◌then◌else◌, arith, Bool-cases, Option-cases,
}
use sems_yeti.Prelude.Classes.{Text, nat_eq}
use sems_yeti.Prelude.Map.{Map, find}
use sems_yeti.Sdp.{Core, Sdp, Media, Payload, Transport, Outcome, done, thrown}
use sems_yeti.Sdp.Answer.{types, same_type-eq}
use sems_yeti.Sdp.Arrange.{filter_arrange_sdp, filter_no_audio_streams}
use sems_yeti.Sdp.Filters.{filter_sdp_alines}
use sems_yeti.Sdp.Kinds.{
  filter_arrange-types, alines-types, no_audio-types, activity-types, reduce-types,
}
use sems_yeti.Sdp.Offer.{arrange_offer, local_check, offer_steps, process_sdp_offer, finish_offer}
use sems_yeti.Sdp.Process.{Wire, Profile, Leg, is_sdp_method, fix_media_activity}
use sems_yeti.Sdp.Refusals.{types_agree}
use sems_yeti.Sdp.Streams.{check_local, streams_count, streams_types}

pub Outcome-cases :
    {A : Type 0} (o : Outcome A) → ((c : ℕ) × (o ≡ thrown c)) ⊎ ((a : A) × (o ≡ done a))
Outcome-cases (thrown c) = inl (c, refl)
Outcome-cases (done a) = inr (a, refl)

take-map : (n : ℕ) (ms : List Media) → types (take n ms) ≡ take n (types ms)
take-map zero ms = refl
take-map (suc n) [] = refl
take-map (suc n) (m ∷ ms) = ap (◌∷◌ m.type) (take-map n ms)

check_local-types :
    (ns ms : List Media)
    → (check_local ns ms).0 ≡ 0
    → types (take (length ns) (check_local ns ms).1) ≡ types ns
unfolding check_local
check_local-types [] ms h = refl
check_local-types (n ∷ ns) [] h = absurd (ground arith)
check_local-types (n ∷ ns) (m ∷ ms) h =
    ground (arith, check_local-types ns ms, same_type-eq n.type m.type)

-- An offer has a stream of the same type at each negotiated place.
abbrev pub keeps_streams : List Media → List Media → Bool
keeps_streams ns ms = types_agree ns ms && leb (length ns) (length ms)

check_local-code :
    (ns ms : List Media)
    → (check_local ns ms).0 ≡ (
        if keeps_streams ns ms
        then 0
        else (if types_agree ns ms then streams_count else streams_types))
unfolding check_local
check_local-code [] ms = ground arith
check_local-code (n ∷ ns) [] = ground arith
check_local-code (n ∷ ns) (m ∷ ms) = ground (arith, check_local-code ns ms)

module _ (core : Core) where
  arrange_offer-types :
      (profile : Profile) (t : Transport) (hold : Sdp → Bool) (local single : Bool)
      (codecs : List Payload) (sdp s' : Sdp)
      → arrange_offer core profile t hold local single codecs sdp ≡ (0, s')
      → types s'.media ≡ types sdp.media
  unfolding arrange_offer
  arrange_offer-types profile t hold local single codecs sdp s' h =
      let a = filter_arrange_sdp core codecs false sdp in
      let l = filter_sdp_alines profile.sdpalinesfilter a.1 in
      let f = filter_no_audio_streams l profile.filter_noaudio_streams in
      let k = if local then fix_media_activity (hold f.1) f.1 else f.1 in
      ground (
        arith,
        filter_arrange-types core codecs false sdp,
        alines-types profile.sdpalinesfilter a.1,
        no_audio-types l profile.filter_noaudio_streams,
        activity-types (hold f.1) f.1,
        reduce-types core k.media,
      )

  local_check-types :
      (ns : List Media) (sdp s' : Sdp)
      → local_check core true ns sdp ≡ (0, s')
      → types (take (length ns) s'.media) ≡ types ns
  unfolding local_check
  local_check-types ns sdp s' h = ground (arith, check_local-types ns sdp.media)

module _ {Body : Type 0} (wire : Wire Body) (core : Core) (groups : Map ℕ (List Payload)) where
  offer_steps-types :
      (profile : Profile) (leg : Leg) (id : ℕ) (single : Bool) (ns : List Media) (sdp s' : Sdp)
      → offer_steps wire core groups profile leg id true single ns sdp ≡ done (0, s')
      → types (take (length ns) s'.media) ≡ types ns
  unfolding offer_steps
  offer_steps-types profile leg id single ns sdp s' h =
      let checked = (local_check core true ns sdp).1 in
      let t = if leg.a_leg then profile.aleg_media_transport else profile.bleg_media_transport in
      elim (Bool-cases ((local_check core true ns sdp).0 == 0)) [
        | inr refused ↦ absurd (ground (arith, refused))
        | inl ok ↦ elim (Option-cases (find id groups)) [
          | inl gone ↦ absurd (ground (arith, ok, gone))
          | inr (codecs, there) ↦
              let kept =
                arrange_offer-types core profile t wire.is_hold true single codecs checked s'
                  (ground (arith, ok, there)) in
              let before = local_check-types core ns sdp checked (ground (arith, ok)) in
              take-map (length ns) s'.media
              ∙ ap (take (length ns)) kept
              ∙ sym (take-map (length ns) checked.media)
              ∙ before
        ]
      ]

  same_streams : (ns ns' : List Media) → ns ≡ ns' → types (take (length ns) ns') ≡ types ns
  same_streams ns ns' e = rw (← e) (ap types (take-length_self ns))

  finish_offer-types :
      (profile : Profile) (leg : Leg) (id : ℕ) (single : Bool) (ns : List Media) (sdp : Sdp)
      (r : ℕ × Sdp) (body body' : Body) (ns' : List Media)
      → offer_steps wire core groups profile leg id true single ns sdp ≡ done r
      → finish_offer wire core groups body ns r ≡ (0, body', ns')
      → types (take (length ns) ns') ≡ types ns
  finish_offer-types profile leg id single ns sdp (zero, s) body body' ns' h k =
      let e : ns' ≡ s.media = ground arith in
      rw e (offer_steps-types profile leg id single ns sdp s h)
  finish_offer-types profile leg id single ns sdp (suc c, s) body body' ns' h k =
      absurd (ground arith)

  -- For an offer within a dialog that is handled locally, from the body of the request to the streams that
  -- are kept: if processSdpOffer returns 0, the streams that are negotiated then begin with streams of the
  -- types that were negotiated before, in their order. So no negotiated stream is lost or changes its
  -- type, whatever the filters of the profile and the codecs of the group are.
  pub process_sdp_offer-types :
      (profile : Profile) (leg : Leg) (body body' : Body) (method : Text) (ns ns' : List Media)
      (id : ℕ) (single : Bool)
      → process_sdp_offer wire core groups profile leg body method ns id true single
        ≡ done (0, body', ns')
      → types (take (length ns) ns') ≡ types ns
  unfolding process_sdp_offer
  process_sdp_offer-types profile leg body body' method ns ns' id single h =
      elim (Option-cases (wire.sdp_body body)) [
        | inl bare ↦ same_streams ns ns' (ground (arith, bare))
        | inr (text, there) ↦ elim (Bool-cases (is_sdp_method method)) [
          | inr other ↦ same_streams ns ns' (ground (arith, there, other))
          | inl sdp_method ↦ elim (Option-cases (wire.parse text)) [
            | inl bad ↦ absurd (ground (arith, there, sdp_method, bad))
            | inr (sdp, parsed) ↦
                elim (Outcome-cases
                  (offer_steps wire core groups profile leg id true single ns sdp)) [
                    | inl (c, failed) ↦ absurd (ground (arith, there, sdp_method, parsed, failed))
                    | inr (r, ended) ↦
                        finish_offer-types profile leg id single ns sdp r body body' ns' ended
                          (ground (arith, there, sdp_method, parsed, ended))
                  ]
          ]
        ]
      ]

  -- An offer within a dialog that is handled locally, with an SDP part that can be parsed, in a method that
  -- carries one: if it lacks a negotiated stream, or has one of another type at its place, processSdpOffer
  -- returns 1504 where the types differ at some place that both have and else 1503, and the body and the
  -- negotiated streams stay as they were.
  pub process_sdp_offer_refuses :
      (profile : Profile) (leg : Leg) (body : Body) (method text : Text) (ns : List Media)
      (sdp : Sdp) (id : ℕ) (single : Bool)
      → wire.sdp_body body ≡ some text
      → is_sdp_method method ≡ true
      → wire.parse text ≡ some sdp
      → keeps_streams ns sdp.media ≡ false
      → process_sdp_offer wire core groups profile leg body method ns id true single
        ≡ done (if types_agree ns sdp.media then streams_count else streams_types, body, ns)
  unfolding process_sdp_offer local_check
  process_sdp_offer_refuses profile leg body method text ns sdp id single there carries parsed
        lacks =
      let code = check_local-code ns sdp.media in
      ground (arith, there, carries, parsed, lacks, code)
