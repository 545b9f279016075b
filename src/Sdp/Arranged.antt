-- ===== src/Sdp/Arranged.antt =====
-- src/sdp_filter.cpp: what `filter_arrange_SDP` makes of the streams of an SDP.
use mathlib.Core.List.{Memᴰ}
use mathlib.Core.Path.{subst}
use sems_yeti.Prelude.{
  ℕ, zero, suc, ◌≡◌, refl, sym, ap, ◌∙◌, ◌⊎◌, inl, inr, Bool, true, false, not, ◌&&◌, ◌||◌, List,
  [], ◌∷◌, ◌++◌, map, get_elem?, some, if◌then◌else◌, is_nil, arith, Option-cases,
}
use sems_yeti.Prelude.Classes.{Text}
use sems_yeti.Sdp.{
  Core, Sdp, Media, Payload, is_audio, find_payload, payload_matches, is_telephone_event,
  is_only_event,
}
use sems_yeti.Sdp.Arrange.{
  begin, entry_payload, new_payloads, is_filtered_out, arrange_media, arrange, filter_arrange_sdp,
  has_audio, codecs_not_matched,
}
use sems_yeti.Sdp.Within.{find_payload-mem}

abbrev pub names : List Payload → List Text
names = map (λ p. p.encoding_name)

mem_one : {p q : Payload} → Memᴰ p (q ∷ []) → p ≡ q
mem_one (Memᴰ.head e) = e
mem_one (Memᴰ.tail k) = elim k [ ]

mem_none : {p : Payload} {P : Type 0} → Memᴰ p [] → P
mem_none k = elim k [ ]

module _ (core : Core) (static_payloads : List Payload) (add_codecs : Bool) where
  -- The new payloads leave a stream no codec: there are none, though it had some, or there is exactly one,
  -- a telephone-event.
  abbrev pub has_no_codec : Media → List Payload → Bool
  has_no_codec m [] = not (is_nil m.payloads)
  has_no_codec m (p ∷ []) = is_telephone_event core p
  has_no_codec m (p ∷ q ∷ ps) = false

  is_filtered_out-has_no_codec :
      (m : Media)
      → is_filtered_out core static_payloads add_codecs m
        ≡ has_no_codec m (new_payloads core static_payloads add_codecs m static_payloads)
  unfolding is_filtered_out
  is_filtered_out-has_no_codec m =
      elim (new_payloads core static_payloads add_codecs m static_payloads)
        as (λ pl.
          ((is_nil pl && not (is_nil m.payloads)) || is_only_event core pl) ≡ has_no_codec m pl) [
            | [] ↦ ground arith
            | p ∷ ps ↦
                elim ps
                  as (λ qs.
                    ((is_nil (p ∷ qs) && not (is_nil m.payloads)) || is_only_event core (p ∷ qs))
                    ≡ has_no_codec m (p ∷ qs)) [ [] ↦ refl | q ∷ qs ↦ refl ]
          ]

  -- Every audio stream is left without a codec.
  abbrev pub is_all_out : List Media → Bool
  is_all_out [] = true
  is_all_out (m ∷ ms) =
      (not (is_audio m.type)
        || has_no_codec m (new_payloads core static_payloads add_codecs m static_payloads))
      && is_all_out ms

  arrange-flags :
      (ms : List Media)
      → ((arrange core static_payloads add_codecs ms).left ≡ not (is_all_out ms))
        × (not (arrange core static_payloads add_codecs ms).left
              && (arrange core static_payloads add_codecs ms).filtered_out
            ≡ has_audio ms && is_all_out ms)
  unfolding arrange
  arrange-flags [] = (refl, refl)
  arrange-flags (m ∷ ms) = ground (arith, arrange-flags ms, is_filtered_out-has_no_codec m)

  arrange-at :
      (ms : List Media) (i : ℕ) (m : Media)
      → get_elem? ms i ≡ some m
      → get_elem? (arrange core static_payloads add_codecs ms).media i
        ≡ some (if is_audio m.type then arrange_media core static_payloads add_codecs m else m)
  unfolding arrange
  arrange-at [] i m h = cc
  arrange-at (n ∷ ms) zero m h = ground arith
  arrange-at (n ∷ ms) (suc i) m h = ground (arith, arrange-at ms i m)

  append-begin : (ps qs : List Payload) → is_nil qs ≡ false → is_nil (ps ++ begin qs) ≡ false
  append-begin [] [] h = cc
  append-begin [] (q ∷ qs) h = refl
  append-begin (p ∷ ps) qs h = refl

  arrange_media-nil :
      (m : Media)
      → is_nil m.payloads ≡ false
      → is_nil (arrange_media core static_payloads add_codecs m).payloads ≡ false
  unfolding arrange_media is_filtered_out
  arrange_media-nil m h = ground (
    arith,
    append-begin (new_payloads core static_payloads add_codecs m static_payloads) m.payloads,
  )

  -- For every codec group, SDP and stream of it with payloads: filter_arrange_SDP returns 141 exactly if
  -- the SDP has an audio stream and each of its audio streams is left either with no payload, though it had
  -- some, or with exactly one, a telephone-event; else it returns 0; and whatever it returns, the stream is still at its place, with at least one payload and with
  -- its type.
  pub filter_arrange_outcome :
      (sdp : Sdp) (i : ℕ) (m : Media)
      → get_elem? sdp.media i ≡ some m
      → is_nil m.payloads ≡ false
      → ((filter_arrange_sdp core static_payloads add_codecs sdp).0
          ≡ (if has_audio sdp.media && is_all_out sdp.media then codecs_not_matched else 0))
        × ((m' : Media) × (get_elem?
                (filter_arrange_sdp core static_payloads add_codecs sdp).1.media
                i
              ≡ some m')
            × (is_nil m'.payloads ≡ false)
            × (m'.type ≡ m.type))
  unfolding filter_arrange_sdp arrange_media
  filter_arrange_outcome sdp i m h k = (
    ground (arith, arrange-flags sdp.media),
    (
      if is_audio m.type then arrange_media core static_payloads add_codecs m else m,
      arrange-at sdp.media i m h,
      ground (arith, arrange_media-nil m k),
      ground arith,
    ),
  )

  module _ (m : Media) where
    new_payloads-names :
        (fs : List Payload)
        → add_codecs ≡ true
        → names (new_payloads core static_payloads add_codecs m fs) ≡ names fs
    unfolding new_payloads entry_payload
    new_payloads-names [] h = refl
    new_payloads-names (f ∷ fs) h =
        elim (Option-cases (find_payload core m.payloads f m.transport)) [
          | inl gone ↦ ground (arith, gone, new_payloads-names fs h)
          | inr (p, found) ↦ ground (arith, found, new_payloads-names fs h)
        ]

    -- Where the offer of the other leg is changed, with `add_codecs`: an audio stream that is not
    -- disabled names exactly the codecs of the group, in the group's order, whatever it offered before.
    pub arranged_names :
        add_codecs ≡ true
        → is_filtered_out core static_payloads add_codecs m ≡ false
        → names (arrange_media core static_payloads add_codecs m).payloads ≡ names static_payloads
    unfolding arrange_media
    arranged_names h k = rw k (new_payloads-names static_payloads h)

    mem-append_cases :
        (ps qs : List Payload) (p : Payload) → Memᴰ p (ps ++ qs) → Memᴰ p ps ⊎ Memᴰ p qs
    mem-append_cases [] qs p h = inr h
    mem-append_cases (x ∷ ps) qs p (Memᴰ.head e) = inl (Memᴰ.head e)
    mem-append_cases (x ∷ ps) qs p (Memᴰ.tail k) = elim (mem-append_cases ps qs p k) [
      | inl a ↦ inl (Memᴰ.tail a)
      | inr b ↦ inr b
    ]

    entry_payload-mem :
        (f p : Payload)
        → add_codecs ≡ false
        → Memᴰ p (entry_payload core static_payloads add_codecs m f)
        → find_payload core m.payloads f m.transport ≡ some p
    unfolding entry_payload
    entry_payload-mem f p h k = elim (Option-cases (find_payload core m.payloads f m.transport)) [
      | inl gone ↦ mem_none (subst (Memᴰ p) (ground (arith, h, gone)) k)
      | inr (q, found) ↦
          found ∙ ap some (sym (mem_one (subst (Memᴰ p) (ground (arith, h, found)) k)))
    ]

    new_payloads-mem :
        (fs : List Payload) (p : Payload)
        → add_codecs ≡ false
        → Memᴰ p (new_payloads core static_payloads add_codecs m fs)
        → (f : Payload) × Memᴰ f fs × (find_payload core m.payloads f m.transport ≡ some p)
    unfolding new_payloads
    new_payloads-mem [] p h k = elim k [ ]
    new_payloads-mem (f ∷ fs) p h k =
        elim (mem-append_cases (entry_payload core static_payloads add_codecs m f)
          (new_payloads core static_payloads add_codecs m fs) p k) [
            | inl a ↦ (f, Memᴰ.head refl, entry_payload-mem f p h a)
            | inr b ↦ let (g, w, e) = new_payloads-mem fs p h b in (g, Memᴰ.tail w, e)
          ]

    -- Where an offer is processed, without `add_codecs`: each payload of an audio stream that is not
    -- disabled was offered in that stream, and is matched by an entry of the codec group.
    pub arranged_from_offer :
        (p : Payload)
        → add_codecs ≡ false
        → is_filtered_out core static_payloads add_codecs m ≡ false
        → Memᴰ p (arrange_media core static_payloads add_codecs m).payloads
        → Memᴰ p m.payloads
          × ((f : Payload) × Memᴰ f static_payloads × (payload_matches core f m.transport p ≡ true))
    unfolding arrange_media
    arranged_from_offer p h k w =
        let (f, g, e) =
          new_payloads-mem static_payloads p h (subst (Memᴰ p) (ground (arith, k)) w) in
        let (a, b) = find_payload-mem core m.payloads f m.transport p e in (a, (f, g, b))
