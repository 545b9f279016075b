-- ===== src/Sdp/Single.antt =====
-- src/sdp_filter.cpp: what is left of a list of codecs that is cut down to a single one.
use mathlib.Core.List.{append_assoc, append-nil}
use sems_yeti.Prelude.{
  ◌≤◌, ◌≡◌, refl, sym, ◌∙◌, inl, inr, Bool, true, false, not, ◌||◌, List, [], ◌∷◌, ◌++◌, filter,
  take, length, is_nil, arith, Bool-cases,
}
use sems_yeti.Sdp.{Core, Payload, is_only_event, is_telephone_event}
use sems_yeti.Sdp.Codecs.{add_codec, add_codecs}

module _ (core : Core) where
  abbrev pub events : List Payload → List Payload
  events = filter (is_telephone_event core)

  abbrev pub voices : List Payload → List Payload
  voices = filter (λ p. not (is_telephone_event core p))

  -- No further voice codec is added.
  abbrev is_full : List Payload → Bool
  is_full pl = not (is_nil pl || is_only_event core pl)

  full-append :
      (pl : List Payload) (p : Payload) → is_full pl ≡ true → is_full (pl ++ p ∷ []) ≡ true
  full-append [] p h = cc
  full-append (q ∷ []) p h = refl
  full-append (q ∷ r ∷ pl) p h = refl

  add_codec-event :
      (pl : List Payload) (p : Payload)
      → is_telephone_event core p ≡ true
      → add_codec core pl p true ≡ pl ++ p ∷ []
  unfolding add_codec
  add_codec-event pl p h = ground (arith, h)

  add_codec-full :
      (pl : List Payload) (p : Payload)
      → is_full pl ≡ true
      → is_telephone_event core p ≡ false
      → add_codec core pl p true ≡ pl
  unfolding add_codec
  add_codec-full pl p h k = ground (arith, h, k)

  add_codecs-full :
      (pl ps : List Payload) → is_full pl ≡ true → add_codecs core true pl ps ≡ pl ++ events ps
  unfolding add_codecs
  add_codecs-full pl [] h = sym (append-nil pl)
  add_codecs-full pl (p ∷ ps) h = elim (Bool-cases (is_telephone_event core p)) [
    | inl event ↦ rw (add_codec-event pl p event) (
        add_codecs-full (pl ++ p ∷ []) ps (full-append pl p h)
        ∙ ground (arith, event, append_assoc pl (p ∷ []) (events ps)))
    | inr voice ↦ rw (add_codec-full pl p h voice) (add_codecs-full pl ps h ∙ ground (arith, voice))
  ]

  events-events : (ps : List Payload) → (events (events ps) ≡ events ps) × (voices (events ps) ≡ [])
  events-events [] = (refl, refl)
  events-events (p ∷ ps) = ground (arith, events-events ps)

  -- What a list becomes whose first voice codec is `p`.
  add_codecs-voice :
      (p : Payload) (ps : List Payload)
      → is_telephone_event core p ≡ false
      → add_codecs core true [] (p ∷ ps) ≡ p ∷ events ps
  unfolding add_codecs add_codec
  add_codecs-voice p ps h = add_codecs-full (p ∷ []) ps (ground (arith, h))

  add_codecs-event_voice :
      (e p : Payload) (ps : List Payload)
      → is_telephone_event core e ≡ true
      → is_telephone_event core p ≡ false
      → add_codecs core true [] (e ∷ p ∷ ps) ≡ e ∷ p ∷ events ps
  unfolding add_codecs add_codec
  add_codecs-event_voice e p ps h k = ground (arith, h, k, add_codecs-full (e ∷ p ∷ []) ps)

  single_after :
      (e : Payload) (ps : List Payload)
      → is_telephone_event core e ≡ true
      → length (events (e ∷ ps)) ≤ 1
      → (events (add_codecs core true [] (e ∷ ps)) ≡ events (e ∷ ps))
        × (voices (add_codecs core true [] (e ∷ ps)) ≡ take 1 (voices (e ∷ ps)))
  unfolding add_codecs add_codec
  single_after e [] h l = ground (arith, h)
  single_after e (p ∷ ps) h l = elim (Bool-cases (is_telephone_event core p)) [
    | inl event ↦ absurd (ground (arith, h, event))
    | inr voice ↦ ground (arith, h, voice, add_codecs-event_voice e p ps h voice, events-events ps)
  ]

  -- For every list of codecs with at most one telephone-event: cut down to a single codec, it has its
  -- telephone-event, if there is one, and of its other codecs the first, if there is one, and no more.
  pub add_codecs_single :
      (ps : List Payload)
      → length (events ps) ≤ 1
      → (events (add_codecs core true [] ps) ≡ events ps)
        × (voices (add_codecs core true [] ps) ≡ take 1 (voices ps))
  unfolding add_codecs
  add_codecs_single [] h = (refl, refl)
  add_codecs_single (p ∷ ps) h = elim (Bool-cases (is_telephone_event core p)) [
    | inr voice ↦ ground (arith, voice, add_codecs-voice p ps voice, events-events ps)
    | inl event ↦ single_after p ps event h
  ]

  -- For every list of codecs that begins with two telephone-events, as where they are offered at two clock
  -- rates: cut down to a single codec, it has all its telephone-events and no other codec at all.
  pub add_codecs_lose_voice :
      (e e' : Payload) (ps : List Payload)
      → is_telephone_event core e ≡ true
      → is_telephone_event core e' ≡ true
      → (voices (add_codecs core true [] (e ∷ e' ∷ ps)) ≡ [])
        × (add_codecs core true [] (e ∷ e' ∷ ps) ≡ events (e ∷ e' ∷ ps))
  unfolding add_codecs add_codec
  add_codecs_lose_voice e e' ps h k =
      let r : add_codecs core true [] (e ∷ e' ∷ ps) ≡ e ∷ e' ∷ events ps =
        ground (arith, h, k, add_codecs-full (e ∷ e' ∷ []) ps) in
      (rw r (ground (arith, h, k, events-events ps)), rw r (ground (arith, h, k)))
