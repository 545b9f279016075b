-- ===== src/Sdp/Normalized.antt =====
-- src/SDPFilter.cpp: an SDP that was completed once is complete.
use sems_yeti.Prelude.{
  ℕ, zero, suc, ◌+◌, ◌-◌, ltb, ◌≡◌, refl, inl, inr, false, ◌&&◌, List, [], ◌∷◌, ◌++◌, map, arith,
  Bool-cases, Option-cases,
}
use sems_yeti.Prelude.Classes.{Text, text_eq, codes}
use sems_yeti.Sdp.{Payload, Attribute, Media, Sdp}
use sems_yeti.Sdp.Normalize.{
  iana_payload, fix_encoding, add_dashes, fix_attribute, has_fixes, normalize_stream, normalize_sdp,
}

map_twice :
    {A : Type 0} (f : A → A) (xs : List A) → ((x : A) → f (f x) ≡ f x) → map f (map f xs) ≡ map f xs
map_twice f [] h = refl
map_twice f (x ∷ xs) h = ground (arith, h x, map_twice f xs h)

fix_encoding_twice : (p : Payload) → fix_encoding (fix_encoding p) ≡ fix_encoding p
unfolding fix_encoding
fix_encoding_twice p = elim (Option-cases (iana_payload p.payload_type)) [
  | inl gone ↦ ground (arith, gone)
  | inr (r, there) ↦ ground (arith, there)
]

module _ (parts : Text → ℕ) (parts_step : (v : Text) → parts (v ++ codes " -") ≡ parts v + 1) where
  add_dashes-parts : (n : ℕ) (v : Text) → parts (add_dashes n v) ≡ parts v + n
  add_dashes-parts zero v = omega arith
  add_dashes-parts (suc n) v = omega (arith, add_dashes-parts n (v ++ codes " -"), parts_step v)

  fix_attribute_twice :
      (a : Attribute) → fix_attribute parts (fix_attribute parts a) ≡ fix_attribute parts a
  unfolding fix_attribute
  fix_attribute_twice a =
      elim (Bool-cases (text_eq a.attribute (codes "silenceSupp") && ltb (parts a.value) 5)) [
        | inr whole ↦ rw (whole, whole) refl
        | inl short ↦
            let e : ltb (parts (add_dashes (5 - parts a.value) a.value)) 5 ≡ false =
              ground (arith, short, add_dashes-parts (5 - parts a.value) a.value) in
            rw short (ground (arith, e))
      ]

  normalize_stream_twice :
      (m : Media) → normalize_stream parts (normalize_stream parts m) ≡ normalize_stream parts m
  unfolding normalize_stream
  normalize_stream_twice m = elim (Bool-cases (has_fixes m.type)) [
    | inr none_fixed ↦ ground (arith, none_fixed)
    | inl fixed ↦ ground (
      arith,
      fixed,
      map_twice fix_encoding m.payloads fix_encoding_twice,
      map_twice (fix_attribute parts) m.attributes fix_attribute_twice,
    )
  ]

  -- For every SDP: to complete its encodings and its silenceSupp attributes a second time, as for the
  -- other leg, changes nothing more. What is asked of explode is that a further word " -" makes one part
  -- more.
  pub normalize_sdp_twice :
      (sdp : Sdp) → normalize_sdp parts (normalize_sdp parts sdp) ≡ normalize_sdp parts sdp
  unfolding normalize_sdp
  normalize_sdp_twice sdp =
      ground (arith, map_twice (normalize_stream parts) sdp.media normalize_stream_twice)
