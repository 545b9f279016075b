-- ===== src/Sdp/Numbered.antt =====
-- src/sdp_filter.cpp: the numbers of the payloads after `fix_dynamic_payloads`.
use sems_yeti.Prelude.{
  ℕ, suc, ◌+◌, ◌-◌, ◌≤◌, ◌<◌, ◌==◌, ◌≡◌, ◌≢◌, refl, ap, ◌⊎◌, inl, inr, true, false, ◌||◌, List, [],
  ◌∷◌, some, arith, Bool-cases, length,
}
use sems_yeti.Prelude.Int.{ℤ, pos, pos_part}
use sems_yeti.Sdp.{Core, Payload, Media, Sdp, is_audio}
use sems_yeti.Sdp.Mapping.{
  Masks, PayloadIdMapping, pseudo_dynamic, fix_payloads, fix_streams, fix_dynamic_payloads,
}
use sems_yeti.Sdp.Distinct.{
  taken, Fresh, Below, Remembers, room-empty, room-pseudo, fix_payloads-Fresh,
}

abbrev pub Without : ℤ → List Payload → Type 0
Without n [] = Unit {0}
Without n (p ∷ ps) = (p.payload_type ≢ n) × Without n ps

-- Each payload has a number from 0 on, below the limit, and no two have the same.
abbrev pub Numbered : ℕ → List Payload → Type 0
Numbered limit [] = Unit {0}
Numbered limit (p ∷ ps) =
    (p.payload_type ≡ pos (pos_part p.payload_type))
    × (pos_part p.payload_type < limit)
    × Without p.payload_type ps
    × Numbered limit ps

abbrev pub AllNumbered : ℕ → List Media → Type 0
AllNumbered limit [] = Unit {0}
AllNumbered limit (m ∷ ms) =
    ((is_audio m.type ≡ false) ⊎ Numbered limit m.payloads) × AllNumbered limit ms

-- The numbers that the streams come with are below the limit, and there is room for twice as many.
abbrev pub Fits : Core → ℕ → List Media → Type 0
Fits core limit [] = Unit {0}
Fits core limit (m ∷ ms) =
    Below limit m.payloads
    × (core.dynamic_start + length m.payloads + length m.payloads ≤ limit)
    × Fits core limit ms

module _ {Mask : Type 0} (masks : Masks Mask) (core : Core) (limit : ℕ)
    (get_empty : (j : ℕ) → masks.get masks.empty j ≡ false)
    (get_set : (mask : Mask) (i j : ℕ)
      → i < limit
      → j < limit
      → masks.get (masks.set mask i) j ≡ (i == j || masks.get mask j)) where
  Fresh-Without :
      (used : Mask) (ps : List Payload) (i : ℕ)
      → i < limit
      → masks.get used i ≡ true
      → Fresh masks limit used ps
      → Without (pos i) ps
  Fresh-Without used [] i b h f = tt
  Fresh-Without used (p ∷ ps) i b h (e, l, new, f) =
      let n = pos_part p.payload_type in
      (
        λ same. ground (arith, same),
        Fresh-Without (masks.set used n) ps i b (ground (arith, get_set used n i l b)) f,
      )

  Fresh-Numbered : (used : Mask) (ps : List Payload) → Fresh masks limit used ps → Numbered limit ps
  Fresh-Numbered used [] f = tt
  Fresh-Numbered used (p ∷ ps) (e, l, new, f) =
      let n = pos_part p.payload_type in
      let out = Fresh-Without (masks.set used n) ps n l (ground (arith, get_set used n n l l)) f in
      (e, l, rw e out, Fresh-Numbered (masks.set used n) ps f)

  fix_audio :
      (stream_idx : ℕ) (mapping : PayloadIdMapping) (ps : List Payload)
      → Below limit ps
      → core.dynamic_start + length ps + length ps ≤ limit
      → Remembers limit mapping
      → (rest : List Payload) × (mapping' : PayloadIdMapping) × (fix_payloads masks core limit
            (pseudo_dynamic masks core limit ps masks.empty)
            stream_idx
            0
            core.dynamic_start
            masks.empty
            mapping
            ps
          ≡ some (rest, mapping'))
        × Numbered limit rest
        × Remembers limit mapping'
  fix_audio stream_idx mapping ps b fits r =
      let start = core.dynamic_start in
      let all =
        room-empty masks core limit get_empty get_set
          (taken masks core limit get_empty get_set masks.empty masks.empty) (limit - start) start
          λ (j : ℕ) (k : j < start + (limit - start)). ground (arith, get_empty j) in
      let most =
        room-pseudo masks core limit get_empty get_set masks.empty masks.empty ps start
          (omega arith) b in
      let (rest, mapping', done_, fresh, r', same) =
        fix_payloads-Fresh masks core limit get_empty get_set
          (pseudo_dynamic masks core limit ps masks.empty) masks.empty stream_idx 0 start mapping ps
          (omega arith) b r (omega (arith, all, most)) in
      (rest, mapping', done_, Fresh-Numbered masks.empty rest fresh, r')

  fix_streams-numbered :
      (stream_idx : ℕ) (mapping : PayloadIdMapping) (ms : List Media)
      → Fits core limit ms
      → Remembers limit mapping
      → (rest : List Media) × (mapping' : PayloadIdMapping) × (fix_streams masks core limit
            stream_idx mapping ms
          ≡ some (rest, mapping'))
        × AllNumbered limit rest
        × Remembers limit mapping'
        × (length rest ≡ length ms)
  unfolding fix_streams
  fix_streams-numbered stream_idx mapping [] fits r = ([], mapping, refl, tt, r, refl)
  fix_streams-numbered stream_idx mapping (m ∷ ms) (b, room_, fits) r =
      elim (Bool-cases (is_audio m.type)) [
        | inr silent ↦
            let (rest, mapping', done_, all, r', same) =
              fix_streams-numbered stream_idx mapping ms fits r in
            (m ∷ rest, mapping', ground (arith, silent, done_), (inl silent, all), r', ap suc same)
        | inl spoken ↦
            let (ps, next, fixed, good, kept) = fix_audio stream_idx mapping m.payloads b room_ r in
            let (rest, mapping', done_, all, r', same) =
              fix_streams-numbered (stream_idx + 1) next ms fits kept in
            (
              record m { payloads = ps } ∷ rest,
              mapping',
              ground (arith, spoken, fixed, done_),
              (inr good, all),
              r',
              ap suc same,
            )
      ]

  -- For every SDP whose streams have numbers below the limit of a PayloadMask, and room between
  -- DYNAMIC_PAYLOAD_TYPE_START and the limit for twice as many payloads as each has, and a leg that
  -- remembers no number from the limit on: fix_dynamic_payloads ends, its searches for a free number
  -- included, with as many streams, where the payloads of each audio stream have numbers from 0 on, below
  -- the limit, no two of them the same; and the leg still remembers no number from the limit on. What is
  -- asked of PayloadMask is that it is a set of the numbers below the limit.
  pub fix_dynamic_payloads_distinct :
      (sdp : Sdp) (mapping : PayloadIdMapping)
      → Fits core limit sdp.media
      → Remembers limit mapping
      → (sdp' : Sdp) × (mapping' : PayloadIdMapping) × (fix_dynamic_payloads masks core limit sdp
            mapping
          ≡ some (sdp', mapping'))
        × AllNumbered limit sdp'.media
        × Remembers limit mapping'
        × (length sdp'.media ≡ length sdp.media)
  unfolding fix_dynamic_payloads
  fix_dynamic_payloads_distinct sdp mapping fits r =
      let (ms, mapping', done_, all, r', same) = fix_streams-numbered 0 mapping sdp.media fits r in
      (record sdp { media = ms }, mapping', ground (arith, done_), all, r', same)
