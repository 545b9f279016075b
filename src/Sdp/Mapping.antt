-- ===== src/Sdp/Mapping.antt =====
-- src/sdp_filter.cpp and src/SBCCallLeg.cpp: the numbers of the payloads of an SDP (`fix_dynamic_payloads`)
-- and what a leg remembers of them (PayloadIdMapping).
use sems_yeti.Prelude.{
  ℕ, zero, suc, ◌+◌, ◌*◌, ◌-◌, Bool, ◌||◌, List, [], ◌∷◌, Option, none, some, if◌then◌else◌,
}
use sems_yeti.Prelude.Int.{ℤ, pos, negsuc, pos_part, ltb_ℤ, leb_ℤ}
use sems_yeti.Prelude.Classes.{nat_eq}
use sems_yeti.Prelude.Map.{Map, find, assign}
use sems_yeti.Sdp.{Core, Payload, Media, Sdp, is_audio}

-- PayloadMask of the SEMS core, a set of payload numbers.
pub record Masks (Mask : Type 0) : Type 0 where
  pub empty : Mask
  pub get : Mask → ℕ → Bool
  pub set : Mask → ℕ → Mask

abbrev pub PayloadIdMapping : Type 0
PayloadIdMapping = Map ℕ ℤ

-- MAP_INDEXES
abbrev pub map_indexes : ℕ → ℕ → ℕ
map_indexes stream_idx payload_idx = stream_idx * 128 + payload_idx

unfoldable pub map_id : ℕ → ℕ → ℤ → PayloadIdMapping → PayloadIdMapping
unfolding assign
map_id stream_idx payload_idx payload_id mapping =
    assign (map_indexes stream_idx payload_idx) payload_id mapping

abbrev pub or_unmapped : Option ℤ → ℤ
or_unmapped none = negsuc 0
or_unmapped (some id) = id

unfoldable pub get_id : ℕ → ℕ → PayloadIdMapping → ℤ
unfolding find
get_id stream_idx payload_idx mapping =
    or_unmapped (find (map_indexes stream_idx payload_idx) mapping)

-- `while(used.get(id) || pseudo_dyn.get(id)) id++`, with fuel.
unfoldable pub free_id : ℕ → (ℕ → Bool) → ℕ → Option ℕ
free_id zero taken id = none
free_id (suc fuel) taken id =
    let rest = free_id fuel taken (id + 1) in if taken id then rest else some id

module _ {Mask : Type 0} (masks : Masks Mask) (core : Core) (limit : ℕ) where
  -- The payload numbers from DYNAMIC_PAYLOAD_TYPE_START on that a stream has.
  unfoldable pub pseudo_dynamic : List Payload → Mask → Mask
  pseudo_dynamic [] mask = mask
  pseudo_dynamic (p ∷ ps) mask = pseudo_dynamic ps (
      if leb_ℤ (pos core.dynamic_start) p.payload_type
      then masks.set mask (pos_part p.payload_type)
      else mask)

  -- The number that a payload gets, and the variable `id` then. The search has numbers below `limit`.
  unfoldable pub choose_id : Mask → Mask → ℕ → ℤ → Option (ℕ × ℕ)
  unfolding free_id
  choose_id pseudo used id pid =
      if ltb_ℤ pid (pos 0) || masks.get used (pos_part pid)
      then elim (free_id (limit - id) (λ j. masks.get used j || masks.get pseudo j) id) [
        | none ↦ none
        | some free ↦ some (free, free)
      ]
      else some (pos_part pid, id)

  abbrev pub known_id : ℕ → ℕ → Payload → PayloadIdMapping → ℤ
  known_id stream_idx idx p mapping =
      if ltb_ℤ p.payload_type (pos 0) then get_id stream_idx idx mapping else p.payload_type

  -- The loop over the payloads of a stream, from the index `idx`.
  unfoldable pub fix_payloads :
      Mask
      → ℕ
      → ℕ
      → ℕ
      → Mask
      → PayloadIdMapping
      → List Payload
      → Option (List Payload × PayloadIdMapping)
  fix_payloads pseudo stream_idx idx id used mapping [] = some ([], mapping)
  fix_payloads pseudo stream_idx idx id used mapping (p ∷ ps) =
      elim (choose_id pseudo used id (known_id stream_idx idx p mapping)) [
        | none ↦ none
        | some (pid, id') ↦
            elim (fix_payloads pseudo stream_idx (idx + 1) id' (masks.set used pid)
              (map_id stream_idx idx (pos pid) mapping) ps) [
                | none ↦ none
                | some (rest, mapping') ↦
                    some (record p { payload_type = pos pid } ∷ rest, mapping')
              ]
      ]

  -- The loop over the streams, of which those with audio are counted.
  unfoldable pub fix_streams :
      ℕ → PayloadIdMapping → List Media → Option (List Media × PayloadIdMapping)
  fix_streams stream_idx mapping [] = some ([], mapping)
  fix_streams stream_idx mapping (m ∷ ms) =
      elim (if is_audio m.type
        then fix_payloads (pseudo_dynamic m.payloads masks.empty) stream_idx 0 core.dynamic_start
            masks.empty mapping m.payloads
        else some (m.payloads, mapping)) [
          | none ↦ none
          | some (ps, mapping') ↦
              elim (fix_streams (if is_audio m.type then stream_idx + 1 else stream_idx) mapping'
                ms) [
                  | none ↦ none
                  | some (rest, mapping'') ↦ some (record m { payloads = ps } ∷ rest, mapping'')
                ]
        ]

  unfoldable pub fix_dynamic_payloads : Sdp → PayloadIdMapping → Option (Sdp × PayloadIdMapping)
  fix_dynamic_payloads sdp mapping = elim (fix_streams 0 mapping sdp.media) [
    | none ↦ none
    | some (ms, mapping') ↦ some (record sdp { media = ms }, mapping')
  ]
