-- ===== src/Sdp/Types.antt =====
-- src/SDPFilter.cpp: the filters of media types against one pass over the streams.
use sems_yeti.Prelude.{
  ℕ, ◌+◌, ◌≤◌, length-map, ◌==◌, ◌≡◌, refl, inl, inr, Bool, true, false, not, ◌&&◌, List, [], ◌∷◌,
  map, if◌then◌else◌, is_nil, length, arith, Bool-cases,
}
use sems_yeti.Prelude.Int.{pos, negsuc}
use sems_yeti.Prelude.Classes.{Text}
use sems_yeti.Sdp.{MediaType, Media}
use sems_yeti.Sdp.Filters.{
  FilterEntry, is_active_filter, filter_types, filter_all_types, filter_media,
}
use sems_yeti.Sdp.Passing.{passes}

-- A stream that was active, and that some active entry disables.
abbrev pub is_lost : (MediaType → Text) → List FilterEntry → Media → Bool
is_lost name es m = not (m.port == 0) && not (passes es (name m.type))

abbrev pub count_lost : (MediaType → Text) → List FilterEntry → List Media → ℕ
count_lost name es [] = 0
count_lost name es (m ∷ ms) =
    let n = count_lost name es ms in if is_lost name es m then n + 1 else n

abbrev pub is_all_lost : (MediaType → Text) → List FilterEntry → List Media → Bool
is_all_lost name es [] = true
is_all_lost name es (m ∷ ms) = is_lost name es m && is_all_lost name es ms

module _ (name : MediaType → Text) where
  -- The port of a stream is 0 if an entry disables its type, and as it was else.
  abbrev pub passing_port : List FilterEntry → Media → Media
  passing_port es m = record m { port = if passes es (name m.type) then m.port else 0 }

  ports_none : (ms : List Media) → map (passing_port []) ms ≡ ms
  ports_none [] = refl
  ports_none (m ∷ ms) = ground (arith, ports_none ms)

  lost_none : (ms : List Media) → count_lost name [] ms ≡ 0
  lost_none [] = refl
  lost_none (m ∷ ms) = ground (arith, lost_none ms)

  module _ (e : FilterEntry) (es : List FilterEntry) where
    ports_skip :
        (ms : List Media)
        → is_active_filter e.filter_type ≡ false
        → (count_lost name (e ∷ es) ms ≡ count_lost name es ms)
          × (map (passing_port (e ∷ es)) ms ≡ map (passing_port es) ms)
    ports_skip [] h = (refl, refl)
    ports_skip (m ∷ ms) h = (ground (arith, ports_skip ms h), ground (arith, ports_skip ms h))

    ports_step :
        (ms : List Media)
        → is_active_filter e.filter_type ≡ true
        → (map (passing_port es) (filter_types name e ms).1 ≡ map (passing_port (e ∷ es)) ms)
          × ((filter_types name e ms).0 + count_lost name es (filter_types name e ms).1
              ≡ count_lost name (e ∷ es) ms)
    unfolding filter_types
    ports_step [] h = (refl, refl)
    ports_step (m ∷ ms) h = (ground (arith, ports_step ms h), ground (arith, ports_step ms h))

  filter_all_types_lem :
      (es : List FilterEntry) (k : ℕ) (ms : List Media)
      → filter_all_types name es k ms ≡ (k + count_lost name es ms, map (passing_port es) ms)
  unfolding filter_all_types
  filter_all_types_lem [] k ms = ground (arith, lost_none ms, ports_none ms)
  filter_all_types_lem (e ∷ es) k ms = elim (Bool-cases (is_active_filter e.filter_type)) [
    | inl active ↦
        let t = filter_types name e ms in
        ground (arith, active, filter_all_types_lem es (k + t.0) t.1, ports_step e es ms active)
    | inr idle ↦ ground (arith, idle, filter_all_types_lem es k ms, ports_skip e es ms idle)
  ]

  lost_all :
      (es : List FilterEntry) (ms : List Media)
      → (count_lost name es ms ≤ length ms)
        × ((count_lost name es ms == length ms) ≡ is_all_lost name es ms)
  lost_all es [] = (omega arith, refl)
  lost_all es (m ∷ ms) = (ground (arith, lost_all es ms), ground (arith, lost_all es ms))

  -- For every list of entries and every list of streams, filterMedia sets the port to 0 in exactly the
  -- streams whose media type an active entry filters out, leaves every other stream as it is, and returns
  -- -488 exactly if there are streams and each of them was active and is filtered out, else 0.
  pub filter_media_lem :
      (es : List FilterEntry) (ms : List Media)
      → filter_media name es ms ≡ (
        if not (is_nil ms) && is_all_lost name es ms then negsuc 487 else pos 0,
        map (passing_port es) ms,
      )
  unfolding filter_media
  filter_media_lem es [] = ground (arith, filter_all_types_lem es 0 [])
  filter_media_lem es (m ∷ ms) = ground (
    arith,
    filter_all_types_lem es 0 (m ∷ ms),
    lost_all es (m ∷ ms),
    length-map (m ∷ ms) (passing_port es),
  )
