-- ===== src/Sdp/Lines.antt =====
-- src/SDPFilter.cpp: the filters of attribute lines against one pass over the lines.
use sems_yeti.Prelude.{◌≡◌, refl, ap, inl, inr, true, false, List, [], ◌∷◌, map, arith, Bool-cases}
use sems_yeti.Sdp.{Attribute, Media, Sdp}
use sems_yeti.Sdp.Filters.{
  FilterEntry, is_active_filter, filter_sdp_attributes, filter_media_attributes, filter_sdp_alines,
}
use sems_yeti.Sdp.Passing.{passing_attributes, passing_media}

passing_none : (xs : List Attribute) → passing_attributes [] xs ≡ xs
passing_none [] = refl
passing_none (x ∷ xs) = ap (◌∷◌ x) (passing_none xs)

module _ (e : FilterEntry) (es : List FilterEntry) where
  passing_skip :
      (xs : List Attribute)
      → is_active_filter e.filter_type ≡ false
      → passing_attributes (e ∷ es) xs ≡ passing_attributes es xs
  passing_skip [] h = refl
  passing_skip (x ∷ xs) h = ground (arith, passing_skip xs h)

  passing_step :
      (xs : List Attribute)
      → is_active_filter e.filter_type ≡ true
      → passing_attributes es (filter_sdp_attributes e xs) ≡ passing_attributes (e ∷ es) xs
  unfolding filter_sdp_attributes
  passing_step [] h = refl
  passing_step (x ∷ xs) h = ground (arith, passing_step xs h)

  streams_skip :
      (ms : List Media)
      → is_active_filter e.filter_type ≡ false
      → map (passing_media (e ∷ es)) ms ≡ map (passing_media es) ms
  streams_skip [] h = refl
  streams_skip (m ∷ ms) h = ground (arith, passing_skip m.attributes h, streams_skip ms h)

  streams_step :
      (ms : List Media)
      → is_active_filter e.filter_type ≡ true
      → map (passing_media es) (map (filter_media_attributes e) ms)
        ≡ map (passing_media (e ∷ es)) ms
  streams_step [] h = refl
  streams_step (m ∷ ms) h = ground (arith, passing_step m.attributes h, streams_step ms h)

streams_none : (ms : List Media) → map (passing_media []) ms ≡ ms
streams_none [] = refl
streams_none (m ∷ ms) = ground (arith, passing_none m.attributes, streams_none ms)

-- For every list of filter entries and every SDP, filterSDPalines, which goes over all lines once for each
-- entry, leaves those attribute lines of the session and of each stream, in their order, whose name in
-- lower case is in every whitelist and in no blacklist among the entries, and changes nothing else. An
-- entry that is neither is passed over, and those behind it apply.
pub filter_sdp_alines_one_pass :
    (es : List FilterEntry) (sdp : Sdp)
    → filter_sdp_alines es sdp ≡ record sdp {
      attributes = passing_attributes es sdp.attributes;
      media = map (passing_media es) sdp.media;
    }
unfolding filter_sdp_alines
filter_sdp_alines_one_pass [] sdp =
    ground (arith, passing_none sdp.attributes, streams_none sdp.media)
filter_sdp_alines_one_pass (e ∷ es) sdp = elim (Bool-cases (is_active_filter e.filter_type)) [
  | inl active ↦ ground (
    arith,
    active,
    filter_sdp_alines_one_pass es (record sdp {
      attributes = filter_sdp_attributes e sdp.attributes;
      media = map (filter_media_attributes e) sdp.media;
    }),
    passing_step e es sdp.attributes,
    streams_step e es sdp.media,
  )
  | inr idle ↦ ground (
    arith,
    idle,
    filter_sdp_alines_one_pass es sdp,
    passing_skip e es sdp.attributes,
    streams_skip e es sdp.media,
  )
]
