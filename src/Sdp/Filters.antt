-- ===== src/Sdp/Filters.antt =====
-- src/SDPFilter.cpp: the filters of payloads, of media types and of attribute lines. The entries are those
-- of src/HeaderFilter.h.
use sems_yeti.Prelude.{
  ℕ, ◌+◌, ◌==◌, ltb, Bool, true, false, not, ◌&&◌, ◌||◌, List, [], ◌∷◌, map, if◌then◌else◌, is_nil,
  length,
}
use sems_yeti.Prelude.Int.{ℤ, pos, negsuc}
use sems_yeti.Prelude.Classes.{Text, text_eq}
use sems_yeti.Sdp.{MediaType, Payload, Attribute, Media, Sdp, lower}
use sems_yeti.Sdp.Arrange.{Arranged, begin, disable}

pub data FilterType : Type 0 where
  transparent whitelist blacklist undefined : FilterType

pub record FilterEntry : Type 0 where
  pub filter_type : FilterType
  pub filter_list : List Text

abbrev pub is_active_filter : FilterType → Bool
is_active_filter transparent = false
is_active_filter undefined = false
is_active_filter _ = true

abbrev pub in_list : Text → List Text → Bool
in_list c [] = false
in_list c (x ∷ xs) = text_eq x c || in_list c xs

abbrev pub flipped : FilterType → Bool → Bool
flipped whitelist found = not found
flipped _ found = found

-- `(type == Whitelist) ^ (list.find(c) != list.end())`
abbrev pub is_filtered : FilterEntry → Text → Bool
is_filtered e c = flipped e.filter_type (in_list c e.filter_list)

unfoldable pub filter_payloads : FilterEntry → List Payload → List Payload
filter_payloads e [] = []
filter_payloads e (p ∷ ps) =
    let rest = filter_payloads e ps in
    if is_filtered e (lower p.encoding_name) then rest else p ∷ rest

-- No payload of the stream is supported.
unfoldable pub is_emptied : FilterEntry → Media → Bool
unfolding filter_payloads
is_emptied e m = is_nil (filter_payloads e m.payloads) && not (is_nil m.payloads)

unfoldable pub filter_stream : FilterEntry → Media → Media
unfolding is_emptied
filter_stream e m =
    if is_emptied e m
    then record m { port = 0; payloads = begin m.payloads }
    else record m { payloads = filter_payloads e m.payloads }

unfoldable pub filter_streams : FilterEntry → List Media → Arranged
unfolding filter_stream
filter_streams e [] = record { media = []; left = false; filtered_out = false }
filter_streams e (m ∷ ms) =
    let rest = filter_streams e ms in
    record {
      media = filter_stream e m ∷ rest.media;
      left = not (is_emptied e m) || rest.left;
      filtered_out = is_emptied e m || rest.filtered_out;
    }

-- The code that `filterSDP` returns, and the streams.
unfoldable pub filter_sdp : List FilterEntry → List Media → ℤ × List Media
unfolding filter_streams
filter_sdp [] ms = (pos 0, ms)
filter_sdp (e ∷ es) ms =
    let a = filter_streams e ms in
    let skipped = filter_sdp es ms in
    let rest = filter_sdp es a.media in
    if not (is_active_filter e.filter_type)
    then skipped
    else (if not a.left && a.filtered_out then (negsuc 487, a.media) else rest)

module _ (type_name : MediaType → Text) where
  -- Whether an entry disables an active stream.
  abbrev pub disables : FilterEntry → Media → Bool
  disables e m = not (m.port == 0) && is_filtered e (type_name m.type)

  -- The streams under an entry, and how many it disables.
  unfoldable pub filter_types : FilterEntry → List Media → ℕ × List Media
  filter_types e [] = (0, [])
  filter_types e (m ∷ ms) =
      let (n, rest) = filter_types e ms in
      if disables e m then (n + 1, disable m ∷ rest) else (n, m ∷ rest)

  unfoldable pub filter_all_types : List FilterEntry → ℕ → List Media → ℕ × List Media
  unfolding filter_types
  filter_all_types [] filtered_out ms = (filtered_out, ms)
  filter_all_types (e ∷ es) filtered_out ms =
      let (n, ms') = filter_types e ms in
      let skipped = filter_all_types es filtered_out ms in
      let rest = filter_all_types es (filtered_out + n) ms' in
      if not (is_active_filter e.filter_type) then skipped else rest

  unfoldable pub filter_media : List FilterEntry → List Media → ℤ × List Media
  unfolding filter_all_types
  filter_media es ms =
      let (filtered_out, ms') = filter_all_types es 0 ms in
      (if ltb 0 filtered_out && filtered_out == length ms' then negsuc 487 else pos 0, ms')

unfoldable pub filter_sdp_attributes : FilterEntry → List Attribute → List Attribute
filter_sdp_attributes e [] = []
filter_sdp_attributes e (a ∷ as') =
    let rest = filter_sdp_attributes e as' in
    if is_filtered e (lower a.attribute) then rest else a ∷ rest

abbrev pub filter_media_attributes : FilterEntry → Media → Media
filter_media_attributes e m = record m { attributes = filter_sdp_attributes e m.attributes }

unfoldable pub filter_sdp_alines : List FilterEntry → Sdp → Sdp
unfolding filter_sdp_attributes
filter_sdp_alines [] sdp = sdp
filter_sdp_alines (e ∷ es) sdp = filter_sdp_alines es (
    if not (is_active_filter e.filter_type) then sdp else record sdp {
      attributes = filter_sdp_attributes e sdp.attributes;
      media = map (filter_media_attributes e) sdp.media;
    })
