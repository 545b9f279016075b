-- ===== src/Sdp/Arrange.antt =====
-- src/sdp_filter.cpp: the codecs of a group against those of an offer (`filter_arrange_SDP`), and the
-- streams that are no audio.
use sems_yeti.Prelude.{
  ℕ, Bool, false, not, ◌&&◌, ◌||◌, List, [], ◌∷◌, ◌++◌, none, some, if◌then◌else◌, is_nil,
}
use sems_yeti.Prelude.Int.{pos, negsuc, leb_ℤ, eqb_ℤ}
use sems_yeti.Sdp.{Core, Sdp, Media, Payload, is_audio, find_payload, is_only_event}

-- FC_CODECS_NOT_MATCHED and FC_NO_SUITABLE_MEDIA
abbrev pub codecs_not_matched : ℕ
codecs_not_matched = 141

abbrev pub no_suitable_media : ℕ
no_suitable_media = 142

-- `*payloads.begin()`: one payload, and none for an empty list, where the code reads past its end.
abbrev pub begin : List Payload → List Payload
begin [] = []
begin (p ∷ ps) = p ∷ []

-- A media list under a loop, with the flags `media_line_left` and `media_line_filtered_out`.
pub record Arranged : Type 0 where
  pub media : List Media
  pub left : Bool
  pub filtered_out : Bool

module _ (core : Core) (static_payloads : List Payload) (add_codecs : Bool) where
  -- An offered payload `p` with what the group's entry `f` sets.
  abbrev pub overridden : Payload → Payload → Payload
  overridden f p = record p {
    format = [];
    sdp_format_parameters = f.sdp_format_parameters;
    encoding_name = f.encoding_name;
    payload_type =
        if leb_ℤ (pos core.dynamic_start) p.payload_type && not (eqb_ℤ f.payload_type (negsuc 0))
        then f.payload_type
        else p.payload_type;
  }

  -- What one entry of the group adds to the new payloads of a stream.
  unfoldable pub entry_payload : Media → Payload → List Payload
  entry_payload m f = elim (find_payload core m.payloads f m.transport) [
    | some p ↦ (if add_codecs then overridden f p else p) ∷ []
    | none ↦ if add_codecs then f ∷ [] else []
  ]

  unfoldable pub new_payloads : Media → List Payload → List Payload
  unfolding entry_payload
  new_payloads m [] = []
  new_payloads m (f ∷ fs) = entry_payload m f ++ new_payloads m fs

  -- The stream has no payload left, or only telephone-event.
  unfoldable pub is_filtered_out : Media → Bool
  unfolding new_payloads
  is_filtered_out m =
      let pl = new_payloads m static_payloads in
      (is_nil pl && not (is_nil m.payloads)) || is_only_event core pl

  -- The body of the loop, for an audio stream.
  unfoldable pub arrange_media : Media → Media
  unfolding is_filtered_out
  arrange_media m =
      let pl = new_payloads m static_payloads in
      if is_filtered_out m
      then record m { port = 0; payloads = pl ++ begin m.payloads }
      else record m { payloads = pl }

  unfoldable pub arrange : List Media → Arranged
  unfolding arrange_media
  arrange [] = record { media = []; left = false; filtered_out = false }
  arrange (m ∷ ms) =
      let rest = arrange ms in
      if is_audio m.type
      then record {
        media = arrange_media m ∷ rest.media;
        left = not (is_filtered_out m) || rest.left;
        filtered_out = is_filtered_out m || rest.filtered_out;
      }
      else record rest { media = m ∷ rest.media }

  -- The code that is returned, and the changed SDP.
  unfoldable pub filter_arrange_sdp : Sdp → ℕ × Sdp
  unfolding arrange
  filter_arrange_sdp sdp =
      let a = arrange sdp.media in
      (
        if not a.left && a.filtered_out then codecs_not_matched else 0,
        record sdp { media = a.media },
      )

abbrev pub disable : Media → Media
disable m = record m { port = 0 }

abbrev pub has_audio : List Media → Bool
has_audio [] = false
has_audio (m ∷ ms) = is_audio m.type || has_audio ms

unfoldable pub disable_no_audio : List Media → List Media
disable_no_audio [] = []
disable_no_audio (m ∷ ms) = (if is_audio m.type then m else disable m) ∷ disable_no_audio ms

unfoldable pub filter_no_audio_streams : Sdp → Bool → ℕ × Sdp
unfolding disable_no_audio
filter_no_audio_streams sdp filter =
    if filter
    then (
      if has_audio sdp.media then 0 else no_suitable_media,
      record sdp { media = disable_no_audio sdp.media },
    )
    else (0, sdp)

unfoldable pub audio_only : List Media → List Media
audio_only [] = []
audio_only (m ∷ ms) = let rest = audio_only ms in if is_audio m.type then m ∷ rest else rest

unfoldable pub cut_no_audio_streams : Sdp → Bool → ℕ × Sdp
unfolding audio_only
cut_no_audio_streams sdp cut =
    if cut
    then (if is_nil (audio_only sdp.media)
        then (no_suitable_media, sdp)
        else (0, record sdp { media = audio_only sdp.media }))
    else (0, sdp)
