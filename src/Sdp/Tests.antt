-- ===== src/Sdp/Tests.antt =====
-- The theorems on SDP at concrete sessions.
use mathlib.Core.List.{Memᴰ}
use sems_yeti.Prelude.{◌≡◌, refl, true, false, [], ◌∷◌, some, is_nil, get_elem?}
use sems_yeti.Prelude.Classes.{codes}
use sems_yeti.Sdp.{audio, rtpavp, Media, done, find_payload, contains_payload, is_telephone_event}
use sems_yeti.Sdp.Places.{session_only, normalize_conn_location}
use sems_yeti.Sdp.Kept.{places, normalize_keeps_places, session_only_overrides}
use sems_yeti.Sdp.Filters.{
  FilterEntry, whitelist, blacklist, transparent, filter_sdp_alines, filter_sdp,
}
use sems_yeti.Sdp.Lines.{filter_sdp_alines_one_pass}
use sems_yeti.Sdp.Payloads.{FilteredTo, filter_sdp_keeps_streams}
use sems_yeti.Sdp.Streams.{counts_match, filter_sdp_answer_media, streams_types}
use sems_yeti.Sdp.Answer.{filter_sdp_answer_negotiated}
use sems_yeti.Sdp.Refusals.{outcome_code, filter_sdp_answer_refusals}
use sems_yeti.Sdp.Codecs.{answer_payloads}
use sems_yeti.Sdp.Arrange.{filter_arrange_sdp, arrange_media, codecs_not_matched, is_filtered_out}
use sems_yeti.Sdp.Arranged.{names, filter_arrange_outcome, arranged_names}
use sems_yeti.Sdp.Samples.{
  negotiated, answer, accepted, same_conn_sound, empty_conn, conn_a, conn_b, core, pcma, pcmu, dtmf,
  speech, film, session,
}

normalize_keeps_places_example :
    get_elem? (places (normalize_conn_location core session session_only)) 0 ≡ some conn_a
normalize_keeps_places_example =
    normalize_keeps_places core same_conn_sound refl session session_only 0
      (speech conn_a (pcma ∷ dtmf ∷ [])) refl refl refl

session_only_overrides_example :
    places (normalize_conn_location core (record session { conn = conn_b }) session_only)
    ≡ conn_b ∷ conn_b ∷ []
session_only_overrides_example =
    session_only_overrides core refl (record session { conn = conn_b }) refl

abbrev only_pcmu : FilterEntry
only_pcmu = record { filter_type = whitelist; filter_list = codes "pcmu" ∷ [] }

abbrev no_tool : FilterEntry
no_tool = record { filter_type = blacklist; filter_list = codes "tool" ∷ codes "video" ∷ [] }

abbrev idle : FilterEntry
idle = record { filter_type = transparent; filter_list = [] }

filter_sdp_alines_one_pass_example :
    filter_sdp_alines (idle ∷ no_tool ∷ []) session ≡ record session { attributes = [] }
filter_sdp_alines_one_pass_example = filter_sdp_alines_one_pass (idle ∷ no_tool ∷ []) session

filter_sdp_keeps_streams_example :
    (m' : Media) × (get_elem? (filter_sdp (only_pcmu ∷ []) session.media).1 0 ≡ some m')
    × FilteredTo (only_pcmu ∷ []) (speech conn_a (pcma ∷ dtmf ∷ [])) m'
filter_sdp_keeps_streams_example =
    filter_sdp_keeps_streams (only_pcmu ∷ []) session.media 0 (speech conn_a (pcma ∷ dtmf ∷ []))
      refl

answer_is_taken : filter_sdp_answer_media core true true true negotiated answer ≡ done accepted
unfolding filter_sdp_answer_media find_payload is_telephone_event answer_payloads contains_payload
answer_is_taken = refl

filter_sdp_answer_negotiated_example : Memᴰ pcmu (pcma ∷ pcmu ∷ dtmf ∷ []) × (rtpavp ≡ rtpavp)
filter_sdp_answer_negotiated_example =
    filter_sdp_answer_negotiated core true true true (speech empty_conn (pcma ∷ pcmu ∷ dtmf ∷ []))
      (film ∷ []) answer accepted 0 (speech empty_conn (pcma ∷ pcmu ∷ dtmf ∷ []))
      (speech conn_a (pcmu ∷ dtmf ∷ [])) pcmu answer_is_taken refl refl refl (Memᴰ.head refl)

filter_sdp_answer_refusals_example :
    outcome_code (filter_sdp_answer_media core false true true negotiated (film ∷ film ∷ []))
    ≡ streams_types
unfolding counts_match
filter_sdp_answer_refusals_example =
    filter_sdp_answer_refusals core false true true (speech empty_conn (pcma ∷ pcmu ∷ dtmf ∷ []))
      (film ∷ []) (film ∷ film ∷ [])

filter_arrange_outcome_example :
    ((filter_arrange_sdp core (pcmu ∷ dtmf ∷ []) false session).0 ≡ codecs_not_matched)
    × ((m' : Media) × (get_elem?
            (filter_arrange_sdp core (pcmu ∷ dtmf ∷ []) false session).1.media
            0
          ≡ some m')
        × (is_nil m'.payloads ≡ false)
        × (m'.type ≡ audio))
unfolding is_filtered_out find_payload is_telephone_event
filter_arrange_outcome_example =
    filter_arrange_outcome core (pcmu ∷ dtmf ∷ []) false session 0
      (speech conn_a (pcma ∷ dtmf ∷ [])) refl refl

not_out : is_filtered_out core (pcmu ∷ dtmf ∷ []) true (speech conn_a (pcma ∷ dtmf ∷ [])) ≡ false
unfolding is_filtered_out find_payload is_telephone_event
not_out = refl

arranged_names_example :
    names (arrange_media core (pcmu ∷ dtmf ∷ []) true (speech conn_a (pcma ∷ dtmf ∷ []))).payloads
    ≡ codes "pcmu" ∷ codes "telephone-event" ∷ []
arranged_names_example =
    arranged_names core (pcmu ∷ dtmf ∷ []) true (speech conn_a (pcma ∷ dtmf ∷ [])) refl not_out
