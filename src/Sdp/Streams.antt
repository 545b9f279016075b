-- ===== src/Sdp/Streams.antt =====
-- src/sdp_filter.cpp: the streams of an offer or an answer against those that were negotiated before.
use sems_yeti.Prelude.{
  ℕ, ◌+◌, ◌==◌, Bool, not, ◌&&◌, ◌||◌, List, [], ◌∷◌, length, map, if◌then◌else◌, is_nil,
}
use sems_yeti.Sdp.{Core, Media, is_audio, same_type, Outcome, done, thrown}
use sems_yeti.Sdp.Arrange.{disable}
use sems_yeti.Sdp.Codecs.{answer_payloads}

-- DC_REPLY_SDP_EMPTY_ANSWER, DC_REPLY_SDP_STREAMS_COUNT and DC_REPLY_SDP_STREAMS_TYPES
abbrev pub empty_answer : ℕ
empty_answer = 1502

abbrev pub streams_count : ℕ
streams_count = 1503

abbrev pub streams_types : ℕ
streams_types = 1504

-- The check of an offer within a dialog that is handled locally: the code, and the streams with all
-- behind those that were negotiated disabled.
unfoldable pub check_local : List Media → List Media → ℕ × List Media
check_local [] ms = (0, map disable ms)
check_local (n ∷ ns) [] = (streams_count, [])
check_local (n ∷ ns) (m ∷ ms) =
    let (code, rest) = check_local ns ms in
    if not (same_type n.type m.type) then (streams_types, m ∷ ms) else (code, m ∷ rest)

unfoldable pub count_audio : List Media → ℕ
count_audio [] = 0
count_audio (m ∷ ms) = let n = count_audio ms in if is_audio m.type then n + 1 else n

abbrev pub prepend : Media → Outcome (List Media) → Outcome (List Media)
prepend m (done ms) = done (m ∷ ms)
prepend m (thrown c) = thrown c

-- A stream that was negotiated and left out of the offer that was sent on.
abbrev pub is_skipped : Bool → Media → Bool
is_skipped noaudio_filtered other = noaudio_filtered && not (is_audio other.type)

-- The test of the number of streams.
unfoldable pub counts_match : Bool → List Media → List Media → Bool
unfolding count_audio
counts_match noaudio_filtered negotiated media =
    length negotiated == length media
    || (noaudio_filtered && length media == count_audio negotiated)

module _ (core : Core) (noaudio_filtered avoid_transcoding single_codec : Bool) where
  -- The audio stream `m` of the answer, for the stream `other` that was negotiated.
  unfoldable pub answer_stream : Media → Media → Media
  answer_stream other m = record m {
    transport = other.transport;
    payloads =
        answer_payloads core avoid_transcoding single_codec other
          (record m { transport = other.transport });
  }

  -- The loop over the negotiated streams and those of the answer, from the two that it has reached.
  unfoldable pub match_streams : List Media → List Media → Outcome (List Media)
  unfolding answer_stream
  match_streams [] ms = done []
  match_streams (other ∷ others) [] =
      let rest = match_streams others [] in
      if is_skipped noaudio_filtered other then prepend other rest else done []
  match_streams (other ∷ others) (m ∷ ms) =
      let rest = match_streams others (m ∷ ms) in
      let next = match_streams others ms in
      if is_skipped noaudio_filtered other
      then prepend other rest
      else (if not (same_type m.type other.type)
          then thrown streams_types
          else (if not (is_audio m.type)
              then prepend m next
              else prepend (answer_stream other m) next))

  -- The streams of the answer as they are changed.
  unfoldable pub filter_sdp_answer_media : List Media → List Media → Outcome (List Media)
  unfolding match_streams counts_match
  filter_sdp_answer_media negotiated media =
      if is_nil negotiated
      then done media
      else (if is_nil media
          then thrown empty_answer
          else (if not (counts_match noaudio_filtered negotiated media)
              then thrown streams_count
              else match_streams negotiated media))
