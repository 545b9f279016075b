-- ===== src/Sdp/Refusals.antt =====
-- src/sdp_filter.cpp: which answers filterSdpAnswerMedia refuses, and with which code.
use sems_yeti.Prelude.{
  filter, ℕ, ◌≡◌, refl, ap, Bool, true, false, not, ◌&&◌, ◌||◌, ◌==◌, List, [], ◌∷◌, if◌then◌else◌,
  is_nil, length, arith,
}
use sems_yeti.Sdp.{Core, Media, is_audio, same_type, Outcome, done, thrown}
use sems_yeti.Sdp.Streams.{
  empty_answer, streams_count, streams_types, prepend, answer_stream, is_skipped, match_streams,
  count_audio, counts_match, filter_sdp_answer_media,
}

abbrev pub outcome_code : Outcome (List Media) → ℕ
outcome_code (done ms) = 0
outcome_code (thrown c) = c

-- The types agree as far as both lists go.
abbrev pub types_agree : List Media → List Media → Bool
types_agree [] ms = true
types_agree (o ∷ os) [] = true
types_agree (o ∷ os) (m ∷ ms) = same_type m.type o.type && types_agree os ms

-- The negotiated streams that were sent on: all of them, or those with audio.
abbrev pub sent : Bool → List Media → List Media
sent noaudio_filtered os = if noaudio_filtered then filter (λ o. is_audio o.type) os else os

-- Those that the loop does not skip.
abbrev offered : Bool → List Media → List Media
offered b = filter (λ o. not (is_skipped b o))

audio_only-offered : (os : List Media) → offered true os ≡ filter (λ o. is_audio o.type) os
audio_only-offered [] = refl
audio_only-offered (o ∷ os) = ground (arith, audio_only-offered os)

offered_all : (os : List Media) → offered false os ≡ os
offered_all [] = refl
offered_all (o ∷ os) = ap (◌∷◌ o) (offered_all os)

offered-sent : (b : Bool) (os : List Media) → offered b os ≡ sent b os
offered-sent true os = audio_only-offered os
offered-sent false os = offered_all os

count_audio-length : (os : List Media) → count_audio os ≡ length (filter (λ o. is_audio o.type) os)
unfolding count_audio
count_audio-length [] = refl
count_audio-length (o ∷ os) = ground (arith, count_audio-length os)

counts_match-sent :
    (b : Bool) (os ms : List Media)
    → counts_match b os ms ≡ (length ms == length os || length ms == length (sent b os))
unfolding counts_match
counts_match-sent true os ms = ground (arith, count_audio-length os)
counts_match-sent false os ms = ground arith

prepend-code :
    (m : Media) (out : Outcome (List Media)) → outcome_code (prepend m out) ≡ outcome_code out
prepend-code m (done ms) = refl
prepend-code m (thrown c) = refl

agree_nil : (os : List Media) → types_agree os [] ≡ true
agree_nil [] = refl
agree_nil (o ∷ os) = refl

module _ (core : Core) (noaudio_filtered avoid_transcoding single_codec : Bool) where
  match_streams-code :
      (os ms : List Media)
      → outcome_code (match_streams core noaudio_filtered avoid_transcoding single_codec os ms)
        ≡ (if types_agree (offered noaudio_filtered os) ms then 0 else streams_types)
  unfolding match_streams
  match_streams-code [] ms = refl
  match_streams-code (o ∷ os) [] =
      let out = match_streams core noaudio_filtered avoid_transcoding single_codec os [] in
      ground (
        arith,
        match_streams-code os [],
        prepend-code o out,
        agree_nil (offered noaudio_filtered os),
      )
  match_streams-code (o ∷ os) (m ∷ ms) =
      let skipped =
        match_streams core noaudio_filtered avoid_transcoding single_codec os (m ∷ ms) in
      let out = match_streams core noaudio_filtered avoid_transcoding single_codec os ms in
      ground (
        arith,
        match_streams-code os (m ∷ ms),
        match_streams-code os ms,
        prepend-code o skipped,
        prepend-code m out,
        prepend-code (answer_stream core noaudio_filtered avoid_transcoding single_codec o m) out,
      )

  -- For every answer, and negotiated streams of which there is at least one, filterSdpAnswerMedia throws
  -- 1502 for an answer without streams; 1503 if the answer has neither as many streams as were negotiated
  -- nor as many as were sent on, which are those with audio where the others were left out of the offer and
  -- all of them else; 1504 if the types of the streams then differ at some place from those of the streams
  -- that were sent on; and nothing else, so that any other answer is accepted.
  pub filter_sdp_answer_refusals :
      (o : Media) (os ms : List Media)
      → outcome_code
          (filter_sdp_answer_media core noaudio_filtered avoid_transcoding single_codec (o ∷ os) ms)
        ≡ (if is_nil ms
            then empty_answer
            else (if length ms == length (o ∷ os)
                  || length ms == length (sent noaudio_filtered (o ∷ os))
                then (if types_agree (sent noaudio_filtered (o ∷ os)) ms then 0 else streams_types)
                else streams_count))
  unfolding filter_sdp_answer_media
  filter_sdp_answer_refusals o os ms =
      let counts = counts_match-sent noaudio_filtered (o ∷ os) ms in
      let same = offered-sent noaudio_filtered (o ∷ os) in
      ground (arith, match_streams-code (o ∷ os) ms)
