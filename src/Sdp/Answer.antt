-- ===== src/Sdp/Answer.antt =====
-- src/sdp_filter.cpp: what `filterSdpAnswerMedia` makes of an answer, against what was negotiated.
use mathlib.Core.List.{Memᴰ}
use sems_yeti.Prelude.{
  ℕ, zero, suc, ◌+◌, ◌≤◌, ◌≡◌, refl, sym, ◌⊎◌, inl, inr, Bool, true, false, List, [], ◌∷◌, map,
  some, if◌then◌else◌, get_elem?, length, arith, Bool-cases,
}
use sems_yeti.Sdp.{
  Core, MediaType, audio, video, other_type, Media, Payload, is_audio, same_type, Outcome, done,
  thrown,
}
use sems_yeti.Sdp.Within.{Within, answer_payloads-Within, Within-mem, Within-refl}
use sems_yeti.Sdp.Streams.{
  count_audio, prepend, answer_stream, is_skipped, match_streams, counts_match,
  filter_sdp_answer_media,
}

abbrev pub type_of : Media → MediaType
type_of m = m.type

abbrev pub types : List Media → List MediaType
types = map type_of

pub same_type-eq : (a b : MediaType) → same_type a b ≡ true → a ≡ b
same_type-eq audio audio h = refl
same_type-eq video video h = refl
same_type-eq (other_type n) (other_type k) h = ground arith
same_type-eq audio video h = cc
same_type-eq video audio h = cc
same_type-eq audio (other_type k) h = ground arith
same_type-eq video (other_type k) h = ground arith
same_type-eq (other_type n) audio h = ground arith
same_type-eq (other_type n) video h = ground arith

-- The streams of the answer that the loop needs.
abbrev needed : Bool → List Media → ℕ
needed b [] = 0
needed b (o ∷ os) = let n = needed b os in if is_skipped b o then n else n + 1

-- What the answer has at the place of the negotiated stream `o`.
abbrev Answers : Media → Media → Type 0
Answers o r =
    (r.type ≡ o.type)
    × ((is_audio o.type ≡ false) ⊎ ((r.transport ≡ o.transport) × Within r.payloads o.payloads))

Answers-self : (o : Media) → Answers o o
Answers-self o = (refl, inr (refl, Within-refl o.payloads))

abbrev AllAnswer : List Media → List Media → Type 0
AllAnswer [] [] = Unit {0}
AllAnswer (o ∷ os) (r ∷ rs) = Answers o r × AllAnswer os rs
AllAnswer _ _ = ⊥

AllAnswer-types : (os rs : List Media) → AllAnswer os rs → types rs ≡ types os
AllAnswer-types [] [] a = refl
AllAnswer-types [] (r ∷ rs) a = absurd a
AllAnswer-types (o ∷ os) [] a = absurd a
AllAnswer-types (o ∷ os) (r ∷ rs) ((t, _), a) = ground (arith, AllAnswer-types os rs a)

AllAnswer-at :
    (os rs : List Media) (i : ℕ) (n m : Media)
    → AllAnswer os rs
    → get_elem? os i ≡ some n
    → get_elem? rs i ≡ some m
    → Answers n m
AllAnswer-at [] rs i n m a h k = cc
AllAnswer-at (o ∷ os) [] i n m a h k = absurd a
AllAnswer-at (o ∷ os) (r ∷ rs) zero n m (b, a) h k =
    let e : o ≡ n = ground arith in let f : r ≡ m = ground arith in rw (← e, ← f) b
AllAnswer-at (o ∷ os) (r ∷ rs) (suc i) n m (b, a) h k = AllAnswer-at os rs i n m a h k

audio_answer :
    (n m : Media) (p : Payload)
    → Answers n m
    → is_audio n.type ≡ true
    → Memᴰ p m.payloads
    → Memᴰ p n.payloads × (m.transport ≡ n.transport)
audio_answer n m p (_, inl silent) h k = cc
audio_answer n m p (_, inr (t, w)) h k = (Within-mem m.payloads n.payloads w k, t)

needed-le : (b : Bool) (os : List Media) → needed b os ≤ length os
needed-le b [] = omega arith
needed-le b (o ∷ os) = ground (arith, needed-le b os)

needed-audio : (os : List Media) → needed true os ≡ count_audio os
unfolding count_audio
needed-audio [] = refl
needed-audio (o ∷ os) = ground (arith, needed-audio os)

prepend-done :
    (m : Media) (out : Outcome (List Media)) (r : List Media)
    → prepend m out ≡ done r
    → (r' : List Media) × (out ≡ done r') × (r ≡ m ∷ r')
prepend-done m (done r') r h = (r', refl, ground arith)
prepend-done m (thrown c) r h = cc

done-eq : {r s : List Media} → ◌≡◌ {A = Outcome (List Media)} (done r) (done s) → r ≡ s
done-eq h = ground arith

module _ (core : Core) (noaudio_filtered avoid_transcoding single_codec : Bool) where
  answer_stream-Answers :
      (o m : Media)
      → m.type ≡ o.type
      → Answers o (answer_stream core noaudio_filtered avoid_transcoding single_codec o m)
  unfolding answer_stream
  answer_stream-Answers o m t = (
    t,
    inr (
      refl,
      answer_payloads-Within core avoid_transcoding single_codec o
          (record m { transport = o.transport }),
    ),
  )

  prepend-AllAnswer :
      (o m : Media) (os : List Media) (out : Outcome (List Media)) (r : List Media)
      → prepend m out ≡ done r
      → Answers o m
      → ((r' : List Media) → out ≡ done r' → AllAnswer os r')
      → AllAnswer (o ∷ os) r
  prepend-AllAnswer o m os out r h a k = let (r', e, f) = prepend-done m out r h in rw f (a, k r' e)

  match_streams-AllAnswer :
      (os ms r : List Media)
      → match_streams core noaudio_filtered avoid_transcoding single_codec os ms ≡ done r
      → needed noaudio_filtered os ≤ length ms
      → AllAnswer os r
  unfolding match_streams
  match_streams-AllAnswer [] ms r h n = rw (sym (done-eq h)) tt
  match_streams-AllAnswer (o ∷ os) [] r h n = elim (Bool-cases (is_skipped noaudio_filtered o)) [
    | inl skip ↦
        prepend-AllAnswer o o os
          (match_streams core noaudio_filtered avoid_transcoding single_codec os []) r
          (ground (arith, skip)) (Answers-self o)
          λ r' e. match_streams-AllAnswer os [] r' e (ground (arith, skip))
    | inr keep ↦ absurd (ground (arith, keep))
  ]
  match_streams-AllAnswer (o ∷ os) (m ∷ ms) r h n =
      elim (Bool-cases (is_skipped noaudio_filtered o)) [
        | inl skip ↦
            prepend-AllAnswer o o os
              (match_streams core noaudio_filtered avoid_transcoding single_codec os (m ∷ ms)) r
              (ground (arith, skip)) (Answers-self o)
              λ r' e. match_streams-AllAnswer os (m ∷ ms) r' e (ground (arith, skip))
        | inr keep ↦ elim (Bool-cases (same_type m.type o.type)) [
          | inr changed ↦ absurd (ground (arith, keep, changed))
          | inl same ↦
              let t = same_type-eq m.type o.type same in
              let rest =
                λ (r' : List Media)
                    (e : match_streams core noaudio_filtered avoid_transcoding single_codec os ms
                      ≡ done r').
                  match_streams-AllAnswer os ms r' e (ground (arith, keep)) in
              let out = match_streams core noaudio_filtered avoid_transcoding single_codec os ms in
              elim (Bool-cases (is_audio m.type)) [
                | inr other ↦
                    prepend-AllAnswer o m os out r (ground (arith, keep, same, other))
                      (t, inl (rw (← t) other)) rest
                | inl spoken ↦
                    prepend-AllAnswer o
                      (answer_stream core noaudio_filtered avoid_transcoding single_codec o m) os
                      out r (ground (arith, keep, same, spoken)) (answer_stream-Answers o m t) rest
              ]
        ]
      ]

  counted :
      (os ms : List Media)
      → counts_match noaudio_filtered os ms ≡ true
      → needed noaudio_filtered os ≤ length ms
  unfolding counts_match
  counted os ms h = ground (arith, needed-le noaudio_filtered os, needed-audio os)

  filter_answer-AllAnswer :
      (o : Media) (os ms r : List Media)
      → filter_sdp_answer_media core noaudio_filtered avoid_transcoding single_codec (o ∷ os) ms
        ≡ done r
      → AllAnswer (o ∷ os) r
  unfolding filter_sdp_answer_media
  filter_answer-AllAnswer o os ms r h =
      match_streams-AllAnswer (o ∷ os) ms r (ground arith) (counted (o ∷ os) ms (ground arith))

  -- For every answer, and negotiated streams of which there is at least one: if filterSdpAnswerMedia does
  -- not throw, its streams are as many as the negotiated ones and of the same types, in their order, also
  -- where the streams without audio were left out of the offer.
  pub filter_sdp_answer_types :
      (o : Media) (os ms r : List Media)
      → filter_sdp_answer_media core noaudio_filtered avoid_transcoding single_codec (o ∷ os) ms
        ≡ done r
      → types r ≡ types (o ∷ os)
  filter_sdp_answer_types o os ms r h =
      AllAnswer-types (o ∷ os) r (filter_answer-AllAnswer o os ms r h)

  -- If filterSdpAnswerMedia does not throw, each payload of a stream at the place of a negotiated audio
  -- stream is one of the payloads that were negotiated for it, whatever payloads the answer had, whether
  -- or not transcoding is avoided and whether or not a single codec is asked for, and the stream that has
  -- this payload has the negotiated transport.
  pub filter_sdp_answer_negotiated :
      (o : Media) (os ms r : List Media) (i : ℕ) (n m : Media) (p : Payload)
      → filter_sdp_answer_media core noaudio_filtered avoid_transcoding single_codec (o ∷ os) ms
        ≡ done r
      → get_elem? (o ∷ os) i ≡ some n
      → get_elem? r i ≡ some m
      → is_audio n.type ≡ true
      → Memᴰ p m.payloads
      → Memᴰ p n.payloads × (m.transport ≡ n.transport)
  filter_sdp_answer_negotiated o os ms r i n m p h hn hm a k =
      audio_answer n m p (AllAnswer-at (o ∷ os) r i n m (filter_answer-AllAnswer o os ms r h) hn hm)
        a k
