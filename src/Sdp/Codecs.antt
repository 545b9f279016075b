-- ===== src/Sdp/Codecs.antt =====
-- src/sdp_filter.cpp: lists of codecs that are cut down to one, and the arrangement of the codecs that
-- were negotiated before after those of an answer.
use sems_yeti.Prelude.{
  Bool, true, not, ◌||◌, List, [], ◌∷◌, ◌++◌, none, some, if◌then◌else◌, is_nil,
}
use sems_yeti.Sdp.{
  Core, Media, Payload, is_audio, find_payload, contains_payload, is_only_event, is_telephone_event,
}

module _ (core : Core) where
  unfoldable pub add_codec : List Payload → Payload → Bool → List Payload
  add_codec pl p single_codec =
      if not single_codec || is_nil pl || is_only_event core pl || is_telephone_event core p
      then pl ++ p ∷ []
      else pl

  -- The loop of calls of `add_codec`, from the list `pl`.
  unfoldable pub add_codecs : Bool → List Payload → List Payload → List Payload
  unfolding add_codec
  add_codecs single_codec pl [] = pl
  add_codecs single_codec pl (p ∷ ps) = add_codecs single_codec (add_codec pl p single_codec) ps

  unfoldable pub reduce_codecs_to_single : List Media → List Media
  unfolding add_codecs
  reduce_codecs_to_single [] = []
  reduce_codecs_to_single (m ∷ ms) =
      (if is_audio m.type then record m { payloads = add_codecs true [] m.payloads } else m)
      ∷ reduce_codecs_to_single ms

  -- The codecs of the answer that were negotiated, as they were negotiated.
  unfoldable pub answered : Bool → Media → List Payload → List Payload → List Payload
  unfolding add_codec
  answered single_codec other pl [] = pl
  answered single_codec other pl (f ∷ fs) =
      elim (find_payload core other.payloads f other.transport) [
        | none ↦ answered single_codec other pl fs
        | some p ↦ answered single_codec other (add_codec pl p single_codec) fs
      ]

  -- Behind them, the negotiated codecs that the answer does not have.
  unfoldable pub unanswered : Bool → Media → List Payload → List Payload → List Payload
  unfolding add_codec
  unanswered single_codec m pl [] = pl
  unanswered single_codec m pl (p ∷ ps) =
      unanswered single_codec m
        (if contains_payload core m.payloads p m.transport then pl else add_codec pl p single_codec)
        ps

  -- The payloads of an audio stream `m` of the answer, for the stream `other` that was negotiated; both
  -- have one transport by then.
  unfoldable pub answer_payloads : Bool → Bool → Media → Media → List Payload
  unfolding add_codecs answered unanswered
  answer_payloads avoid_transcoding single_codec other m =
      if avoid_transcoding
      then unanswered single_codec m (answered single_codec other [] m.payloads) other.payloads
      else add_codecs single_codec [] other.payloads
