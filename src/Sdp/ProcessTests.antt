-- ===== src/Sdp/ProcessTests.antt =====
-- The treatment of offers and answers at concrete sessions.
use sems_yeti.Prelude.{
  ℕ, ◌≡◌, refl, ◌==◌, ◌==◌, Bool, true, false, List, [], ◌∷◌, take, some, arith, is_nil,
}
use sems_yeti.Prelude.{◌||◌, length}
use sems_yeti.Sdp.Places.{both}
use sems_yeti.Prelude.Int.{pos}
use sems_yeti.Prelude.Classes.{Text, codes}
use sems_yeti.Sdp.{
  audio, video, rtpavp, Payload, Media, Sdp, done, find_payload, contains_payload,
  is_telephone_event,
}
use sems_yeti.Sdp.Places.{normalize_conn_location}
use sems_yeti.Sdp.Filters.{filter_sdp_alines}
use sems_yeti.Sdp.Streams.{filter_sdp_answer_media, streams_types}
use sems_yeti.Sdp.Answer.{types}
use sems_yeti.Sdp.Codecs.{answer_payloads, answer_payloads}
use sems_yeti.Sdp.Arrange.{cut_no_audio_streams, filter_arrange_sdp}
use sems_yeti.Sdp.Samples.{
  negotiated, answer, empty_conn, conn_a, conn_b, core, pcma, pcmu, dtmf, speech, film, session,
}
use sems_yeti.Prelude.Map.{Map, find}
use sems_yeti.Prelude.Classes.{nat_eq}
use sems_yeti.Sdp.Filters.{filter_sdp_alines}
use sems_yeti.Sdp.Arrange.{cut_no_audio_streams, filter_no_audio_streams, filter_arrange_sdp}
use sems_yeti.Sdp.Codecs.{answer_payloads, reduce_codecs_to_single}
use sems_yeti.Sdp.Places.{normalize_conn_location}
use sems_yeti.Sdp.Streams.{filter_sdp_answer_media}
use sems_yeti.Sdp.{contains_payload}
use sems_yeti.Sdp.Process.{clear_ice_params}
use sems_yeti.Sdp.Relay.{filter_sdp_offer, normalized, answer_steps}
use sems_yeti.Sdp.Mapping.{
  fix_streams, fix_payloads, choose_id, map_id, Masks, PayloadIdMapping, fix_dynamic_payloads,
}
use sems_yeti.Sdp.Distinct.{Remembers}
use sems_yeti.Sdp.Numbered.{AllNumbered, fix_dynamic_payloads_distinct}
use sems_yeti.Sdp.Process.{Wire, Profile, Leg}
use sems_yeti.Sdp.Offer.{process_sdp_offer, local_check, arrange_offer}
use sems_yeti.Sdp.Relay.{filter_sdp_offer, process_sdp_answer}
use sems_yeti.Sdp.Relayed.{process_sdp_offer-types, process_sdp_offer_refuses}
use sems_yeti.Sdp.Accepted.{process_sdp_answer-types}

-- A set of numbers as its test.
abbrev masks : Masks (ℕ → Bool)
masks = record { empty = λ j. false; get = λ mask j. mask j; set = λ mask i j. i == j || mask j }

nothing_remembered : Remembers 128 []
unfolding find
nothing_remembered k = omega arith

fix_dynamic_payloads_distinct_example :
    (sdp' : Sdp) × (mapping' : PayloadIdMapping) × (fix_dynamic_payloads masks core 128 session []
      ≡ some (sdp', mapping'))
    × AllNumbered 128 sdp'.media
    × Remembers 128 mapping'
    × (length sdp'.media ≡ 2)
fix_dynamic_payloads_distinct_example =
    fix_dynamic_payloads_distinct masks core 128 (λ j. refl) (λ mask i j h k. refl) session []
      (omega arith) nothing_remembered

-- A body is its SDP; it parses as one of three sessions.
abbrev wire : Sdp → Wire Text
wire sdp = record {
  is_empty = is_nil;
  sdp_body = λ b. some b;
  set_payload = λ b t. t;
  parse = λ t. some sdp;
  print = λ s. codes "printed";
  is_hold = λ s. false;
  parts = λ t. 5;
}

abbrev leg : Leg
leg = record {
  a_leg = true;
  transcoder_mapping = [];
  sdp_session_version = 0;
  sdp_session_offer_last_cseq = 0;
  sdp_session_answer_last_cseq = 0;
}

abbrev profile : Profile
profile = record {
  sdpalinesfilter = [];
  bleg_sdpalinesfilter = [];
  filter_noaudio_streams = true;
  rtprelay_enabled = true;
  avoid_transcoding = true;
  aleg_media_transport = rtpavp;
  bleg_media_transport = rtpavp;
  aleg_conn_location = both;
  bleg_conn_location = both;
}

abbrev groups : Map ℕ (List Payload)
groups = (7, pcma ∷ dtmf ∷ []) ∷ []

abbrev kept : List Media
kept = speech conn_a (pcma ∷ dtmf ∷ []) ∷ record film { port = 0 } ∷ []

offer_accepted :
    process_sdp_offer
      (wire session)
      core
      groups
      profile
      leg
      (codes "offer")
      (codes "INVITE")
      (speech conn_b [] ∷ [])
      7
      true
      true
    ≡ done (0, codes "printed", kept)
unfolding process_sdp_offer local_check find arrange_offer filter_arrange_sdp find_payload
    filter_no_audio_streams filter_sdp_alines is_telephone_event reduce_codecs_to_single
offer_accepted = refl

process_sdp_offer-types_example : types (take 1 kept) ≡ audio ∷ []
process_sdp_offer-types_example =
    process_sdp_offer-types (wire session) core groups profile leg (codes "offer") (codes "printed")
      (codes "INVITE") (speech conn_b [] ∷ []) kept 7 true offer_accepted

-- A film was negotiated, and the first stream that is offered is speech.
process_sdp_offer_refuses_example :
    process_sdp_offer
      (wire session)
      core
      groups
      profile
      leg
      (codes "offer")
      (codes "INVITE")
      (film ∷ [])
      7
      true
      true
    ≡ done (streams_types, codes "offer", film ∷ [])
process_sdp_offer_refuses_example =
    process_sdp_offer_refuses (wire session) core groups profile leg (codes "offer")
      (codes "INVITE") (codes "offer") (film ∷ []) session 7 true refl refl refl refl

abbrev answered_body : Sdp
answered_body = record session { media = answer }

abbrev leg_after : Leg
leg_after = record leg {
  sdp_session_version = 1;
  transcoder_mapping = (0, pos 0) ∷ (1, pos 101) ∷ [];
  sdp_session_answer_last_cseq = 2;
}

abbrev relayed : List Media
relayed = speech conn_a (pcmu ∷ dtmf ∷ []) ∷ record film { conn = conn_a } ∷ []

answer_accepted :
    process_sdp_answer
      (wire answered_body)
      core
      groups
      masks
      128
      profile
      leg
      2
      (codes "answer")
      (codes "INVITE")
      negotiated
      true
      true
      true
    ≡ some (done (codes "printed", relayed), leg_after)
unfolding process_sdp_answer answer_steps filter_sdp_answer_media find_payload contains_payload
    is_telephone_event fix_dynamic_payloads filter_sdp_alines normalize_conn_location
    clear_ice_params normalized fix_streams fix_payloads answer_payloads choose_id map_id
answer_accepted = refl

process_sdp_answer-types_example : types relayed ≡ audio ∷ video ∷ []
process_sdp_answer-types_example =
    process_sdp_answer-types (wire answered_body) core groups masks 128 profile leg leg_after 2
      (codes "answer") (codes "printed") (codes "INVITE")
      (speech empty_conn (pcma ∷ pcmu ∷ dtmf ∷ [])) (film ∷ []) relayed true true true refl
      answer_accepted

abbrev sent_leg : Leg
sent_leg = record leg {
  sdp_session_version = 1;
  transcoder_mapping = (0, pos 8) ∷ (1, pos 101) ∷ [];
  sdp_session_offer_last_cseq = 2;
}
