-- ===== src/Sdp/Kinds.antt =====
-- The steps of src/sdp_filter.cpp and src/SDPFilter.cpp keep the number and the types of the streams.
use sems_yeti.Prelude.{
  ℕ, ◌+◌, ◌≡◌, refl, ◌∙◌, inl, inr, Bool, true, false, List, [], ◌∷◌, map, Option, some,
  if◌then◌else◌, arith, Option-cases,
}
use sems_yeti.Sdp.{Core, Sdp, Media, Payload, is_audio}
use sems_yeti.Sdp.Answer.{types}
use sems_yeti.Sdp.Arrange.{
  arrange_media, arrange, filter_arrange_sdp, disable_no_audio, filter_no_audio_streams,
}
use sems_yeti.Sdp.Codecs.{reduce_codecs_to_single}
use sems_yeti.Sdp.Filters.{FilterEntry, filter_sdp_alines}
use sems_yeti.Sdp.Lines.{filter_sdp_alines_one_pass}
use sems_yeti.Sdp.Passing.{passing_media}
use sems_yeti.Sdp.Mapping.{
  Masks, PayloadIdMapping, fix_streams, fix_payloads, pseudo_dynamic, fix_dynamic_payloads,
}
use sems_yeti.Sdp.Places.{
  Location, both, session_only, media_only, unknown_location, inherit, forget, assert_session_conn,
  assert_media_conn, remove_media_conn, normalize_conn_location,
}
use sems_yeti.Sdp.Process.{activate, fix_media_activity, clear_media_ice, clear_ice_params}

pub types-map :
    (f : Media → Media) (ms : List Media)
    → ((m : Media) → (f m).type ≡ m.type)
    → types (map f ms) ≡ types ms
types-map f [] h = refl
types-map f (m ∷ ms) h = ground (arith, h m, types-map f ms h)

arrange-types :
    (core : Core) (static : List Payload) (add : Bool) (ms : List Media)
    → types (arrange core static add ms).media ≡ types ms
unfolding arrange arrange_media
arrange-types core static add [] = refl
arrange-types core static add (m ∷ ms) = ground (arith, arrange-types core static add ms)

pub filter_arrange-types :
    (core : Core) (static : List Payload) (add : Bool) (sdp : Sdp)
    → types (filter_arrange_sdp core static add sdp).1.media ≡ types sdp.media
unfolding filter_arrange_sdp
filter_arrange-types core static add sdp = arrange-types core static add sdp.media

pub alines-types :
    (es : List FilterEntry) (sdp : Sdp) → types (filter_sdp_alines es sdp).media ≡ types sdp.media
alines-types es sdp =
    rw (filter_sdp_alines_one_pass es sdp) (types-map (passing_media es) sdp.media λ m. refl)

disable_no_audio-types : (ms : List Media) → types (disable_no_audio ms) ≡ types ms
unfolding disable_no_audio
disable_no_audio-types [] = refl
disable_no_audio-types (m ∷ ms) = ground (arith, disable_no_audio-types ms)

pub no_audio-types :
    (sdp : Sdp) (filter : Bool)
    → types (filter_no_audio_streams sdp filter).1.media ≡ types sdp.media
unfolding filter_no_audio_streams
no_audio-types sdp filter = ground (arith, disable_no_audio-types sdp.media)

pub activity-types :
    (hold : Bool) (sdp : Sdp) → types (fix_media_activity hold sdp).media ≡ types sdp.media
activity-types true sdp = types-map activate sdp.media λ m. ground arith
activity-types false sdp = refl

pub reduce-types :
    (core : Core) (ms : List Media) → types (reduce_codecs_to_single core ms) ≡ types ms
unfolding reduce_codecs_to_single
reduce-types core [] = refl
reduce-types core (m ∷ ms) = ground (arith, reduce-types core ms)

pub clear_ice-types : (sdp : Sdp) → types (clear_ice_params sdp).media ≡ types sdp.media
unfolding clear_ice_params
clear_ice-types sdp = types-map clear_media_ice sdp.media λ m. refl

media_conn-types :
    (core : Core) (sdp : Sdp) → types (assert_media_conn core sdp).media ≡ types sdp.media
unfolding assert_media_conn
media_conn-types core sdp =
    ground (arith, types-map (inherit core sdp.conn) sdp.media λ (m : Media). ground arith)

session_conn-types :
    (core : Core) (sdp : Sdp) → types (assert_session_conn core sdp).1.media ≡ types sdp.media
unfolding assert_session_conn
session_conn-types core sdp = ground arith

pub conn-types :
    (core : Core) (sdp : Sdp) (location : Location)
    → types (normalize_conn_location core sdp location).media ≡ types sdp.media
unfolding normalize_conn_location remove_media_conn
conn-types core sdp both =
    media_conn-types core (assert_session_conn core sdp).1 ∙ session_conn-types core sdp
conn-types core sdp media_only =
    media_conn-types core (assert_session_conn core sdp).1 ∙ session_conn-types core sdp
conn-types core sdp unknown_location = refl
conn-types core sdp session_only =
    let t = (assert_session_conn core sdp).1 in
    ground (
      arith,
      types-map (forget core) t.media λ (m : Media). ground arith,
      session_conn-types core sdp,
    )

module _ {Mask : Type 0} (masks : Masks Mask) (core : Core) (limit : ℕ) where
  fix_streams-types :
      (i : ℕ) (mapping : PayloadIdMapping) (ms rest : List Media) (mapping' : PayloadIdMapping)
      → fix_streams masks core limit i mapping ms ≡ some (rest, mapping')
      → types rest ≡ types ms
  unfolding fix_streams
  fix_streams-types i mapping [] rest mapping' h = ground arith
  fix_streams-types i mapping (m ∷ ms) rest mapping' h =
      let first : Option (List Payload × PayloadIdMapping) =
        if is_audio m.type
        then fix_payloads masks core limit (pseudo_dynamic masks core limit m.payloads masks.empty)
            i 0 core.dynamic_start masks.empty mapping m.payloads
        else some (m.payloads, mapping) in
      let j = if is_audio m.type then i + 1 else i in
      elim (Option-cases first) [
        | inl gone ↦ ground (arith, gone)
        | inr ((ps, next), numbered) ↦
            elim (Option-cases (fix_streams masks core limit j next ms)) [
              | inl gone ↦ ground (arith, numbered, gone)
              | inr ((others, last), done_) ↦
                  ground (arith, numbered, done_, fix_streams-types j next ms others last)
            ]
      ]

  pub fix_dynamic-types :
      (sdp sdp' : Sdp) (mapping mapping' : PayloadIdMapping)
      → fix_dynamic_payloads masks core limit sdp mapping ≡ some (sdp', mapping')
      → types sdp'.media ≡ types sdp.media
  unfolding fix_dynamic_payloads
  fix_dynamic-types sdp sdp' mapping mapping' h =
      elim (Option-cases (fix_streams masks core limit 0 mapping sdp.media)) [
        | inl gone ↦ ground (arith, gone)
        | inr ((ms, next), there) ↦
            ground (arith, there, fix_streams-types 0 mapping sdp.media ms next there)
      ]
