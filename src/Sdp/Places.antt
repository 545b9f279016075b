-- ===== src/Sdp/Places.antt =====
-- src/sdp_filter.cpp: where an SDP has its connection lines, for the session or for each stream.
use sems_yeti.Prelude.{
  Bool, true, false, not, ◌&&◌, List, [], ◌∷◌, Option, none, some, if◌then◌else◌, is_nil, map,
}
use sems_yeti.Sdp.{Core, Connection, Sdp, Media}

pub data Location : Type 0 where
  both session_only media_only : Location
  unknown_location : Location

abbrev pub has_address : Connection → Bool
has_address c = not (is_nil c.address)

module _ (core : Core) where
  -- `all_media_conn_equal`: whether all are equal, and the connection `conn` as it is left.
  unfoldable pub all_equal : List Media → Connection → Bool × Connection
  all_equal [] conn = (true, conn)
  all_equal (m ∷ ms) conn =
      let first = all_equal ms m.conn in
      let rest = all_equal ms conn in
      if not (has_address m.conn)
      then rest
      else (if not (has_address conn)
          then first
          else (if core.conn_eq conn m.conn then rest else (false, conn)))

  -- The connection that the streams give the session, if any.
  unfoldable pub session_conn : List Media → Option Connection
  unfolding all_equal
  session_conn [] = none
  session_conn (m ∷ []) = if has_address m.conn then some m.conn else none
  session_conn (m ∷ n ∷ ms) =
      let (equal, conn) = all_equal (m ∷ n ∷ ms) core.no_conn in
      if equal && has_address conn then some conn else none

  -- Whether there is a connection for the session then, and the SDP.
  unfoldable pub assert_session_conn : Sdp → Bool × Sdp
  unfolding session_conn
  assert_session_conn sdp =
      if has_address sdp.conn then (true, sdp) else elim (session_conn sdp.media) [
        | none ↦ (false, sdp)
        | some c ↦ (true, record sdp { conn = c })
      ]

  abbrev pub inherit : Connection → Media → Media
  inherit c m = if has_address m.conn then m else record m { conn = c }

  unfoldable pub assert_media_conn : Sdp → Sdp
  assert_media_conn sdp =
      if has_address sdp.conn then record sdp { media = map (inherit sdp.conn) sdp.media } else sdp

  abbrev pub forget : Media → Media
  forget m = if has_address m.conn then record m { conn = core.no_conn } else m

  unfoldable pub remove_media_conn : Sdp → Sdp
  remove_media_conn sdp = record sdp { media = map forget sdp.media }

  unfoldable pub normalize_conn_location : Sdp → Location → Sdp
  unfolding assert_session_conn assert_media_conn remove_media_conn
  normalize_conn_location sdp both = assert_media_conn (assert_session_conn sdp).1
  normalize_conn_location sdp session_only =
      let (found, sdp') = assert_session_conn sdp in if found then remove_media_conn sdp' else sdp'
  normalize_conn_location sdp media_only =
      let sdp' = assert_media_conn (assert_session_conn sdp).1 in
      record sdp' { conn = core.no_conn }
  normalize_conn_location sdp unknown_location = sdp
