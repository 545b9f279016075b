-- ===== src/Sdp/Kept.antt =====
-- What `normalize_conn_location` does to the connection that is in force for a stream.
use sems_yeti.Prelude.{
  ℕ, zero, suc, ◌≡◌, refl, ap, ◌∙◌, ◌⊎◌, inl, inr, Bool, true, false, ◌&&◌, List, [], ◌∷◌, some,
  map, arith, if◌then◌else◌, get_elem?, Bool-cases, Option-cases,
}
use sems_yeti.Sdp.{Core, Connection, Sdp, Media}
use sems_yeti.Sdp.Places.{
  Location, both, session_only, media_only, unknown_location, has_address, all_equal, session_conn,
  assert_session_conn, assert_media_conn, remove_media_conn, inherit, forget,
  normalize_conn_location,
}

-- The connection of a stream: its own, or that of the session.
abbrev pub place : Connection → Media → Connection
place c m = if has_address m.conn then m.conn else c

abbrev pub is_session_only : Location → Bool
is_session_only session_only = true
is_session_only _ = false

abbrev pub places : Sdp → List Connection
places sdp = map (place sdp.conn) sdp.media

-- Every stream has no connection of its own, or this one.
abbrev Agree : Connection → List Media → Type 0
Agree c [] = Unit {0}
Agree c (m ∷ ms) = ((has_address m.conn ≡ false) ⊎ (m.conn ≡ c)) × Agree c ms

module _ (core : Core) (eq_sound : (a b : Connection) → core.conn_eq a b ≡ true → a ≡ b)
    (none_empty : has_address core.no_conn ≡ false) where
  -- With a connection to begin with, all are equal to it.
  all_equal-Agree :
      (ms : List Media) (conn : Connection)
      → has_address conn ≡ true
      → (all_equal core ms conn).0 ≡ true
      → ((all_equal core ms conn).1 ≡ conn) × Agree conn ms
  unfolding all_equal
  all_equal-Agree [] conn h e = (refl, tt)
  all_equal-Agree (m ∷ ms) conn h e = ground (arith, all_equal-Agree ms conn, eq_sound conn m.conn)

  all_equal-found :
      (ms : List Media) (conn : Connection)
      → has_address conn ≡ false
      → (all_equal core ms conn).0 ≡ true
      → has_address (all_equal core ms conn).1 ≡ true
      → Agree (all_equal core ms conn).1 ms
  unfolding all_equal
  all_equal-found [] conn h e k = tt
  all_equal-found (m ∷ ms) conn h e k =
      ground (arith, all_equal-found ms conn, all_equal-Agree ms m.conn)

  session_conn-Agree :
      (ms : List Media) (c : Connection)
      → session_conn core ms ≡ some c
      → (has_address c ≡ true) × Agree c ms
  unfolding session_conn
  session_conn-Agree [] c e = cc
  session_conn-Agree (m ∷ []) c e = ground arith
  session_conn-Agree (m ∷ n ∷ ms) c e =
      ground (arith, none_empty, all_equal-found (m ∷ n ∷ ms) core.no_conn)

  assert_session_conn-media : (sdp : Sdp) → (assert_session_conn core sdp).1.media ≡ sdp.media
  unfolding assert_session_conn
  assert_session_conn-media sdp = ground arith

  assert_session_conn-own :
      (sdp : Sdp) → has_address sdp.conn ≡ true → (assert_session_conn core sdp).1 ≡ sdp
  unfolding assert_session_conn
  assert_session_conn-own sdp h = ground arith

  assert_session_conn-found :
      (sdp : Sdp)
      → has_address sdp.conn ≡ false
      → (assert_session_conn core sdp).0 ≡ true
      → (has_address (assert_session_conn core sdp).1.conn ≡ true)
        × Agree (assert_session_conn core sdp).1.conn sdp.media
  unfolding assert_session_conn
  assert_session_conn-found sdp h e = elim (Option-cases (session_conn core sdp.media)) [
    | inl gone ↦ ground arith
    | inr (c, there) ↦ ground (arith, session_conn-Agree sdp.media c there)
  ]

  -- What the loops make of one stream keeps its connection.
  Agree-at :
      (c : Connection) (ms : List Media) (i : ℕ) (m : Media)
      → Agree c ms
      → get_elem? ms i ≡ some m
      → (has_address m.conn ≡ false) ⊎ (m.conn ≡ c)
  Agree-at c [] i m a h = cc
  Agree-at c (n ∷ ms) zero m (a, b) h = ground arith
  Agree-at c (n ∷ ms) (suc i) m (a, b) h = Agree-at c ms i m b h

  get_map :
      (f : Media → Media) (g : Media → Connection) (ms : List Media) (i : ℕ) (m : Media)
      → get_elem? ms i ≡ some m
      → get_elem? (map g (map f ms)) i ≡ some (g (f m))
  get_map f g [] i m h = cc
  get_map f g (n ∷ ms) zero m h = cc
  get_map f g (n ∷ ms) (suc i) m h = get_map f g ms i m h

  get_places :
      (g : Media → Connection) (ms : List Media) (i : ℕ) (m : Media)
      → get_elem? ms i ≡ some m
      → get_elem? (map g ms) i ≡ some (g m)
  get_places g [] i m h = cc
  get_places g (n ∷ ms) zero m h = cc
  get_places g (n ∷ ms) (suc i) m h = get_places g ms i m h

  module _ (sdp : Sdp) (i : ℕ) (m : Media) (h : get_elem? sdp.media i ≡ some m) where
    asserted-place :
        has_address (place sdp.conn m) ≡ true
        → place (assert_session_conn core sdp).1.conn m ≡ place sdp.conn m
    asserted-place k = elim (Bool-cases (has_address sdp.conn)) [
      | inl own ↦ rw (assert_session_conn-own sdp own)
      | inr no_own ↦ ground arith
    ]

    asserted-at : get_elem? (assert_session_conn core sdp).1.media i ≡ some m
    asserted-at = rw (assert_session_conn-media sdp) h

    -- The streams under the session's connection.
    media_conn-at :
        (t : Sdp)
        → get_elem? t.media i ≡ some m
        → get_elem? (places (assert_media_conn core t)) i ≡ some (place t.conn m)
    unfolding assert_media_conn
    media_conn-at t e = ground (
      arith,
      get_map (inherit core t.conn) (place t.conn) t.media i m,
      get_places (place t.conn) t.media i m,
    )

    media_only-at :
        (t : Sdp) (c : Connection)
        → get_elem? t.media i ≡ some m
        → has_address (place t.conn m) ≡ true
        → get_elem? (map (place c) (assert_media_conn core t).media) i ≡ some (place t.conn m)
    unfolding assert_media_conn
    media_only-at t c e k = ground (
      arith,
      get_map (inherit core t.conn) (place c) t.media i m,
      get_places (place c) t.media i m,
    )

    session_only-at :
        has_address (place sdp.conn m) ≡ true
        → has_address sdp.conn ≡ false
        → get_elem? (places (normalize_conn_location core sdp session_only)) i
          ≡ some (place sdp.conn m)
    unfolding normalize_conn_location remove_media_conn
    session_only-at k n = elim (Bool-cases (assert_session_conn core sdp).0) [
      | inl found ↦
          let t = (assert_session_conn core sdp).1 in
          ground (
            arith,
            found,
            assert_session_conn-found sdp n found,
            Agree-at t.conn sdp.media i m,
            asserted-place k,
            asserted-at,
            none_empty,
            get_map (forget core) (place t.conn) t.media i m,
          )
      | inr no_conn ↦
          let t = (assert_session_conn core sdp).1 in
          ground
            (arith, no_conn, get_places (place t.conn) t.media i m asserted-at, asserted-place k)
    ]

  -- For each stream of an SDP that has a connection in force, its own or else that of the session,
  -- normalize_conn_location leaves that connection in force for the same stream, whatever the location
  -- asked for, unless that is the session only and the session has a connection already. What is asked of
  -- the core is that equal connections are the same and that SdpConnection() has no address.
  pub normalize_keeps_places :
      (sdp : Sdp) (location : Location) (i : ℕ) (m : Media)
      → get_elem? sdp.media i ≡ some m
      → has_address (place sdp.conn m) ≡ true
      → is_session_only location && has_address sdp.conn ≡ false
      → get_elem? (places (normalize_conn_location core sdp location)) i ≡ some (place sdp.conn m)
  unfolding normalize_conn_location
  normalize_keeps_places sdp both i m h k n =
      media_conn-at sdp i m h (assert_session_conn core sdp).1 (asserted-at sdp i m h)
      ∙ ap some (asserted-place sdp i m h k)
  normalize_keeps_places sdp session_only i m h k n = session_only-at sdp i m h k n
  normalize_keeps_places sdp media_only i m h k n = ground (
    arith,
    media_only-at sdp i m h (assert_session_conn core sdp).1 core.no_conn,
    asserted-at sdp i m h,
    asserted-place sdp i m h k,
  )
  normalize_keeps_places sdp unknown_location i m h k n =
      get_places (place sdp.conn) sdp.media i m h

module _ (core : Core) (none_empty : has_address core.no_conn ≡ false) where
  forgotten :
      (c : Connection) (ms : List Media) → map (place c) (map (forget core) ms) ≡ map (λ _. c) ms
  forgotten c [] = refl
  forgotten c (m ∷ ms) = ground (arith, none_empty, forgotten c ms)

  -- For every SDP whose session has a connection: when normalize_conn_location is asked for the session
  -- only, the session's connection is in force for each stream of its result, whatever connection of its
  -- own the stream had. What is asked of the core is that SdpConnection() has no address.
  pub session_only_overrides :
      (sdp : Sdp)
      → has_address sdp.conn ≡ true
      → places (normalize_conn_location core sdp session_only) ≡ map (λ _. sdp.conn) sdp.media
  unfolding normalize_conn_location assert_session_conn remove_media_conn
  session_only_overrides sdp h = rw h (forgotten sdp.conn sdp.media)
