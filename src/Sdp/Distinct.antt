-- ===== src/Sdp/Distinct.antt =====
-- src/sdp_filter.cpp: `fix_dynamic_payloads` ends, and gives each payload of a stream a number of its own.
use sems_yeti.Prelude.{
  ℕ, zero, suc, ◌+◌, ◌-◌, ◌≤◌, ◌<◌, ◌==◌, ==_iff, ◌≡◌, refl, ap, inl, inr, Bool, false, ◌||◌, List,
  [], ◌∷◌, some, if◌then◌else◌, arith, Bool-cases, length,
}
use sems_yeti.Prelude.Int.{ℤ, pos, pos_part, ltb_ℤ, leb_ℤ}
use sems_yeti.Prelude.Classes.{nat_eq}
use sems_yeti.Prelude.Map.{find, find-assign}
use sems_yeti.Sdp.{Core, Payload}
use sems_yeti.Sdp.Mapping.{
  Masks, PayloadIdMapping, map_indexes, map_id, or_unmapped, get_id, free_id, pseudo_dynamic,
  choose_id, known_id, fix_payloads,
}

-- How many of the numbers id, …, id + n - 1 are not taken.
abbrev pub room : ℕ → (ℕ → Bool) → ℕ → ℕ
room zero t id = 0
room (suc n) t id = let r = room n t (id + 1) in if t id then r else r + 1

-- The search ends at the first number that is not taken, and has passed only taken ones.
free_id-found :
    (n : ℕ) (t : ℕ → Bool) (id : ℕ)
    → 0 < room n t id
    → (k : ℕ) × (free_id n t id ≡ some (id + k))
      × (k < n)
      × (t (id + k) ≡ false)
      × (room n t id ≡ room (n - k) t (id + k))
unfolding free_id
free_id-found zero t id h = absurd (omega arith)
free_id-found (suc n) t id h = elim (Bool-cases (t id)) [
  | inr free ↦ (0, ground (arith, free), omega arith, ground (arith, free), ground (arith, free))
  | inl taken ↦
      let (k, found, below, open_, same) = free_id-found n t (id + 1) (ground (arith, taken)) in
      let e : id + 1 + k ≡ id + (k + 1) = omega arith in
      let f : suc n - (k + 1) ≡ n - k = omega arith in
      (
        k + 1,
        ground (arith, taken, found, e),
        omega arith,
        rw (← e) open_,
        ground (arith, taken, same, e, f),
      )
]

module _ (t t' : ℕ → Bool) (i : ℕ) where
  room-before :
      (n id : ℕ)
      → i < id
      → ((j : ℕ) → j < id + n → t' j ≡ (i == j || t j))
      → room n t id ≡ room n t' id
  room-before zero id l h = refl
  room-before (suc n) id l h = ground (
    arith,
    h id,
    room-before n (id + 1) (omega arith) λ (j : ℕ) (b : j < id + 1 + n). h j (omega arith),
  )

  room-set :
      (n id : ℕ) → ((j : ℕ) → j < id + n → t' j ≡ (i == j || t j)) → room n t id ≤ room n t' id + 1
  room-set zero id h = omega arith
  room-set (suc n) id h =
      let rest = λ (j : ℕ) (b : j < id + 1 + n). h j (omega arith) in
      elim (Bool-cases (i == id)) [
        | inl here ↦
            let e : i ≡ id = (==_iff i id).0 here in
            ground (arith, h id (omega arith), here, room-before n (id + 1) (omega (arith, e)) rest)
        | inr there ↦ ground (arith, h id (omega arith), there, room-set n (id + 1) rest)
      ]

-- The payloads have numbers that the mask does not have, and each another.
abbrev pub Fresh : {Mask : Type 0} → Masks Mask → ℕ → Mask → List Payload → Type 0
Fresh masks limit used [] = Unit {0}
Fresh masks limit used (p ∷ ps) =
    (p.payload_type ≡ pos (pos_part p.payload_type))
    × (pos_part p.payload_type < limit)
    × (masks.get used (pos_part p.payload_type) ≡ false)
    × Fresh masks limit (masks.set used (pos_part p.payload_type)) ps

abbrev pub Below : ℕ → List Payload → Type 0
Below limit [] = Unit {0}
Below limit (p ∷ ps) = (pos_part p.payload_type < limit) × Below limit ps

-- Every number that the leg remembers is below the limit.
abbrev pub Remembers : ℕ → PayloadIdMapping → Type 0
Remembers limit mapping = (k : ℕ) → pos_part (or_unmapped (find k mapping)) < limit

Remembers-map_id :
    (limit stream_idx idx n : ℕ) (mapping : PayloadIdMapping)
    → n < limit
    → Remembers limit mapping
    → Remembers limit (map_id stream_idx idx (pos n) mapping)
unfolding map_id
Remembers-map_id limit stream_idx idx n mapping b r k =
    rw (find-assign (map_indexes stream_idx idx) k (pos n) mapping) (ground (arith, r k))

module _ {Mask : Type 0} (masks : Masks Mask) (core : Core) (limit : ℕ)
    (get_empty : (j : ℕ) → masks.get masks.empty j ≡ false)
    (get_set : (mask : Mask) (i j : ℕ)
      → i < limit
      → j < limit
      → masks.get (masks.set mask i) j ≡ (i == j || masks.get mask j)) where
  abbrev pub taken : Mask → Mask → ℕ → Bool
  taken used pseudo j = masks.get used j || masks.get pseudo j

  taken-set :
      (used pseudo : Mask) (i j : ℕ)
      → i < limit
      → j < limit
      → taken (masks.set used i) pseudo j ≡ (i == j || taken used pseudo j)
  taken-set used pseudo i j h k = ground (arith, get_set used i j)

  -- After one more number is used there is room for all but one of the numbers that there was room for.
  room-used :
      (used pseudo : Mask) (i id : ℕ)
      → i < limit
      → id ≤ limit
      → room (limit - id) (taken used pseudo) id
        ≤ room (limit - id) (taken (masks.set used i) pseudo) id + 1
  room-used used pseudo i id h l =
      room-set (taken used pseudo) (taken (masks.set used i) pseudo) i (limit - id) id
        λ j b. taken-set used pseudo i j h (omega arith)

  choose_id-fresh :
      (pseudo used : Mask) (id : ℕ) (pid : ℤ)
      → id ≤ limit
      → pos_part pid < limit
      → 0 < room (limit - id) (taken used pseudo) id
      → (n id' : ℕ) × (choose_id masks core limit pseudo used id pid ≡ some (n, id'))
        × (n < limit)
        × (id' ≤ limit)
        × (masks.get used n ≡ false)
        × (room (limit - id) (taken used pseudo) id
            ≤ room (limit - id') (taken (masks.set used n) pseudo) id' + 1)
  unfolding choose_id
  choose_id-fresh pseudo used id pid l b h =
      elim (Bool-cases (ltb_ℤ pid (pos 0) || masks.get used (pos_part pid))) [
        | inr keep ↦ (
          pos_part pid,
          id,
          ground (arith, keep),
          b,
          l,
          ground (arith, keep),
          room-used used pseudo (pos_part pid) id b l,
        )
        | inl search_ ↦
            let (k, found, below, open_, same) =
              free_id-found (limit - id) (taken used pseudo) id h in
            let n : id + k < limit = omega arith in
            let e : limit - id - k ≡ limit - (id + k) = omega arith in
            (
              id + k,
              id + k,
              ground (arith, search_, found),
              n,
              omega arith,
              ground (arith, open_),
              ground (arith, same, e, room-used used pseudo (id + k) (id + k)),
            )
      ]

  known_id-below :
      (stream_idx idx : ℕ) (p : Payload) (mapping : PayloadIdMapping)
      → pos_part p.payload_type < limit
      → Remembers limit mapping
      → pos_part (known_id masks core limit stream_idx idx p mapping) < limit
  unfolding get_id
  known_id-below stream_idx idx p mapping b r = ground (arith, r (map_indexes stream_idx idx))

  pub fix_payloads-Fresh :
      (pseudo used : Mask) (stream_idx idx id : ℕ) (mapping : PayloadIdMapping) (ps : List Payload)
      → id ≤ limit
      → Below limit ps
      → Remembers limit mapping
      → length ps ≤ room (limit - id) (taken used pseudo) id
      → (rest : List Payload) × (mapping' : PayloadIdMapping) × (fix_payloads masks core limit
            pseudo stream_idx idx id used mapping ps
          ≡ some (rest, mapping'))
        × Fresh masks limit used rest
        × Remembers limit mapping'
        × (length rest ≡ length ps)
  unfolding fix_payloads
  fix_payloads-Fresh pseudo used stream_idx idx id mapping [] l b r h =
      ([], mapping, refl, tt, r, refl)
  fix_payloads-Fresh pseudo used stream_idx idx id mapping (p ∷ ps) l (b, bs) r h =
      let (n, id', chosen, below, l', fresh, room') =
        choose_id-fresh pseudo used id (known_id masks core limit stream_idx idx p mapping) l
          (known_id-below stream_idx idx p mapping b r) (omega arith) in
      let (rest, mapping', done_, all, r', same) =
        fix_payloads-Fresh pseudo (masks.set used n) stream_idx (idx + 1) id'
          (map_id stream_idx idx (pos n) mapping) ps l' bs
          (Remembers-map_id limit stream_idx idx n mapping below r) (omega arith) in
      (
        record p { payload_type = pos n } ∷ rest,
        mapping',
        ground (arith, chosen, done_),
        (refl, below, fresh, all),
        r',
        ap suc same,
      )

  pub room-empty :
      (t : ℕ → Bool) (n id : ℕ) → ((j : ℕ) → j < id + n → t j ≡ false) → room n t id ≡ n
  room-empty t zero id h = refl
  room-empty t (suc n) id h = ground (
    arith,
    h id (omega arith),
    room-empty t n (id + 1) λ (j : ℕ) (b : j < id + 1 + n). h j (omega arith),
  )

  -- Each number that the stream has takes the room of one.
  pub room-pseudo :
      (used mask : Mask) (ps : List Payload) (id : ℕ)
      → id ≤ limit
      → Below limit ps
      → room (limit - id) (taken used mask) id
        ≤ room (limit - id) (taken used (pseudo_dynamic masks core limit ps mask)) id + length ps
  unfolding pseudo_dynamic
  room-pseudo used mask [] id l b = omega arith
  room-pseudo used mask (p ∷ ps) id l (b, bs) =
      elim (Bool-cases (leb_ℤ (pos core.dynamic_start) p.payload_type)) [
        | inr static_ ↦ ground (arith, static_, room-pseudo used mask ps id l bs)
        | inl dynamic ↦
            let i = pos_part p.payload_type in
            let step =
              room-set (taken used mask) (taken used (masks.set mask i)) i (limit - id) id
                λ (j : ℕ) (k : j < id + (limit - id)).
                  ground (arith, get_set mask i j b (omega arith)) in
            ground (arith, dynamic, step, room-pseudo used (masks.set mask i) ps id l bs)
      ]
