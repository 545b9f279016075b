-- ===== src/Sdp/Payloads.antt =====
-- src/SDPFilter.cpp: the filters of payloads, stream by stream.
use sems_yeti.Prelude.{
  ℕ, zero, suc, ◌≡◌, refl, ap, ◌⊎◌, inl, inr, true, false, not, ◌&&◌, List, [], ◌∷◌, some, is_nil,
  get_elem?, arith, Bool-cases,
}
use sems_yeti.Sdp.{Payload, Media}
use sems_yeti.Sdp.Arrange.{begin}
use sems_yeti.Sdp.Filters.{
  FilterEntry, is_active_filter, filter_payloads, is_emptied, filter_stream, filter_streams,
  filter_sdp,
}
use sems_yeti.Sdp.Passing.{passing_payloads}

module _ (e : FilterEntry) (es : List FilterEntry) where
  payloads_skip :
      (xs : List Payload)
      → is_active_filter e.filter_type ≡ false
      → passing_payloads (e ∷ es) xs ≡ passing_payloads es xs
  payloads_skip [] h = refl
  payloads_skip (x ∷ xs) h = ground (arith, payloads_skip xs h)

  payloads_step :
      (xs : List Payload)
      → is_active_filter e.filter_type ≡ true
      → passing_payloads es (filter_payloads e xs) ≡ passing_payloads (e ∷ es) xs
  unfolding filter_payloads
  payloads_step [] h = refl
  payloads_step (x ∷ xs) h = ground (arith, payloads_step xs h)

payloads_none : (xs : List Payload) → passing_payloads [] xs ≡ xs
payloads_none [] = refl
payloads_none (x ∷ xs) = ap (◌∷◌ x) (payloads_none xs)

filter_streams-at :
    (e : FilterEntry) (ms : List Media) (i : ℕ) (m : Media)
    → get_elem? ms i ≡ some m
    → get_elem? (filter_streams e ms).media i ≡ some (filter_stream e m)
unfolding filter_streams
filter_streams-at e [] i m h = cc
filter_streams-at e (n ∷ ms) zero m h = ground arith
filter_streams-at e (n ∷ ms) (suc i) m h = filter_streams-at e ms i m h

-- No stream is left: each was emptied.
filter_streams-left :
    (e : FilterEntry) (ms : List Media) (i : ℕ) (m : Media)
    → get_elem? ms i ≡ some m
    → (filter_streams e ms).left ≡ false
    → is_emptied e m ≡ true
unfolding filter_streams
filter_streams-left e [] i m h k = cc
filter_streams-left e (n ∷ ms) zero m h k = ground arith
filter_streams-left e (n ∷ ms) (suc i) m h k = ground (arith, filter_streams-left e ms i m h)

-- What is promised of a stream `m` that has become `m'`.
abbrev pub FilteredTo : List FilterEntry → Media → Media → Type 0
FilteredTo es m m' =
    (m'.type ≡ m.type)
    × (is_nil m'.payloads ≡ is_nil m.payloads)
    × ((m'.port ≡ 0) ⊎ (m' ≡ record m { payloads = passing_payloads es m.payloads }))

begin-nil : (ps : List Payload) → is_nil (begin ps) ≡ is_nil ps
begin-nil [] = refl
begin-nil (p ∷ ps) = refl

filter_stream-emptied :
    (e : FilterEntry) (es : List FilterEntry) (m : Media)
    → is_emptied e m ≡ true
    → FilteredTo es m (filter_stream e m)
unfolding filter_stream
filter_stream-emptied e es m h =
    (ground arith, ground (arith, begin-nil m.payloads), inl (ground arith))

FilteredTo-step :
    (e : FilterEntry) (es : List FilterEntry) (m m' : Media)
    → is_active_filter e.filter_type ≡ true
    → FilteredTo es (filter_stream e m) m'
    → FilteredTo (e ∷ es) m m'
unfolding filter_stream is_emptied
FilteredTo-step e es m m' active (same, kept, inl off) =
    (ground arith, ground (arith, begin-nil m.payloads), inl off)
FilteredTo-step e es m m' active (same, kept, inr on) = elim (Bool-cases (is_emptied e m)) [
  | inl emptied ↦ (ground arith, ground (arith, begin-nil m.payloads), inl (ground arith))
  | inr left ↦
      (ground arith, ground arith, inr (ground (arith, payloads_step e es m.payloads active, left)))
]

FilteredTo-skip :
    (e : FilterEntry) (es : List FilterEntry) (m m' : Media)
    → is_active_filter e.filter_type ≡ false
    → FilteredTo es m m'
    → FilteredTo (e ∷ es) m m'
FilteredTo-skip e es m m' idle (same, kept, inl off) = (same, kept, inl off)
FilteredTo-skip e es m m' idle (same, kept, inr on) =
    (same, kept, inr (ground (arith, payloads_skip e es m.payloads idle)))

-- For every list of entries and every stream of the SDP, filterSDP leaves at the stream's place one of
-- the same type that has payloads exactly if it had some, and that either is disabled by port 0 or is the
-- stream with exactly those payloads, in their order, whose encoding passes every active entry. This holds
-- of the streams that are left when it returns -488 too.
pub filter_sdp_keeps_streams :
    (es : List FilterEntry) (ms : List Media) (i : ℕ) (m : Media)
    → get_elem? ms i ≡ some m
    → (m' : Media) × (get_elem? (filter_sdp es ms).1 i ≡ some m') × FilteredTo es m m'
unfolding filter_sdp
filter_sdp_keeps_streams [] ms i m h =
    (m, h, (refl, refl, inr (ground (arith, payloads_none m.payloads))))
filter_sdp_keeps_streams (e ∷ es) ms i m h = elim (Bool-cases (is_active_filter e.filter_type)) [
  | inr idle ↦
      let (m', at, good) = filter_sdp_keeps_streams es ms i m h in
      (m', ground (arith, idle, at), FilteredTo-skip e es m m' idle good)
  | inl active ↦
      let a = filter_streams e ms in
      elim (Bool-cases (not a.left && a.filtered_out)) [
        | inl done ↦ (
          filter_stream e m,
          ground (arith, active, done, filter_streams-at e ms i m h),
          filter_stream-emptied e (e ∷ es) m
              (filter_streams-left e ms i m h (ground (arith, done))),
        )
        | inr more ↦
            let next = filter_streams-at e ms i m h in
            let (m', at, good) = filter_sdp_keeps_streams es a.media i (filter_stream e m) next in
            (m', ground (arith, active, more, at), FilteredTo-step e es m m' active good)
      ]
]
