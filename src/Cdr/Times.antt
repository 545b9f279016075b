-- ===== src/Cdr/Times.antt =====
-- src/cdr/Cdr.cpp: the times of a record, by a clock that does not go back.
use sems_yeti.Prelude.{ℕ, ◌≡◌, refl, ◌⊎◌, inl, ◌≤◌, List, [], ◌∷◌, arith}
use sems_yeti.Cdr.{Cdr, start, bleg_invite, connect, bleg_connect, end}
use sems_yeti.Cdr.Updates.{
  Update, internal, bleg, aleg, action, sip_reply, init_aleg, init_bleg, suppressed, missing_aleg,
  apply, run,
}

-- The readings of the clock do not go back, from `t` on, and no update starts the record again.
abbrev pub Clocked : ℕ → List Update → Type 0
Clocked t [] = Unit {0}
Clocked t (internal i reason code now ∷ us) = (t ≤ now) × Clocked now us
Clocked t (action start now ∷ us) = ⊥
Clocked t (action bleg_invite now ∷ us) = (t ≤ now) × Clocked now us
Clocked t (action connect now ∷ us) = (t ≤ now) × Clocked now us
Clocked t (action bleg_connect now ∷ us) = (t ≤ now) × Clocked now us
Clocked t (action end now ∷ us) = (t ≤ now) × Clocked now us
Clocked t (sip_reply r now ∷ us) = (t ≤ now) × Clocked now us
Clocked t (bleg reason code ∷ us) = Clocked t us
Clocked t (aleg reason code ∷ us) = Clocked t us
Clocked t (init_aleg tag global id ∷ us) = Clocked t us
Clocked t (init_bleg id tag ∷ us) = Clocked t us
Clocked t (suppressed s ∷ us) = Clocked t us
Clocked t (missing_aleg tag global id ∷ us) = Clocked t us

module _ {Details Carried : Type 0} where
  -- The start as it was; an answer, if any, not before it; and an end, if it is noted, not before both.
  abbrev pub InOrder : ℕ → Cdr Details Carried → Type 0
  InOrder begun cdr =
      (cdr.start_time ≡ begun)
      × (cdr.start_time ≤ cdr.end_time)
      × ((cdr.connect_time ≡ 0) ⊎ (cdr.start_time ≤ cdr.connect_time))
      × ((cdr.end_time ≡ cdr.start_time) ⊎ (cdr.connect_time ≤ cdr.end_time))

  -- The same, with all times up to the present one.
  abbrev UpTo : ℕ → ℕ → Cdr Details Carried → Type 0
  UpTo begun t cdr = InOrder begun cdr × (cdr.end_time ≤ t) × (cdr.connect_time ≤ t)

  run-UpTo :
      (us : List Update) (cdr : Cdr Details Carried) (begun t : ℕ)
      → Clocked t us
      → UpTo begun t cdr
      → InOrder begun (run us cdr)
  unfolding run apply
  run-UpTo [] cdr begun t c h = h.0
  run-UpTo (internal i reason code now ∷ us) cdr begun t c h =
      run-UpTo us (apply (internal i reason code now) cdr) begun now c.1 (ground arith)
  run-UpTo (action start now ∷ us) cdr begun t c h = absurd c
  run-UpTo (action bleg_invite now ∷ us) cdr begun t c h =
      run-UpTo us (apply (action bleg_invite now) cdr) begun now c.1 (ground arith)
  run-UpTo (action connect now ∷ us) cdr begun t c h =
      run-UpTo us (apply (action connect now) cdr) begun now c.1 (ground arith)
  run-UpTo (action bleg_connect now ∷ us) cdr begun t c h =
      run-UpTo us (apply (action bleg_connect now) cdr) begun now c.1 (ground arith)
  run-UpTo (action end now ∷ us) cdr begun t c h =
      run-UpTo us (apply (action end now) cdr) begun now c.1 (ground arith)
  run-UpTo (sip_reply r now ∷ us) cdr begun t c h =
      run-UpTo us (apply (sip_reply r now) cdr) begun now c.1 (ground arith)
  run-UpTo (bleg reason code ∷ us) cdr begun t c h =
      run-UpTo us (apply (bleg reason code) cdr) begun t c (ground arith)
  run-UpTo (aleg reason code ∷ us) cdr begun t c h =
      run-UpTo us (apply (aleg reason code) cdr) begun t c (ground arith)
  run-UpTo (init_aleg tag global id ∷ us) cdr begun t c h =
      run-UpTo us (apply (init_aleg tag global id) cdr) begun t c (ground arith)
  run-UpTo (init_bleg id tag ∷ us) cdr begun t c h =
      run-UpTo us (apply (init_bleg id tag) cdr) begun t c (ground arith)
  run-UpTo (suppressed s ∷ us) cdr begun t c h =
      run-UpTo us (apply (suppressed s) cdr) begun t c (ground arith)
  run-UpTo (missing_aleg tag global id ∷ us) cdr begun t c h =
      run-UpTo us (apply (missing_aleg tag global id) cdr) begun t c (ground arith)

  -- For a record that has just been started at a time, and any updates of it but another start, by a clock
  -- that does not go back: the start stays, the end is never before it, neither is an answer that is
  -- noted, and once an end other than the start is noted the answer is not behind it.
  pub times_InOrder :
      (us : List Update) (cdr : Cdr Details Carried)
      → Clocked cdr.start_time us
      → cdr.end_time ≡ cdr.start_time
      → cdr.connect_time ≡ 0
      → InOrder cdr.start_time (run us cdr)
  times_InOrder us cdr c e n =
      run-UpTo us cdr cdr.start_time cdr.start_time c
        ((refl, omega arith, inl n, inl e), omega arith, omega arith)
