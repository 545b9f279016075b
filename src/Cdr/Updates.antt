-- ===== src/Cdr/Updates.antt =====
-- src/cdr/Cdr.cpp: sequences of updates of a record that is not written yet.
use sems_yeti.Prelude.{
  ℕ, ◌≡◌, refl, ◌∙◌, Bool, true, false, ◌||◌, List, [], ◌∷◌, Option, none, some, if◌then◌else◌,
  is_nil, arith,
}
use sems_yeti.Prelude.Classes.{Text}
use sems_yeti.Cdr.{
  Cdr, act_on, Initiator, UpdateAction, BlegReply, start, bleg_invite, connect, bleg_connect, end,
  update_with_action, update_init_aleg, update_init_bleg, update_with_sip_reply, update_bleg_reason,
  update_aleg_reason, update_internal_reason, set_suppress,
}

-- The updates that a written record refuses, each with the reading of the clock where it is taken.
-- `missing_aleg` is `update_init_aleg` of a record without a tag, as `onFailure` of a leg calls it.
pub data Update : Type 0 where
  internal : Initiator → Text → ℕ → ℕ → Update
  bleg aleg : Text → ℕ → Update
  action : UpdateAction → ℕ → Update
  sip_reply : BlegReply → ℕ → Update
  init_aleg : Text → Text → Text → Update
  init_bleg : Text → Text → Update
  suppressed : Bool → Update
  missing_aleg : Text → Text → Text → Update

module _ {Details Carried : Type 0} where
  unfoldable pub apply : Update → Cdr Details Carried → Cdr Details Carried
  unfolding update_with_action update_init_aleg update_init_bleg update_with_sip_reply
      update_bleg_reason update_aleg_reason update_internal_reason set_suppress
  apply (internal i reason code now) = update_internal_reason i reason code now
  apply (bleg reason code) = update_bleg_reason reason code
  apply (aleg reason code) = update_aleg_reason reason code
  apply (action a now) = update_with_action a now
  apply (sip_reply r now) = update_with_sip_reply r now
  apply (init_aleg tag global id) = update_init_aleg tag global id
  apply (init_bleg id tag) = update_init_bleg id tag
  apply (suppressed s) = set_suppress s
  apply (missing_aleg tag global id) =
      λ cdr. if is_nil cdr.local_tag then update_init_aleg tag global id cdr else cdr

  unfoldable pub run : List Update → Cdr Details Carried → Cdr Details Carried
  unfolding apply
  run [] cdr = cdr
  run (u ∷ us) cdr = run us (apply u cdr)

-- What an update says of the internal reason, of the reason of the second leg and of the first.
abbrev pub internal_in : Update → Option (Initiator × Text × ℕ)
internal_in (internal i reason code now) = some (i, reason, code)
internal_in _ = none

abbrev pub told_in : Update → Option (Text × ℕ)
told_in (internal i reason code now) = some (reason, code)
told_in _ = none

abbrev pub bleg_in : Update → Option (Text × ℕ)
bleg_in (bleg reason code) = some (reason, code)
bleg_in _ = none

abbrev pub aleg_in : Update → Option (Text × ℕ)
aleg_in (aleg reason code) = some (reason, code)
aleg_in _ = none

module _ {V : Type 0} where
  abbrev pub or_own : Option V → V → V
  or_own none v = v
  or_own (some w) v = w

  abbrev pub is_some : Option V → Bool
  is_some none = false
  is_some (some w) = true

  -- The first, and the last, that some update of the sequence says.
  abbrev pub first : (Update → Option V) → List Update → Option V
  first f [] = none
  first f (u ∷ us) = let rest = first f us in elim (f u) [ some v ↦ some v | none ↦ rest ]

  abbrev pub last : (Update → Option V) → List Update → Option V
  last f [] = none
  last f (u ∷ us) = elim (last f us) [ some v ↦ some v | none ↦ f u ]

module _ {Details Carried : Type 0} where
  abbrev pub internal_of : Cdr Details Carried → Initiator × Text × ℕ
  internal_of cdr =
      (cdr.disconnect_initiator, cdr.disconnect_internal_reason, cdr.disconnect_internal_code)

  abbrev pub bleg_of : Cdr Details Carried → Text × ℕ
  bleg_of cdr = (cdr.disconnect_reason, cdr.disconnect_code)

  abbrev pub told_of : Cdr Details Carried → Text × ℕ
  told_of cdr = (cdr.disconnect_rewrited_reason, cdr.disconnect_rewrited_code)

  -- The times are all that an action changes.
  act_on-keeps :
      (a : UpdateAction) (now : ℕ) (cdr : Cdr Details Carried)
      → ((act_on a now cdr).writed ≡ cdr.writed)
        × ((act_on a now cdr).disconnect_initiator_writed ≡ cdr.disconnect_initiator_writed)
        × ((act_on a now cdr).bleg_reason_writed ≡ cdr.bleg_reason_writed)
        × ((act_on a now cdr).aleg_reason_writed ≡ cdr.aleg_reason_writed)
        × (internal_of (act_on a now cdr) ≡ internal_of cdr)
        × (bleg_of (act_on a now cdr) ≡ bleg_of cdr)
        × (told_of (act_on a now cdr) ≡ told_of cdr)
  act_on-keeps start now cdr = (refl, refl, refl, refl, refl, refl, refl)
  act_on-keeps bleg_invite now cdr = (refl, refl, refl, refl, refl, refl, refl)
  act_on-keeps connect now cdr = (refl, refl, refl, refl, refl, refl, refl)
  act_on-keeps bleg_connect now cdr = (refl, refl, refl, refl, refl, refl, refl)
  act_on-keeps end now cdr = (refl, refl, refl, refl, refl, refl, refl)

  apply-writed : (u : Update) (cdr : Cdr Details Carried) → (apply u cdr).writed ≡ cdr.writed
  unfolding apply
  apply-writed (internal i reason code now) cdr = ground arith
  apply-writed (bleg reason code) cdr = ground arith
  apply-writed (aleg reason code) cdr = ground arith
  apply-writed (action a now) cdr = ground (arith, act_on-keeps a now cdr)
  apply-writed (sip_reply r now) cdr = ground arith
  apply-writed (init_aleg tag global id) cdr = ground arith
  apply-writed (init_bleg id tag) cdr = ground arith
  apply-writed (suppressed s) cdr = ground arith
  apply-writed (missing_aleg tag global id) cdr = ground arith

  -- One update of a record that is not written.
  apply-internal :
      (u : Update) (cdr : Cdr Details Carried)
      → cdr.writed ≡ false
      → ((apply u cdr).disconnect_initiator_writed
          ≡ (cdr.disconnect_initiator_writed || is_some (internal_in u)))
        × (internal_of (apply u cdr) ≡ (
            if cdr.disconnect_initiator_writed
            then internal_of cdr
            else or_own (internal_in u) (internal_of cdr)))
  unfolding apply
  apply-internal (internal i reason code now) cdr w = ground arith
  apply-internal (bleg reason code) cdr w = ground arith
  apply-internal (aleg reason code) cdr w = ground arith
  apply-internal (action a now) cdr w = ground (arith, act_on-keeps a now cdr)
  apply-internal (sip_reply r now) cdr w = ground arith
  apply-internal (init_aleg tag global id) cdr w = ground arith
  apply-internal (init_bleg id tag) cdr w = ground arith
  apply-internal (suppressed s) cdr w = ground arith
  apply-internal (missing_aleg tag global id) cdr w = ground arith

  apply-bleg :
      (u : Update) (cdr : Cdr Details Carried)
      → cdr.writed ≡ false
      → ((apply u cdr).bleg_reason_writed ≡ (cdr.bleg_reason_writed || is_some (bleg_in u)))
        × (bleg_of (apply u cdr)
            ≡ (if cdr.bleg_reason_writed then bleg_of cdr else or_own (bleg_in u) (bleg_of cdr)))
  unfolding apply
  apply-bleg (internal i reason code now) cdr w = ground arith
  apply-bleg (bleg reason code) cdr w = ground arith
  apply-bleg (aleg reason code) cdr w = ground arith
  apply-bleg (action a now) cdr w = ground (arith, act_on-keeps a now cdr)
  apply-bleg (sip_reply r now) cdr w = ground arith
  apply-bleg (init_aleg tag global id) cdr w = ground arith
  apply-bleg (init_bleg id tag) cdr w = ground arith
  apply-bleg (suppressed s) cdr w = ground arith
  apply-bleg (missing_aleg tag global id) cdr w = ground arith

  apply-told :
      (u : Update) (cdr : Cdr Details Carried)
      → cdr.writed ≡ false
      → ((apply u cdr).aleg_reason_writed ≡ (cdr.aleg_reason_writed || is_some (aleg_in u)))
        × (told_of (apply u cdr)
            ≡ or_own
                (aleg_in u)
                (if cdr.aleg_reason_writed then told_of cdr else or_own (told_in u) (told_of cdr)))
  unfolding apply
  apply-told (internal i reason code now) cdr w = ground arith
  apply-told (bleg reason code) cdr w = ground arith
  apply-told (aleg reason code) cdr w = ground arith
  apply-told (action a now) cdr w = ground (arith, act_on-keeps a now cdr)
  apply-told (sip_reply r now) cdr w = ground arith
  apply-told (init_aleg tag global id) cdr w = ground arith
  apply-told (init_bleg id tag) cdr w = ground arith
  apply-told (suppressed s) cdr w = ground arith
  apply-told (missing_aleg tag global id) cdr w = ground arith

  run-internal :
      (us : List Update) (cdr : Cdr Details Carried)
      → cdr.writed ≡ false
      → internal_of (run us cdr) ≡ (
          if cdr.disconnect_initiator_writed
          then internal_of cdr
          else or_own (first internal_in us) (internal_of cdr))
  unfolding run
  run-internal [] cdr w = ground arith
  run-internal (u ∷ us) cdr w =
      let (flag, value) = apply-internal u cdr w in
      let later = run-internal us (apply u cdr) (apply-writed u cdr ∙ w) in
      later ∙ rw (flag, value) (ground arith)

  run-bleg :
      (us : List Update) (cdr : Cdr Details Carried)
      → cdr.writed ≡ false
      → bleg_of (run us cdr)
        ≡ (if cdr.bleg_reason_writed then bleg_of cdr else or_own (first bleg_in us) (bleg_of cdr))
  unfolding run
  run-bleg [] cdr w = ground arith
  run-bleg (u ∷ us) cdr w =
      let (flag, value) = apply-bleg u cdr w in
      let later = run-bleg us (apply u cdr) (apply-writed u cdr ∙ w) in
      later ∙ rw (flag, value) (ground arith)

  run-told :
      (us : List Update) (cdr : Cdr Details Carried)
      → cdr.writed ≡ false
      → told_of (run us cdr)
        ≡ or_own
            (last aleg_in us)
            (if cdr.aleg_reason_writed then told_of cdr else or_own (last told_in us) (told_of cdr))
  unfolding run
  run-told [] cdr w = ground arith
  run-told (u ∷ us) cdr w =
      let (flag, value) = apply-told u cdr w in
      let later = run-told us (apply u cdr) (apply-writed u cdr ∙ w) in
      later ∙ rw (flag, value) (ground arith)

  -- For every sequence of updates of a record that is not written and for which no reason was given yet:
  -- its internal reason, with the initiator and the code, is that of the first internal reason in the
  -- sequence; the reason of the second leg is that of the first reason given for this leg; and what was
  -- told to the caller is that of the last reason given for the caller's leg or, without one, of the last
  -- internal reason. What the sequence does not give stays as it was.
  pub run_reasons :
      (us : List Update) (cdr : Cdr Details Carried)
      → cdr.writed ≡ false
      → cdr.disconnect_initiator_writed ≡ false
      → cdr.bleg_reason_writed ≡ false
      → cdr.aleg_reason_writed ≡ false
      → (internal_of (run us cdr) ≡ or_own (first internal_in us) (internal_of cdr))
        × (bleg_of (run us cdr) ≡ or_own (first bleg_in us) (bleg_of cdr))
        × (told_of (run us cdr) ≡ or_own (last aleg_in us) (or_own (last told_in us) (told_of cdr)))
  run_reasons us cdr w i b a = (
    run-internal us cdr w ∙ rw i refl,
    run-bleg us cdr w ∙ rw b refl,
    run-told us cdr w ∙ rw a refl,
  )
