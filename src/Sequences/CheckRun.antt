-- ===== src/Sequences/CheckRun.antt =====
-- A check from its first request to its last reply.
use mathlib.Core.List.{append_assoc, append-nil}
use sems_yeti.Prelude.{
  ℕ, suc, ◌≡◌, refl, sym, ap, ◌∙◌, ◌≢◌, Bool, true, false, ◌||◌, List, [], ◌∷◌, ◌++◌, Option, none,
  some, arith, ==_iff, ◌==◌, Bool-cases, inl, inr, if◌then◌else◌, length, map, length-append,
  length-pos, ◌<◌, ◌-◌,
}
use sems_yeti.Prelude.Int.{ℤ, pos}
use sems_yeti.Prelude.Classes.{Text}
use sems_yeti.Resource.{Resource}
use sems_yeti.Sequences.{
  hvals, get_key, Reply, is_success, Converted, value, reply_data_exception, reply_type_exception,
  reply_to_int,
}
use sems_yeti.Sequences.Check.{
  CheckResources, get_vals, finish, check_resources, perform, process_reply, requests,
}

abbrev number : Converted → Option ℤ
number (value n) = some n
number reply_data_exception = none
number reply_type_exception = none

abbrev add_reading : Option ℤ → List ℤ → List ℤ
add_reading none ns = ns
add_reading (some n) ns = n ∷ ns

abbrev is_missing : Option ℤ → Bool
is_missing none = true
is_missing (some n) = false

abbrev counting : ℕ → List Resource → Bool → List ℤ → CheckResources
counting n rl e acc = record {
  state = get_vals;
  commands_count = pos n;
  resources = rl;
  finished = false;
  iserror = e;
  result = acc;
}

requests-map : (rl : List Resource) → requests rl ≡ map (λ r. hvals (get_key r)) rl
unfolding requests
requests-map [] = refl
requests-map (r ∷ rl) = ap (◌∷◌ (hvals (get_key r))) (requests-map rl)

module _ (str2long : Text → Option ℤ) where
  unfoldable pub run : CheckResources → List Reply → CheckResources
  run c [] = c
  run c (r ∷ rs) = run (process_reply str2long c r) rs

  -- The number that a reply stands for, if it stands for one.
  unfoldable pub reading : Reply → Option ℤ
  reading r = if is_success r.result then number (reply_to_int str2long r.reply_data) else none

  unfoldable pub readings : List Reply → List ℤ
  unfolding reading
  readings [] = []
  readings (r ∷ rs) = add_reading (reading r) (readings rs)

  unfoldable pub unread : List Reply → Bool
  unfolding reading
  unread [] = false
  unread (r ∷ rs) = is_missing (reading r) || unread rs

  process_reply-more :
      (n : ℕ) (rl : List Resource) (e : Bool) (acc : List ℤ) (r : Reply)
      → process_reply str2long (counting (suc (suc n)) rl e acc) r
        ≡ counting (suc n) rl (is_missing (reading r) || e) (acc ++ add_reading (reading r) [])
  unfolding process_reply reading
  process_reply-more n rl e acc r = ground (arith, append-nil acc)

  process_reply-last :
      (rl : List Resource) (e : Bool) (acc : List ℤ) (r : Reply)
      → process_reply str2long (counting 1 rl e acc) r ≡ record {
        state = finish;
        commands_count = pos 0;
        resources = rl;
        finished = true;
        iserror = is_missing (reading r) || e;
        result = acc ++ add_reading (reading r) [];
      }
  unfolding process_reply reading
  process_reply-last rl e acc r = ground (arith, append-nil acc)

  abbrev Done : CheckResources → Bool → List ℤ → Type 0
  Done c e ns = (c.finished ≡ true) × (c.iserror ≡ e) × (c.result ≡ ns)

  add_reading-append :
      (o : Option ℤ) (acc ns : List ℤ) → (acc ++ add_reading o []) ++ ns ≡ acc ++ add_reading o ns
  add_reading-append none acc ns = rw (append-nil acc)
  add_reading-append (some n) acc ns = rw append_assoc

  run-Done :
      (r : Reply) (rs : List Reply) (rl : List Resource) (e : Bool) (acc : List ℤ)
      → Done
          (run (counting (suc (length rs)) rl e acc) (r ∷ rs))
          (unread (r ∷ rs) || e)
          (acc ++ readings (r ∷ rs))
  unfolding run unread readings
  run-Done r [] rl e acc = rw (process_reply-last rl e acc r, run) (refl, ground arith, refl)
  run-Done r (s ∷ rs) rl e acc =
      let ih = run-Done s rs rl (is_missing (reading r) || e) (acc ++ add_reading (reading r) []) in
      rw (process_reply-more (length rs) rl e acc r, run)
        (ih.0, ih.1 ∙ ground arith, ih.2 ∙ add_reading-append (reading r) acc (readings (s ∷ rs)))

  run_early :
      (rs : List Reply) (n : ℕ) (rl : List Resource) (e : Bool) (acc : List ℤ)
      → length rs < n
      → (run (counting n rl e acc) rs).finished ≡ false
  unfolding run
  run_early [] n rl e acc h = refl
  run_early (r ∷ rs) n rl e acc h =
      let m : n ≡ suc (suc (n - 2)) = omega arith in
      rw (m, process_reply-more (n - 2) rl e acc r, run)
        (run_early rs (suc (n - 2)) rl _ _ (omega arith))

  length-readings : (rs : List Reply) → unread rs ≡ false → length (readings rs) ≡ length rs
  unfolding unread readings
  length-readings [] h = refl
  length-readings (r ∷ rs) h = ground (arith, length-readings rs)

  whole_run :
      (rl : List Resource) (rs : List Reply)
      → rl ≢ []
      → length rs ≡ length rl
      → let c = run (perform (check_resources rl)).0 rs in
        ((perform (check_resources rl)).1 ≡ map (λ r. hvals (get_key r)) rl)
        × (c.finished ≡ true)
        × (c.iserror ≡ unread rs)
        × (c.result ≡ readings rs)
        × (c.iserror ≡ false → length c.result ≡ length rl)
        × ((early late : List Reply)
            → rs ≡ early ++ late
            → late ≢ []
            → (run (perform (check_resources rl)).0 early).finished ≡ false)
  unfolding perform
  whole_run rl [] some_left size = absurd (some_left (ground arith))
  whole_run rl (r ∷ rs) some_left size =
      let d = run-Done r rs rl false [] in
      let e : (run (counting (length rl) rl false []) (r ∷ rs)).iserror ≡ unread (r ∷ rs) =
        rw (← size) (d.1 ∙ ground arith) in
      let v : (run (counting (length rl) rl false []) (r ∷ rs)).result ≡ readings (r ∷ rs) =
        rw (← size) d.2 in
      (
        requests-map rl,
        rw (← size) d.0,
        e,
        v,
        λ fine. rw v (length-readings (r ∷ rs) (sym e ∙ fine) ∙ size),
        λ early late split more.
            run_early early (length rl) rl false [] (
              omega (arith, size, ap length split, length-append early late, length-pos late more)),
      )

  -- A check of a list asks with HVALS for the key of every resource, in their order; with one reply for each, at least one, it is not
  -- finished before the last reply and finished by it, has an error exactly when some reply was no
  -- number, collects the numbers in the order of the replies, and without an error has one number for
  -- each resource.
  pub check_run :
      (rl : List Resource) (early : List Reply) (next : Reply) (late : List Reply)
      → length (early ++ next ∷ late) ≡ length rl
      → let c = run (perform (check_resources rl)).0 (early ++ next ∷ late) in
        ((perform (check_resources rl)).1 ≡ map (λ r. hvals (get_key r)) rl)
        × ((run (perform (check_resources rl)).0 early).finished ≡ false)
        × (c.finished ≡ true)
        × (c.iserror ≡ unread (early ++ next ∷ late))
        × (c.result ≡ readings (early ++ next ∷ late))
        × ((c.iserror || length c.result == length rl) ≡ true)
  check_run rl early next late size =
      let some_left : rl ≢ [] =
        λ e. absurd (omega (arith, size, length-append early (next ∷ late), ap length e)) in
      let w = whole_run rl (early ++ next ∷ late) some_left size in
      let c = run (perform (check_resources rl)).0 (early ++ next ∷ late) in
      (
        w.0,
        w.5 early (next ∷ late) refl (λ e. cc),
        w.1,
        w.2,
        w.3,
        elim (Bool-cases c.iserror) [
          | inl e ↦ ap (λ b. b || length c.result == length rl) e
          | inr e ↦
              ap (λ b. b || length c.result == length rl) e
              ∙ (==_iff (length c.result) (length rl)).1 (w.4 e)
        ],
      )
