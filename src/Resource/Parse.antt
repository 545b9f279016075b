-- ===== src/Resource/Parse.antt =====
-- What `ResList::parse` accepts, and the list that it builds.
use mathlib.Core.List.{append_assoc, append-nil, flatten}
use mathlib.Core.Option
use sems_yeti.Prelude.{
  ◌≡◌, refl, sym, ap, ◌≢◌, ◌⊎◌, inl, inr, false, true, List, [], ◌∷◌, ◌++◌, map, Option, none, some,
  arith, if◌then◌else◌, Bool-cases, Option-cases,
}
use sems_yeti.Prelude.Int.{ℤ, pos, eqb_ℤ, eqb_ℤ_iff}
use sems_yeti.Prelude.Classes.{Text, codes}
use sems_yeti.Resource.Groups.{IsClosed, close_back-IsClosed}
use sems_yeti.Resource.{
  Resource, Read, ok, err, ResourceParseException, Outcome, parsed, threw, close_back, read_fields,
  parse_options, parse_atoms, parse,
}

-- Asked for in some quantity, and not yet touched.
pub record IsFresh (r : Resource) : Type 0 where
  pub wanted : r.takes ≢ pos 0
  pub untaken : r.taken ≡ false
  pub inactive : r.active ≡ false

abbrev pub AllFresh : List Resource → Type 0
AllFresh [] = Unit {0}
AllFresh (r ∷ rs) = IsFresh r × AllFresh rs

AllFresh-append : (rs ss : List Resource) → AllFresh rs → AllFresh ss → AllFresh (rs ++ ss)
AllFresh-append [] ss f g = g
AllFresh-append (r ∷ rs) ss f g = (f.0, AllFresh-append rs ss f.1 g)

close_back-AllFresh : (rs : List Resource) → AllFresh rs → AllFresh (close_back rs)
unfolding close_back
close_back-AllFresh [] f = tt
close_back-AllFresh (r ∷ []) f =
    (record { wanted = f.0.wanted; untaken = f.0.untaken; inactive = f.0.inactive }, tt)
close_back-AllFresh (r ∷ s ∷ rs) f = (f.0, close_back-AllFresh (s ∷ rs) f.1)

close_back_closed : (rs : List Resource) → IsClosed rs → close_back rs ≡ rs
unfolding close_back
close_back_closed [] c = refl
close_back_closed (r ∷ []) c = ap (λ b. record r { failover_to_next = b } ∷ []) (sym c)
close_back_closed (r ∷ s ∷ rs) c = ap (◌∷◌ r) (close_back_closed (s ∷ rs) c)

close_back-append :
    (rs ss : List Resource) → IsClosed rs → close_back (rs ++ ss) ≡ rs ++ close_back ss
unfolding close_back
close_back-append [] ss c = refl
close_back-append (r ∷ []) [] c = close_back_closed (r ∷ []) c
close_back-append (r ∷ []) (s ∷ ss) c = refl
close_back-append (r ∷ r' ∷ rs) ss c = ap (◌∷◌ r) (close_back-append (r' ∷ rs) ss c)

-- What `parse` is to return for the atoms.
pub data Builds (gs : Option (List (List Resource))) (o : Outcome) : Type 0 where
  accepts :
      (hs : List (List Resource))
      → gs ≡ some hs
      → o ≡ parsed (flatten (map close_back hs))
      → Builds gs o
  refuses :
      (e : ResourceParseException) (left : List Resource)
      → gs ≡ none
      → o ≡ threw e left
      → Builds gs o

Read-cases :
    (x : Read) → ((r : Resource) × (x ≡ ok r)) ⊎ ((e : ResourceParseException) × (x ≡ err e))
Read-cases (ok r) = inl (r, refl)
Read-cases (err e) = inr (e, refl)

module _ (explode : Text → Text → List Text) (str2int : Text → Option ℤ) where
  read_option : Text → Text → Read
  read_option ri ai = read_fields explode str2int ri ai (explode ai (codes ":"))

  -- The resources of one atom: one for each option, without those that take nothing.
  pub read_atom : Text → List Text → Option (List Resource)
  read_atom ri [] = some []
  read_atom ri (ai ∷ rest) = elim (read_option ri ai) [
    | err e ↦ none
    | ok r ↦
        Option.map
          (λ g. if eqb_ℤ r.takes (pos 0) then g else record r { failover_to_next = true } ∷ g)
          (read_atom ri rest)
  ]

  pub read_atoms : List Text → Option (List (List Resource))
  read_atoms [] = some []
  read_atoms (ri ∷ rest) = elim (read_atom ri (explode ri (codes "|"))) [
    | none ↦ none
    | some g ↦ Option.map (◌∷◌ g) (read_atoms rest)
  ]

  -- `parse_options` has appended what `read_atom` gives, or an exception has left it.
  abbrev Reads : Option (List Resource) → List Resource → Outcome → Type 0
  Reads none acc o = (e : ResourceParseException) × (left : List Resource) × (o ≡ threw e left)
  Reads (some g) acc o = o ≡ parsed (acc ++ g)

  Reads-step :
      (r : Resource) (g : Option (List Resource)) (acc : List Resource) (o : Outcome)
      → Reads g (if eqb_ℤ r.takes (pos 0) then acc else acc ++ r ∷ []) o
      → Reads (Option.map (λ g. if eqb_ℤ r.takes (pos 0) then g else r ∷ g) g) acc o
  Reads-step r none acc o h = h
  Reads-step r (some g) acc o h = elim (Bool-cases (eqb_ℤ r.takes (pos 0))) [
    | inl e ↦ rw e (rw e at h)
    | inr e ↦ rw e (let k : o ≡ parsed ((acc ++ r ∷ []) ++ g) = rw e at h in rw k (rw append_assoc))
  ]

  parse_options-Reads :
      (ri : Text) (opts : List Text) (acc : List Resource)
      → Reads (read_atom ri opts) acc (parse_options explode str2int ri opts acc)
  unfolding read_atom read_option parse_options
  parse_options-Reads ri [] acc = ap parsed (sym (append-nil acc))
  parse_options-Reads ri (ai ∷ rest) acc =
      elim (Read-cases (read_fields explode str2int ri ai (explode ai (codes ":")))) [
        | inr (e, q) ↦ rw (q, read_atom, parse_options) (e, acc, refl)
        | inl (r, q) ↦
            rw (q, read_atom, parse_options)
              (Reads-step (record r { failover_to_next = true }) _ acc _
                (parse_options-Reads ri rest _))
      ]

  IsClosed-append : (rs ss : List Resource) → IsClosed rs → IsClosed ss → IsClosed (rs ++ ss)
  IsClosed-append [] ss c d = d
  IsClosed-append (r ∷ []) [] c d = c
  IsClosed-append (r ∷ []) (s ∷ ss) c d = d
  IsClosed-append (r ∷ r' ∷ rs) ss c d = IsClosed-append (r' ∷ rs) ss c d

  -- The atoms seen so far stand in `acc`.
  abbrev Built : Option (List (List Resource)) → List Resource → Outcome → Type 0
  Built none acc o = (e : ResourceParseException) × (left : List Resource) × (o ≡ threw e left)
  Built (some gs) acc o = o ≡ parsed (acc ++ flatten (map close_back gs))

  Built-step :
      (g acc : List Resource) (gs : Option (List (List Resource))) (o : Outcome)
      → Built gs (acc ++ close_back g) o
      → Built (Option.map (◌∷◌ g) gs) acc o
  unfolding flatten
  Built-step g acc none o h = h
  Built-step g acc (some gs) o h = rw h (rw append_assoc)

  parse_atoms-Built :
      (atoms : List Text) (acc : List Resource)
      → IsClosed acc
      → Built (read_atoms atoms) acc (parse_atoms explode str2int atoms acc)
  unfolding read_atoms parse_atoms flatten
  parse_atoms-Built [] acc c = ap parsed (sym (append-nil acc))
  parse_atoms-Built (ri ∷ rest) acc c =
      let opts = explode ri (codes "|") in
      let first = parse_options-Reads ri opts acc in
      elim (Option-cases (read_atom ri opts)) [
        | inl q ↦
            let (e, left, run) = refused (read_atom ri opts) acc _ q first in
            rw (q, read_atoms) (rw (run, parse_atoms) (e, left, refl))
        | inr (g, q) ↦
            rw (q, read_atoms)
              (rw (accepted (read_atom ri opts) g acc _ q first, parse_atoms)
                (rw (close_back-append acc g c) (
                  Built-step g acc (read_atoms rest) _ (
                    parse_atoms-Built rest (acc ++ close_back g)
                      (IsClosed-append acc (close_back g) c (close_back-IsClosed g))))))
      ]
    where
      refused :
          (x : Option (List Resource)) (a : List Resource) (o : Outcome)
          → x ≡ none
          → Reads x a o
          → (e : ResourceParseException) × (left : List Resource) × (o ≡ threw e left)
      refused none a o q h = h
      refused (some g) a o q h = cc

      accepted :
          (x : Option (List Resource)) (g a : List Resource) (o : Outcome)
          → x ≡ some g
          → Reads x a o
          → o ≡ parsed (a ++ g)
      accepted none g a o q h = cc
      accepted (some h) g a o q k = ground (arith, k)

  pub parse-Builds :
      (rs : Text) → Builds (read_atoms (explode rs (codes ";"))) (parse explode str2int rs)
  unfolding parse
  parse-Builds rs = finish (read_atoms _) _ (parse_atoms-Built _ [] tt)
    where
      finish : (x : Option (List (List Resource))) (o : Outcome) → Built x [] o → Builds x o
      finish none o (e, left, h) = Builds.refuses e left refl h
      finish (some gs) o h = Builds.accepts gs refl h

  abbrev Atom : Option (List Resource) → Type 0
  Atom none = Unit {0}
  Atom (some g) = AllFresh g

  read_fields-IsFresh :
      (ri ai : Text) (fields : List Text) {r : Resource}
      → read_fields explode str2int ri ai fields ≡ ok r
      → (r.taken ≡ false) × (r.active ≡ false)
  unfolding read_fields
  read_fields-IsFresh ri ai [] h = cc
  read_fields-IsFresh ri ai (t ∷ []) h = cc
  read_fields-IsFresh ri ai (t ∷ i ∷ []) h = cc
  read_fields-IsFresh ri ai (t ∷ i ∷ l ∷ []) h = cc
  read_fields-IsFresh ri ai (t ∷ i ∷ l ∷ k ∷ []) h = ground arith
  read_fields-IsFresh ri ai (t ∷ i ∷ l ∷ k ∷ m ∷ _) h = cc

  Atom-step :
      (r : Resource) (g : Option (List Resource))
      → r.taken ≡ false
      → r.active ≡ false
      → Atom g
      → Atom (Option.map (λ g. if eqb_ℤ r.takes (pos 0) then g else r ∷ g) g)
  Atom-step r none u i a = tt
  Atom-step r (some g) u i a = elim (Bool-cases (eqb_ℤ r.takes (pos 0))) [
    | inl e ↦ rw e a
    | inr e ↦ rw e (
      record { wanted = λ z. ground (arith, eqb_ℤ_iff r.takes (pos 0)); untaken = u; inactive = i },
      a,
    )
  ]

  read_atom-Atom : (ri : Text) (opts : List Text) → Atom (read_atom ri opts)
  unfolding read_atom read_option
  read_atom-Atom ri [] = tt
  read_atom-Atom ri (ai ∷ rest) =
      elim (Read-cases (read_fields explode str2int ri ai (explode ai (codes ":")))) [
        | inr (e, q) ↦ rw (q, read_atom) tt
        | inl (r, q) ↦
            let f = read_fields-IsFresh ri ai _ q in
            rw (q, read_atom)
              (Atom-step (record r { failover_to_next = true }) _ f.0 f.1 (read_atom-Atom ri rest))
      ]

  abbrev Atoms : Option (List (List Resource)) → Type 0
  Atoms none = Unit {0}
  Atoms (some gs) = AllFresh (flatten (map close_back gs)) × IsClosed (flatten (map close_back gs))

  Atoms-step :
      (g : List Resource) (gs : Option (List (List Resource)))
      → AllFresh g
      → Atoms gs
      → Atoms (Option.map (◌∷◌ g) gs)
  unfolding flatten
  Atoms-step g none f a = tt
  Atoms-step g (some gs) f a = (
    AllFresh-append (close_back g) _ (close_back-AllFresh g f) a.0,
    IsClosed-append (close_back g) _ (close_back-IsClosed g) a.1,
  )

  read_atoms-Atoms : (atoms : List Text) → Atoms (read_atoms atoms)
  unfolding read_atoms flatten
  read_atoms-Atoms [] = (tt, tt)
  read_atoms-Atoms (ri ∷ rest) =
      let fresh = read_atom-Atom ri (explode ri (codes "|")) in
      elim (Option-cases (read_atom ri (explode ri (codes "|")))) [
        | inl q ↦ rw (q, read_atoms) tt
        | inr (g, q) ↦
            rw (q, read_atoms)
              (Atoms-step g (read_atoms rest) (rw q at fresh) (read_atoms-Atoms rest))
      ]

  -- A list that `parse` returns holds only resources asked for in some quantity, none of them taken
  -- or active, and its last resource has no alternative behind it.
  pub parse-AllFresh :
      (rs : Text) (rl : List Resource)
      → parse explode str2int rs ≡ parsed rl
      → AllFresh rl × IsClosed rl
  parse-AllFresh rs rl h = elim (parse-Builds rs) [
    | Builds.refuses e left q o ↦ cc
    | Builds.accepts hs q o ↦
        let all = read_atoms-Atoms (explode rs (codes ";")) in
        let known : Atoms (some hs) = rw q at all in
        let e : flatten (map close_back hs) ≡ rl = ground (arith, o, h) in
        (rw e at known.0, rw e at known.1)
  ]
