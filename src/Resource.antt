-- ===== src/Resource.antt =====
-- src/resources/Resource.h and Resource.cpp: the resources that a call takes, the operations on
-- them, and the list that a routing profile carries as a text.
pub mod Parse
pub mod Groups
mod Tests
use sems_yeti.Prelude.{Bool, true, false, List, [], ◌∷◌, ◌++◌, Option, none, some, if◌then◌else◌}
use sems_yeti.Prelude.Int.{ℤ, pos, eqb_ℤ}
use sems_yeti.Prelude.Classes.{Text, codes}

pub record Resource : Type 0 where
  pub id : ℤ
  pub type : ℤ
  pub takes : ℤ
  pub limit : ℤ
  pub taken : Bool
  pub active : Bool
  pub failover_to_next : Bool

-- The constructor `Resource()`.
abbrev pub blank : Resource
blank = record {
  id = pos 0;
  type = pos 0;
  takes = pos 0;
  limit = pos 0;
  taken = false;
  active = false;
  failover_to_next = false;
}

pub data Operation : Type 0 where
  res_put res_get res_none : Operation

pub record ResourceOperation : Type 0 where
  pub op : Operation
  pub res : Resource

pub record ResourceParseException : Type 0 where
  pub what : Text
  pub ctx : Text

-- What one text gives: a resource, or the exception that is thrown.
pub data Read : Type 0 where
  ok : Resource → Read
  err : ResourceParseException → Read

-- What the list holds in the end, and whether an exception left `parse`.
pub data Outcome : Type 0 where
  parsed : List Resource → Outcome
  threw : ResourceParseException → List Resource → Outcome

-- `if(!this->empty()) this->back().failover_to_next = false`
unfoldable pub close_back : List Resource → List Resource
close_back [] = []
close_back (r ∷ []) = record r { failover_to_next = false } ∷ []
close_back (r ∷ s ∷ rs) = r ∷ close_back (s ∷ rs)

-- `explode` and `str2int` are of the SEMS core (AmUtils).
module _ (explode : Text → Text → List Text) (str2int : Text → Option ℤ) where
  -- The four conversions, left to right; the last two arguments name the texts of the exceptions.
  unfoldable pub read_fields : Text → Text → List Text → Read
  read_fields ri ai (t ∷ i ∷ l ∷ k ∷ []) =
      let failed = err (record { what = codes "invalid format: str2int conversion"; ctx = ri }) in
      elim (str2int t) [
        | none ↦ failed
        | some t' ↦ elim (str2int i) [
          | none ↦ failed
          | some i' ↦ elim (str2int l) [
            | none ↦ failed
            | some l' ↦ elim (str2int k) [
              | none ↦ failed
              | some k' ↦ ok (record blank { id = i'; type = t'; takes = k'; limit = l' })
            ]
          ]
        ]
      ]
  read_fields ri ai _ = err (record { what = codes "invalid format: params count"; ctx = ai })

  -- The inner loop, over the options of one atom `ri`.
  unfoldable pub parse_options : Text → List Text → List Resource → Outcome
  parse_options ri [] acc = parsed acc
  parse_options ri (ai ∷ rest) acc = elim (read_fields ri ai (explode ai (codes ":"))) [
    | err e ↦ threw e acc
    | ok r ↦
        parse_options ri rest
          (if eqb_ℤ r.takes (pos 0) then acc else acc ++ record r { failover_to_next = true } ∷ [])
  ]

  -- The outer loop, over the atoms.
  unfoldable pub parse_atoms : List Text → List Resource → Outcome
  parse_atoms [] acc = parsed acc
  parse_atoms (ri ∷ rest) acc = elim (parse_options ri (explode ri (codes "|")) acc) [
    | threw e left ↦ threw e left
    | parsed acc' ↦ parse_atoms rest (close_back acc')
  ]

  unfoldable pub parse : Text → Outcome
  unfolding parse_atoms parse_options read_fields close_back
  parse rs = parse_atoms (explode rs (codes ";")) []
