-- ===== src/Resource/Tests.antt =====
-- Resource lists as routing profiles spell them.
use sems_yeti.Prelude.{
  ℕ, ◌≡◌, refl, ◌==◌, ◌*◌, ◌+◌, ◌-◌, List, [], ◌∷◌, Option, none, some, if◌then◌else◌, true,
}
use sems_yeti.Prelude.Int.{ℤ, pos}
use sems_yeti.Prelude.Classes.{Text, codes}
use sems_yeti.Resource.Groups.{IsClosed}
use sems_yeti.Resource.Parse.{AllFresh, parse-AllFresh}
use sems_yeti.Resource.{Resource, blank, parsed, parse}

-- A split at one byte and decimal numbers, in place of the SEMS core's functions.
add_first : ℕ → List Text → List Text
add_first b [] = (b ∷ []) ∷ []
add_first b (t ∷ ts) = (b ∷ t) ∷ ts

split_at : ℕ → Text → List Text
split_at c [] = []
split_at c (b ∷ t) = let rest = split_at c t in if b == c then [] ∷ rest else add_first b rest

explode : Text → Text → List Text
explode t [] = t ∷ []
explode t (c ∷ sep) = split_at c t

digits_from : ℕ → Text → ℕ
digits_from n [] = n
digits_from n (d ∷ t) = digits_from (n * 10 + (d - b'0')) t

str2int : Text → Option ℤ
str2int [] = none
str2int (d ∷ t) = some (pos (digits_from 0 (d ∷ t)))

abbrev profile : Text
profile = codes "1:7:10:1|1:8:5:1;2:9:3:0|2:4:3:2"

abbrev resource : ℕ → ℕ → ℕ → ℕ → Resource
resource t i l k = record blank { type = pos t; id = pos i; limit = pos l; takes = pos k }

abbrev profile_list : List Resource
profile_list =
    record (resource 1 7 10 1) { failover_to_next = true }
    ∷ resource 1 8 5 1
    ∷ resource 2 4 3 2
    ∷ []

parse-profile : parse explode str2int profile ≡ parsed profile_list
unfolding parse explode split_at add_first str2int digits_from
parse-profile = refl

parse-AllFresh_example : AllFresh profile_list × IsClosed profile_list
parse-AllFresh_example = parse-AllFresh explode str2int profile profile_list parse-profile
