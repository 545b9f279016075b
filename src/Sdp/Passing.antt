-- ===== src/Sdp/Passing.antt =====
-- What passes every active entry of a list of filters.
use sems_yeti.Prelude.{Bool, true, not, ◌&&◌, List, [], ◌∷◌, filter}
use sems_yeti.Prelude.Classes.{Text}
use sems_yeti.Sdp.{Payload, Attribute, Media, lower}
use sems_yeti.Sdp.Filters.{FilterEntry, whitelist, blacklist, transparent, undefined, in_list}

-- What an entry lets pass: a whitelist the names that are in it, a blacklist the others, any other entry all.
abbrev pub lets_pass : FilterEntry → Text → Bool
lets_pass e c = elim e.filter_type [
  | whitelist ↦ in_list c e.filter_list
  | blacklist ↦ not (in_list c e.filter_list)
  | transparent ↦ true
  | undefined ↦ true
]

-- A name passes every entry.
abbrev pub passes : List FilterEntry → Text → Bool
passes [] c = true
passes (e ∷ es) c = lets_pass e c && passes es c

abbrev pub passing_attributes : List FilterEntry → List Attribute → List Attribute
passing_attributes es = filter (λ a. passes es (lower a.attribute))

abbrev pub passing_payloads : List FilterEntry → List Payload → List Payload
passing_payloads es = filter (λ p. passes es (lower p.encoding_name))

abbrev pub passing_media : List FilterEntry → Media → Media
passing_media es m = record m { attributes = passing_attributes es m.attributes }
