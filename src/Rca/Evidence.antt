-- ===== src/Rca/Evidence.antt =====
-- internal/rca/rules.go (the helpers at its end) and lookupEvidence of internal/rca/confidence.go.
pub mod Lookup
pub mod Listed
use sherlock.Prelude.{
  String, Bool, true, false, ◌||◌, List, [], ◌∷◌, map, Option, none, some, str_eq, contains,
  to_lower, any, filter_bool, if◌then◌else◌,
}
use sherlock.Contracts.{Evidence}

unfoldable pub find_evidence_by_kind : List Evidence → String → List Evidence
find_evidence_by_kind evidence kind = filter_bool (λ e. str_eq e.kind kind) evidence

-- The map's values are tried in no particular order, and the result does not depend on it.
unfoldable pub evidence_contains : Evidence → String → Bool
evidence_contains e term =
    let lower = to_lower term in
    if contains (to_lower e.summary) lower
    then true
    else any (λ (kv : String × String). contains (to_lower kv.1) lower) e.attributes

unfoldable pub evidence_ids : List Evidence → List String
evidence_ids evidence = map (λ e. e.id) evidence

-- The map from IDs: a later item replaces an earlier one of the same ID.
unfoldable pub build_index : List (String × Evidence) → List Evidence → List (String × Evidence)
build_index index [] = index
build_index index (e ∷ es) = build_index ((e.id, e) ∷ index) es

unfoldable pub index_get : List (String × Evidence) → String → Option Evidence
index_get [] id = none
index_get ((j, e) ∷ index) id =
    let rest = index_get index id in if str_eq id j then some e else rest

abbrev pub append_found : Option Evidence → List Evidence → List Evidence
append_found none rest = rest
append_found (some e) rest = e ∷ rest

unfoldable pub lookup_loop : List (String × Evidence) → List String → List Evidence
lookup_loop index [] = []
lookup_loop index (id ∷ ids) = append_found (index_get index id) (lookup_loop index ids)

unfoldable pub lookup_evidence : List String → List Evidence → List Evidence
unfolding lookup_loop build_index index_get
lookup_evidence ids all = lookup_loop (build_index [] all) ids
