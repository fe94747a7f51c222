-- ===== src/Rca/Evidence/Lookup.antt =====
-- lookupEvidence against a description that has no index.
use sherlock.Prelude.{
  ◌≡◌, refl, String, List, [], ◌∷◌, ◌++◌, Option, none, some, str_eq, if◌then◌else◌,
}
use sherlock.Contracts.{Evidence}
use sherlock.Rca.Evidence.{build_index, index_get, append_found, lookup_evidence}

-- The last item with this ID.
abbrev pub last_with_id : String → List Evidence → Option Evidence → Option Evidence
last_with_id id [] found = found
last_with_id id (e ∷ es) found = last_with_id id es (if str_eq id e.id then some e else found)

index_get-build_index :
    (id : String) (index : List (String × Evidence)) (all : List Evidence)
    → index_get (build_index index all) id ≡ last_with_id id all (index_get index id)
unfolding build_index index_get
index_get-build_index id index [] = refl
index_get-build_index id index (e ∷ es) = index_get-build_index id ((e.id, e) ∷ index) es

-- One item for each ID that is known, in the order of the IDs, the last one of that ID.
abbrev pub last_items : List String → List Evidence → List Evidence
last_items [] all = []
last_items (id ∷ ids) all = append_found (last_with_id id all none) (last_items ids all)

-- A lookup gives, for each ID in order, the last item with that ID, and skips unknown IDs.
pub lookup_evidence_lem :
    (ids : List String) (all : List Evidence) → lookup_evidence ids all ≡ last_items ids all
unfolding lookup_evidence
lookup_evidence_lem [] all = refl
lookup_evidence_lem (id ∷ ids) all =
    rw (index_get-build_index id [] all, lookup_evidence_lem ids all)

append_found-append :
    (o : Option Evidence) (xs ys : List Evidence)
    → append_found o (xs ++ ys) ≡ append_found o xs ++ ys
append_found-append none xs ys = refl
append_found-append (some e) xs ys = refl

pub lookup_evidence-append :
    (ids more : List String) (all : List Evidence)
    → lookup_evidence (ids ++ more) all ≡ lookup_evidence ids all ++ lookup_evidence more all
unfolding lookup_evidence
lookup_evidence-append [] more all = refl
lookup_evidence-append (id ∷ ids) more all = rw (lookup_evidence-append ids more all) (
    append_found-append (index_get (build_index [] all) id) (lookup_evidence ids all)
      (lookup_evidence more all))
