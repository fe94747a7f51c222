-- ===== src/Rca/Evidence/Listed.antt =====
-- Items picked from the evidence have IDs that the evidence has.
use sherlock.Prelude.{
  ◌≡◌, refl, String, Bool, true, List, [], ◌∷◌, str_eq, arith, mem_str, All, All-imp,
  All-filter_bool, All-map, filter_bool, str_eq_complete,
}
use sherlock.Contracts.{Evidence}
use sherlock.Rca.Evidence.{evidence_ids, find_evidence_by_kind}

-- The ID of an item of the evidence.
abbrev pub IsListed : List Evidence → String → Type 0
IsListed evidence id = mem_str id (evidence_ids evidence) ≡ true

abbrev pub AllListed : List Evidence → List Evidence → Type 0
AllListed evidence = All (λ e. IsListed evidence e.id)

IsListed-cons :
    (e : Evidence) (es : List Evidence) (id : String) → IsListed es id → IsListed (e ∷ es) id
unfolding evidence_ids
IsListed-cons e es id h = ground arith

IsListed-head : (e : Evidence) (es : List Evidence) → IsListed (e ∷ es) e.id
unfolding evidence_ids
IsListed-head e es = rw (str_eq_complete e.id e.id refl)

pub AllListed-self : (evidence : List Evidence) → AllListed evidence evidence
AllListed-self [] = tt
AllListed-self (e ∷ es) = (
  IsListed-head e es,
  All-imp (λ d. IsListed es d.id) (λ d. IsListed (e ∷ es) d.id) es
      (λ d h. IsListed-cons e es d.id h) (AllListed-self es),
)

pub AllListed-filter_bool :
    (evidence : List Evidence) (p : Evidence → Bool) (es : List Evidence)
    → AllListed evidence es
    → AllListed evidence (filter_bool p es)
AllListed-filter_bool evidence p es h =
    All-imp (λ e. (p e ≡ true) × IsListed evidence e.id) (λ e. IsListed evidence e.id)
      (filter_bool p es) (λ e k. k.1) (All-filter_bool (λ e. IsListed evidence e.id) p es h)

pub AllListed-find :
    (evidence : List Evidence) (kind : String)
    → AllListed evidence (find_evidence_by_kind evidence kind)
unfolding find_evidence_by_kind
AllListed-find evidence kind =
    AllListed-filter_bool evidence (λ e. str_eq e.kind kind) evidence (AllListed-self evidence)

pub All-evidence_ids :
    (evidence es : List Evidence)
    → AllListed evidence es
    → All (IsListed evidence) (evidence_ids es)
unfolding evidence_ids
All-evidence_ids evidence es h = All-map (IsListed evidence) (λ (e : Evidence). e.id) es h
