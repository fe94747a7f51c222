-- ===== src/Correlation/Pairs.antt =====
-- Which correlations a pair of items has, and what every correlation of the graph is.
use sherlock.Prelude.{
  ℕ, ◌+◌, ◌*◌, ◌≤◌, ◌≡◌, refl, List, [], ◌∷◌, Option, none, some, arith, length, length-append, ◌⊎◌,
  inl, inr, All, All-append, ◌≤ℤ◌, ap, sym, ◌∙◌, ◌++◌,
}
use sherlock.Contracts.{Evidence, Correlation, InvestigationData}
use sherlock.Correlation.{
  temporal_correlation, label_correlation, topology_correlation, append_some, correlate_pair,
  inner_loop, outer_loop, correlate, min_correlation_str,
}

append_one :
    (xs : List Evidence) (y : Evidence) (ys : List Evidence) → (xs ++ y ∷ []) ++ ys ≡ xs ++ y ∷ ys
append_one [] y ys = refl
append_one (x ∷ xs) y ys = ap (λ l. x ∷ l) (append_one xs y ys)

-- Two items are never correlated both by label and by topology.
label_or_topology :
    (a b : Evidence) → (label_correlation a b ≡ none) ⊎ (topology_correlation a b ≡ none)
unfolding label_correlation topology_correlation
label_or_topology a b = ground arith

weight : Option Correlation → ℕ
weight none = 0
weight (some c) = 1

length-append_some :
    (cs : List Correlation) (o : Option Correlation)
    → length (append_some cs o) ≡ length cs + weight o
unfolding weight
length-append_some cs none = omega arith
length-append_some cs (some c) = length-append cs (c ∷ [])

weight-le : (o : Option Correlation) → weight o ≤ 1
unfolding weight
weight-le none = omega arith
weight-le (some c) = omega arith

weight-none : (o : Option Correlation) → o ≡ none → weight o ≡ 0
unfolding weight
weight-none o e = rw e

weight-label-topology :
    (a b : Evidence) → weight (label_correlation a b) + weight (topology_correlation a b) ≤ 1
weight-label-topology a b = elim (label_or_topology a b) [
  | inl e ↦
      omega (arith, weight-none (label_correlation a b) e, weight-le (topology_correlation a b))
  | inr e ↦
      omega (arith, weight-none (topology_correlation a b) e, weight-le (label_correlation a b))
]

length-correlate_pair-le :
    (a b : Evidence) (cs : List Correlation) → length (correlate_pair a b cs) ≤ length cs + 2
unfolding correlate_pair
length-correlate_pair-le a b cs =
    let t = temporal_correlation a b in
    let l = label_correlation a b in
    omega (
      arith,
      length-append_some (append_some (append_some cs t) l) (topology_correlation a b),
      length-append_some (append_some cs t) l,
      length-append_some cs t,
      weight-le t,
      weight-label-topology a b,
    )

length-inner_loop-le :
    (a : Evidence) (bs : List Evidence) (cs : List Correlation)
    → length (inner_loop a bs cs) ≤ length cs + 2 * length bs
unfolding inner_loop
length-inner_loop-le a [] cs = omega arith
length-inner_loop-le a (b ∷ bs) cs =
    omega
      (arith, length-correlate_pair-le a b cs, length-inner_loop-le a bs (correlate_pair a b cs))

length-outer_loop-le :
    (es : List Evidence) (cs : List Correlation)
    → length (outer_loop es cs) + length es ≤ length cs + length es * length es
unfolding outer_loop
length-outer_loop-le [] cs = omega arith
length-outer_loop-le (a ∷ rest) cs =
    omega (arith, length-inner_loop-le a rest cs, length-outer_loop-le rest (inner_loop a rest cs))

-- Of n items of evidence there are at most n * (n - 1) correlations: two for each pair.
length-correlate-le :
    (d : InvestigationData)
    → length (correlate d).correlations + length d.evidence ≤ length d.evidence * length d.evidence
unfolding correlate
length-correlate-le d = omega (arith, length-outer_loop-le d.evidence [])

-- One of the three tests of a pair has found the correlation.
abbrev pub IsFound : Evidence → Evidence → Correlation → Type 0
IsFound a b c =
    (temporal_correlation a b ≡ some c)
    ⊎ (label_correlation a b ≡ some c)
    ⊎ (topology_correlation a b ≡ some c)

-- A correlation that names two items, of one of the three types and of at least the minimum.
pub record Joins (a b : Evidence) (c : Correlation) : Type 0 where
  pub from : c.evidence_a ≡ a.id
  pub to : c.evidence_b ≡ b.id
  pub typed : (c.type ≡ "temporal") ⊎ (c.type ≡ "label") ⊎ (c.type ≡ "topology")
  pub strong : min_correlation_str ≤ℤ c.strength

temporal-Joins :
    (a b : Evidence) (c : Correlation) → temporal_correlation a b ≡ some c → Joins a b c
unfolding temporal_correlation
temporal-Joins a b c h = record {
  from = ground arith;
  to = ground arith;
  typed = inl (ground arith);
  strong = ground arith;
}

label-Joins : (a b : Evidence) (c : Correlation) → label_correlation a b ≡ some c → Joins a b c
unfolding label_correlation
label-Joins a b c h = record {
  from = ground arith;
  to = ground arith;
  typed = inr (inl (ground arith));
  strong = ground arith;
}

topology-Joins :
    (a b : Evidence) (c : Correlation) → topology_correlation a b ≡ some c → Joins a b c
unfolding topology_correlation
topology-Joins a b c h = record {
  from = ground arith;
  to = ground arith;
  typed = inr (inr (ground arith));
  strong = ground arith;
}

-- A correlation of two items that stand at different places of the evidence, the first one first.
pub record IsLink (evidence : List Evidence) (c : Correlation) : Type 0 where
  pub before : List Evidence
  pub a : Evidence
  pub between : List Evidence
  pub b : Evidence
  pub after : List Evidence
  pub placed : evidence ≡ before ++ a ∷ (between ++ b ∷ after)
  pub found : IsFound a b c
  pub joined : Joins a b c

found-Joins : (a b : Evidence) (c : Correlation) → IsFound a b c → Joins a b c
found-Joins a b c (inl h) = temporal-Joins a b c h
found-Joins a b c (inr (inl h)) = label-Joins a b c h
found-Joins a b c (inr (inr h)) = topology-Joins a b c h

module _ (evidence : List Evidence) where
  append_some-IsLink :
      (cs : List Correlation) (o : Option Correlation)
      → ((c : Correlation) → o ≡ some c → IsLink evidence c)
      → All (IsLink evidence) cs
      → All (IsLink evidence) (append_some cs o)
  append_some-IsLink cs none new h = h
  append_some-IsLink cs (some c) new h = All-append (IsLink evidence) cs (c ∷ []) h (new c refl, tt)

  correlate_pair-IsLink :
      (a b : Evidence) (cs : List Correlation)
      → ((c : Correlation) → IsFound a b c → IsLink evidence c)
      → All (IsLink evidence) cs
      → All (IsLink evidence) (correlate_pair a b cs)
  unfolding correlate_pair
  correlate_pair-IsLink a b cs link h =
      append_some-IsLink _ (topology_correlation a b) (λ c e. link c (inr (inr e)))
        (append_some-IsLink _ (label_correlation a b) (λ c e. link c (inr (inl e)))
          (append_some-IsLink cs (temporal_correlation a b) (λ c e. link c (inl e)) h))

  inner_loop-IsLink :
      (before : List Evidence) (a : Evidence) (between bs : List Evidence) (cs : List Correlation)
      → evidence ≡ before ++ a ∷ (between ++ bs)
      → All (IsLink evidence) cs
      → All (IsLink evidence) (inner_loop a bs cs)
  unfolding inner_loop
  inner_loop-IsLink before a between [] cs e h = h
  inner_loop-IsLink before a between (b ∷ bs) cs e h =
      inner_loop-IsLink before a (between ++ b ∷ []) bs (correlate_pair a b cs)
        (e ∙ ap (λ l. before ++ a ∷ l) (sym (append_one between b bs)))
        (correlate_pair-IsLink a b cs
          (λ c f. record {
            before = before;
            a = a;
            between = between;
            b = b;
            after = bs;
            placed = e;
            found = f;
            joined = found-Joins a b c f;
          })
          h)

  outer_loop-IsLink :
      (before es : List Evidence) (cs : List Correlation)
      → evidence ≡ before ++ es
      → All (IsLink evidence) cs
      → All (IsLink evidence) (outer_loop es cs)
  unfolding outer_loop
  outer_loop-IsLink before [] cs e h = h
  outer_loop-IsLink before (a ∷ rest) cs e h =
      outer_loop-IsLink (before ++ a ∷ []) rest (inner_loop a rest cs)
        (e ∙ sym (append_one before a rest)) (inner_loop-IsLink before a [] rest cs e h)

-- Every correlation of the graph comes from one of the three tests of two items that stand at
-- different places of the evidence, names the earlier and then the later one, has one of the three
-- types, and is of at least three tenths; of n items there are at most n * (n - 1) correlations; and
-- the graph holds the data unchanged.
pub correlate-IsLink :
    (d : InvestigationData)
    → All (IsLink d.evidence) (correlate d).correlations
      × (length (correlate d).correlations + length d.evidence
          ≤ length d.evidence * length d.evidence)
      × ((correlate d).investigation_data ≡ d)
unfolding correlate
correlate-IsLink d =
    (outer_loop-IsLink d.evidence [] d.evidence [] refl tt, length-correlate-le d, refl)
