-- ===== src/Remediation/Fixes.antt =====
-- The map of seen titles, and the fixes that are collected with it: a fix of a seen title is dropped.
-- internal/remediation/engine.go and internal/investigation/orchestrator.go both go by it.
use sherlock.Prelude.{
  ◌≡◌, refl, sym, ap, ◌∙◌, String, true, false, List, [], ◌∷◌, ◌++◌, Option, none, some, arith,
  str_eq, mem_str, if◌then◌else◌, inl, inr, Bool-cases, eq_iff,
}
use mathlib.Core.List.{append_assoc}
use sherlock.Contracts.{SuggestedFix}

abbrev pub Seen : Type 0
Seen = List String × List SuggestedFix

unfoldable pub add_fix : Seen → SuggestedFix → Seen
add_fix (seen, fixes) fix =
    if mem_str fix.title seen then (seen, fixes) else (fix.title ∷ seen, fixes ++ fix ∷ [])

unfoldable pub add_fixes : Seen → List SuggestedFix → Seen
unfolding add_fix
add_fixes s [] = s
add_fixes s (fix ∷ rest) = add_fixes (add_fix s fix) rest

abbrev pub titles : List SuggestedFix → List String
titles [] = []
titles (f ∷ fs) = f.title ∷ titles fs

-- No two fixes have one title.
abbrev pub IsDistinct : List SuggestedFix → Type 0
IsDistinct [] = Unit
IsDistinct (f ∷ fs) = (mem_str f.title (titles fs) ≡ false) × IsDistinct fs

-- The first fix of a title.
abbrev pub find_title : String → List SuggestedFix → Option SuggestedFix
find_title t [] = none
find_title t (f ∷ fs) = let rest = find_title t fs in if str_eq t f.title then some f else rest

-- The map holds the titles of the fixes, which are distinct.
pub record IsValid (s : Seen) : Type 0 where
  pub tracked : (t : String) → mem_str t s.0 ≡ mem_str t (titles s.1)
  pub distinct : IsDistinct s.1

mem-titles-snoc :
    (t : String) (fs : List SuggestedFix) (f : SuggestedFix)
    → mem_str t (titles (fs ++ f ∷ [])) ≡ (if str_eq t f.title then true else mem_str t (titles fs))
mem-titles-snoc t [] f = refl
mem-titles-snoc t (g ∷ fs) f = ground (arith, mem-titles-snoc t fs f)

IsDistinct-snoc :
    (fs : List SuggestedFix) (f : SuggestedFix)
    → mem_str f.title (titles fs) ≡ false
    → IsDistinct fs
    → IsDistinct (fs ++ f ∷ [])
IsDistinct-snoc [] f new d = (refl, tt)
IsDistinct-snoc (g ∷ fs) f new d = (
  ground (arith, mem-titles-snoc g.title fs f, eq_iff f.title g.title, eq_iff g.title f.title),
  IsDistinct-snoc fs f (ground arith) d.1,
)

pub add_fix-IsValid : (s : Seen) (f : SuggestedFix) → IsValid s → IsValid (add_fix s f)
unfolding add_fix
add_fix-IsValid (seen, fixes) f v = elim (Bool-cases (mem_str f.title seen)) [
  | inl old ↦ rw old v
  | inr new ↦ rw new (record {
    tracked = λ t. ground (arith, v.tracked t, mem-titles-snoc t fixes f);
    distinct = IsDistinct-snoc fixes f (sym (v.tracked f.title) ∙ new) v.distinct;
  })
]

pub add_fixes-IsValid : (fs : List SuggestedFix) (s : Seen) → IsValid s → IsValid (add_fixes s fs)
unfolding add_fixes
add_fixes-IsValid [] s v = v
add_fixes-IsValid (f ∷ fs) s v = add_fixes-IsValid fs (add_fix s f) (add_fix-IsValid s f v)

-- A fix of another title is not what is looked for.
find_title_miss :
    (t : String) (fs : List SuggestedFix) (f : SuggestedFix) (rest : List SuggestedFix)
    → str_eq t f.title ≡ false
    → find_title t (fs ++ f ∷ rest) ≡ find_title t (fs ++ rest)
find_title_miss t [] f rest h = rw h
find_title_miss t (g ∷ fs) f rest h = ground (arith, find_title_miss t fs f rest)

-- A fix whose title stands before it is not found.
find_title_skip :
    (t : String) (fs : List SuggestedFix) (f : SuggestedFix) (rest : List SuggestedFix)
    → mem_str f.title (titles fs) ≡ true
    → find_title t (fs ++ f ∷ rest) ≡ find_title t (fs ++ rest)
find_title_skip t [] f rest h = cc
find_title_skip t (g ∷ fs) f rest h = ground (
  arith,
  eq_iff f.title g.title,
  eq_iff t g.title,
  eq_iff t f.title,
  find_title_miss t fs f rest,
  find_title_skip t fs f rest,
)

add_fix-find :
    (t : String) (s : Seen) (f : SuggestedFix) (rest : List SuggestedFix)
    → IsValid s
    → find_title t ((add_fix s f).1 ++ rest) ≡ find_title t (s.1 ++ f ∷ rest)
unfolding add_fix
add_fix-find t (seen, fixes) f rest v = elim (Bool-cases (mem_str f.title seen)) [
  | inl old ↦ rw old (sym (find_title_skip t fixes f rest (sym (v.tracked f.title) ∙ old)))
  | inr new ↦ rw new (ap (find_title t) (append_assoc fixes (f ∷ []) rest))
]

-- For each title, the fix that is kept is the first one of that title.
pub add_fixes-find :
    (t : String) (fs : List SuggestedFix) (s : Seen) (rest : List SuggestedFix)
    → IsValid s
    → find_title t ((add_fixes s fs).1 ++ rest) ≡ find_title t (s.1 ++ (fs ++ rest))
unfolding add_fixes
add_fixes-find t [] s rest v = refl
add_fixes-find t (f ∷ fs) s rest v =
    add_fixes-find t fs (add_fix s f) rest (add_fix-IsValid s f v)
    ∙ add_fix-find t s f (fs ++ rest) v
