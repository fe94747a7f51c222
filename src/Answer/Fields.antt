-- ===== src/Answer/Fields.antt =====
-- When the fields of an answer can be cut out.
use Prim.Native.Char.{code}
use sherlock.Prelude.{
  ℕ, suc, ◌+◌, ◌-◌, ◌≤◌, ◌≡◌, ◌↔◌, refl, String, Bool, true, false, List, [], ◌∷◌, Option, none,
  some, arith, leb, ◌==◌, if◌then◌else◌, leb→le, All, All-imp, Option-cases, Bool-cases, inl, inr,
  OnSome, trim_text,
}
use sherlock.Contracts.{Attributes}
use sherlock.Analysis.{LlmAnalysis}
use sherlock.Matches.{
  is_white, count_white, text_length, drop_text, take_text, after_prefix, or_else,
}
use sherlock.Answer.{
  field_order, FieldLoc, loc_at, find_field, add_loc, field_locs, value_end, fields_loop,
  parse_fields, parse_analysis, analysis_of,
}

-- A field that ends, with its colon and the space after it, before another begins.
abbrev pub Precedes : FieldLoc → FieldLoc → Type 0
Precedes l m = l.end ≤ m.start

-- Every field ends before each of the later ones begins.
abbrev pub InOrder : List FieldLoc → Type 0
InOrder [] = Unit
InOrder (l ∷ ls) = All (Precedes l) ls × InOrder ls

-- A place in a text of some length that begins at a position.
abbrev Within : ℕ → ℕ → FieldLoc → Type 0
Within pos n l = (l.start ≤ l.end) × (l.end ≤ pos + n)

count_white-le-text_length : (s : String) → count_white s ≤ text_length s
count_white-le-text_length String.[] = omega arith
count_white-le-text_length (String.◌∷◌ c s) =
    let shorter = count_white-le-text_length s in
    elim (Bool-cases (is_white c)) [ inl w ↦ rw w (omega arith) | inr w ↦ rw w (omega arith) ]

OnSome-if :
    {A : Type 0} (P : A → Type 0) (b : Bool) (o : Option A)
    → OnSome P o
    → OnSome P (if b then o else none)
OnSome-if P true o h = h
OnSome-if P false o h = tt

OnSome-or_else :
    {A : Type 0} (P : A → Type 0) (o later : Option A)
    → OnSome P o
    → OnSome P later
    → OnSome P (or_else o later)
OnSome-or_else P none later h k = k
OnSome-or_else P (some a) later h k = h

OnSome-imp :
    {A : Type 0} (P Q : A → Type 0) (o : Option A) → ((a : A) → P a → Q a) → OnSome P o → OnSome Q o
OnSome-imp P Q none f h = tt
OnSome-imp P Q (some a) f h = f a h

after_prefix-le-text_length :
    (p s : String) → OnSome (λ rest. text_length rest ≤ text_length s) (after_prefix p s)
after_prefix-le-text_length String.[] s = omega arith
after_prefix-le-text_length (String.◌∷◌ d p) String.[] = tt
after_prefix-le-text_length (String.◌∷◌ d p) (String.◌∷◌ c s) =
    OnSome-if _ (code d == code c) (after_prefix p s)
      (OnSome-imp _ _ (after_prefix p s) (λ rest h. omega arith) (after_prefix-le-text_length p s))

loc_at-Within :
    (name : String) (pos : ℕ) (s : String) (o : Option String)
    → OnSome (λ rest. text_length rest ≤ text_length s) o
    → OnSome (Within pos (text_length s)) (loc_at name pos s o)
loc_at-Within name pos s none h = tt
loc_at-Within name pos s (some String.[]) h = tt
loc_at-Within name pos s (some (String.◌∷◌ c rest)) h =
    let white = count_white-le-text_length rest in
    OnSome-if _ (code c == b':') _ (omega arith, omega arith)

find_field-Within :
    (name : String) (pos : ℕ) (b : Bool) (s : String)
    → OnSome (Within pos (text_length s)) (find_field name pos b s)
unfolding find_field
find_field-Within name pos b String.[] = tt
find_field-Within name pos b (String.◌∷◌ c s) =
    let whole = String.◌∷◌ c s in
    OnSome-or_else (Within pos (text_length whole)) _ (find_field name (suc pos) (code c == 10) s)
      (OnSome-if _ b _ (loc_at-Within name pos whole _ (after_prefix-le-text_length name whole)))
      (OnSome-imp _ _ (find_field name (suc pos) (code c == 10) s) (λ l h. (h.0, omega arith))
        (find_field-Within name (suc pos) (code c == 10) s))

All-add_loc :
    (P : FieldLoc → Type 0) (o : Option FieldLoc) (locs : List FieldLoc)
    → OnSome P o
    → All P locs
    → All P (add_loc o locs)
All-add_loc P none locs h k = k
All-add_loc P (some l) locs h k = (h, k)

field_locs-Within :
    (names : List String) (raw : String) → All (Within 0 (text_length raw)) (field_locs names raw)
unfolding field_locs
field_locs-Within [] raw = tt
field_locs-Within (name ∷ names) raw =
    All-add_loc _ (find_field name 0 true raw) (field_locs names raw)
      (find_field-Within name 0 true raw) (field_locs-Within names raw)

module _ (raw : String) where
  abbrev Inside : FieldLoc → Type 0
  Inside = Within 0 (text_length raw)

  abbrev pub IsCut : Option Attributes → Type 0
  IsCut o = (fields : Attributes) × (o ≡ some fields)

  Precedes-value_end :
      (l : FieldLoc) (ls : List FieldLoc)
      → All Inside ls
      → l.end ≤ value_end raw ls
      → InOrder ls
      → All (Precedes l) ls
  Precedes-value_end l [] p h o = tt
  Precedes-value_end l (m ∷ ms) p h o =
      (h, All-imp (Precedes m) (Precedes l) ms (λ n k. let inside = p.0.0 in omega arith) o.0)

  le-value_end :
      (l : FieldLoc) (ls : List FieldLoc)
      → Inside l
      → All (Precedes l) ls
      → l.end ≤ value_end raw ls
  le-value_end l [] p o = let inside = p.1 in omega arith
  le-value_end l (m ∷ ms) p o = o.0

  cuts-InOrder : (ls : List FieldLoc) → All Inside ls → IsCut (fields_loop raw ls) → InOrder ls
  unfolding fields_loop
  cuts-InOrder [] p c = tt
  cuts-InOrder (l ∷ ls) p c = elim (Bool-cases (leb l.end (value_end raw ls))) [
    | inr before ↦ absurd (cc (rw before at c.1))
    | inl after ↦ elim (Option-cases (fields_loop raw ls)) [
      | inl fails ↦ absurd (cc (rw (after, fails) at c.1))
      | inr cut ↦
          let rest = cuts-InOrder ls p.1 cut in
          (Precedes-value_end l ls p.1 (leb→le l.end (value_end raw ls) after) rest, rest)
    ]
  ]

  InOrder-cuts : (ls : List FieldLoc) → All Inside ls → InOrder ls → IsCut (fields_loop raw ls)
  unfolding fields_loop
  InOrder-cuts [] p o = ([], refl)
  InOrder-cuts (l ∷ ls) p o =
      let rest = InOrder-cuts ls p.1 o.1 in
      let after : leb l.end (value_end raw ls) ≡ true = ground (arith, le-value_end l ls p.0 o.0) in
      (
        (l.name, trim_text (take_text (value_end raw ls - l.end) (drop_text l.end raw))) ∷ rest.0,
        rw (after, rest.1) refl,
      )

-- An answer is parsed, whatever it says, unless a field of it begins before another one ends that
-- comes first in the list of fields: then, and only then, the parser panics.
pub parse_analysis-InOrder_iff :
    (raw : String)
    → ((a : LlmAnalysis) × (parse_analysis raw ≡ some a)) ↔ InOrder (field_locs field_order raw)
unfolding parse_analysis parse_fields
parse_analysis-InOrder_iff raw =
    let locs = field_locs field_order raw in
    let inside = field_locs-Within field_order raw in
    (
      λ a. elim (Option-cases (fields_loop raw locs)) [
        | inl fails ↦ absurd (cc (rw fails at a.1))
        | inr cut ↦ cuts-InOrder raw locs inside cut
      ],
      λ o. let cut = InOrder-cuts raw locs inside o in (analysis_of raw cut.0, rw cut.1 refl),
    )
