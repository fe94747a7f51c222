-- ===== src/Matches.antt =====
-- Patterns on texts, for internal/llm/parser.go: what package regexp does with its three patterns, which
-- are anchored at the start of a line. A position is a number of code points where the source counts
-- bytes; both cut a text at the same places. `\s` is ASCII white space.
use Prim.Native.Char.{Char, code}
use text.Mathlib.Text.{starts_with}
use sherlock.Prelude.{
  ℕ, zero, suc, ◌-◌, leb, ◌==◌, String, Bool, ◌||◌, List, [], ◌∷◌, Option, none, some,
  if◌then◌else◌,
}

-- `\s`
abbrev pub is_white : Char → Bool
is_white c = (code c == 9) || (code c == 10) || (code c == 12) || (code c == 13) || (code c == 32)

abbrev pub count_white : String → ℕ
count_white String.[] = 0
count_white (String.◌∷◌ c s) = let rest = count_white s in if is_white c then suc rest else 0

abbrev pub text_length : String → ℕ
text_length String.[] = 0
text_length (String.◌∷◌ c s) = suc (text_length s)

abbrev pub drop_text : ℕ → String → String
drop_text zero s = s
drop_text (suc n) String.[] = String.[]
drop_text (suc n) (String.◌∷◌ c s) = drop_text n s

abbrev pub take_text : ℕ → String → String
take_text zero s = String.[]
take_text (suc n) String.[] = String.[]
take_text (suc n) (String.◌∷◌ c s) = String.◌∷◌ c (take_text n s)

-- The text after a prefix.
abbrev pub after_prefix : String → String → Option String
after_prefix String.[] s = some s
after_prefix (String.◌∷◌ d p) String.[] = none
after_prefix (String.◌∷◌ d p) (String.◌∷◌ c s) =
    let rest = after_prefix p s in if code d == code c then rest else none

-- The text from the end of its first line on, and the line.
abbrev pub onto_line : Char → String × String → String × String
onto_line c (line, rest) = (String.◌∷◌ c line, rest)

abbrev pub cut_line : String → String × String
cut_line String.[] = (String.[], String.[])
cut_line (String.◌∷◌ c s) =
    let more = cut_line s in if code c == 10 then (String.[], String.◌∷◌ c s) else onto_line c more

abbrev pub or_else {ℓ} : {A : Type ℓ} → Option A → Option A → Option A
or_else none later = later
or_else (some a) later = some a

-- `raw[from:to]`
abbrev pub slice_text : String → ℕ → ℕ → Option String
slice_text raw from to =
    if leb from to then some (take_text (to - from) (drop_text from raw)) else none

-- The text from the first occurrence of another on.
abbrev pub index_from : String → String → Option String
index_from part String.[] = none
index_from part (String.◌∷◌ c s) =
    let later = index_from part s in
    if starts_with (String.◌∷◌ c s) part then some (String.◌∷◌ c s) else later

-- All matches of a pattern at the starts of lines. `match` gives what it captured and how long the match
-- is; `skip` counts down the rest of the last match.
module _ {A : Type 0} (match : String → Option (A × ℕ)) where
  abbrev pub from_match : Option (A × ℕ) → (ℕ → List A) → List A
  from_match none next = next 0
  from_match (some (a, n)) next = a ∷ next (n - 1)

  unfoldable pub find_all : ℕ → Bool → String → List A
  find_all skip line_start String.[] = []
  find_all (suc skip) line_start (String.◌∷◌ c s) = find_all skip (code c == 10) s
  find_all zero line_start (String.◌∷◌ c s) =
      from_match (if line_start then match (String.◌∷◌ c s) else none)
        (λ skip. find_all skip (code c == 10) s)

-- What is left of a match when its last part, `(.+)$`, begins at this text; the match began at `whole`.
abbrev pub capture : String → String → Option (String × ℕ)
capture whole String.[] = none
capture whole (String.◌∷◌ c s) =
    let (line, rest) = cut_line (String.◌∷◌ c s) in
    some (line, text_length whole - text_length rest)
