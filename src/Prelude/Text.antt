-- ===== src/Prelude/Text.antt =====
-- Texts: native strings where the program compares whole texts, code points where it walks them.
use Prim.Native.Nat.{ℕ, zero, suc, ◌+◌, ◌-◌}
use Prim.Native.Char.{Char, code}
use Prim.Native.String.{String}
use mathlib.Core.Path.{◌≡◌}
use mathlib.Core.Bool.{Bool, true, false, ◌&&◌}
use mathlib.Core.List.{List, [], ◌∷◌, map}
use text.Mathlib.Text.{◌==◌ as str_eq}
use text.Mathlib.TextEquality.{eq_iff}
use sherlock.Prelude.Tests.{leb, ◌==◌, if◌then◌else◌}

pub str_eq_sound : (s t : String) → str_eq s t ≡ true → s ≡ t
str_eq_sound s t h = (eq_iff s t).0 h

pub str_eq_complete : (s t : String) → s ≡ t → str_eq s t ≡ true
str_eq_complete s t h = (eq_iff s t).1 h

abbrev pub codes : String → List ℕ
codes String.[] = []
codes (String.◌∷◌ c s) = code c ∷ codes s

-- The ASCII part of `unicode.ToLower`.
unfoldable pub lower_code : ℕ → ℕ
lower_code c = if leb b'A' c && leb c b'Z' then c + 32 else c

unfoldable pub to_lower : String → List ℕ
unfolding lower_code
to_lower s = map lower_code (codes s)

-- The ASCII part of `unicode.ToUpper`.
unfoldable pub upper_code : ℕ → ℕ
upper_code c = if leb b'a' c && leb c b'z' then c - 32 else c

unfoldable pub to_upper : String → List ℕ
unfolding upper_code
to_upper s = map upper_code (codes s)

abbrev pub has_prefix : List ℕ → List ℕ → Bool
has_prefix s [] = true
has_prefix [] (c ∷ t) = false
has_prefix (d ∷ s) (c ∷ t) = let rest = has_prefix s t in if d == c then rest else false

-- `strings.Contains s t`.
abbrev pub contains : List ℕ → List ℕ → Bool
contains [] t = has_prefix [] t
contains (c ∷ s) t = let rest = contains s t in if has_prefix (c ∷ s) t then true else rest

-- A Go map with string keys, as an association list.
abbrev pub mem_str : String → List String → Bool
mem_str k [] = false
mem_str k (j ∷ js) = let rest = mem_str k js in if str_eq k j then true else rest

-- The ASCII part of `strings.ToLower`, as a text.
abbrev pub nth_char : Char → ℕ → String → Char
nth_char c n String.[] = c
nth_char c zero (String.◌∷◌ d s) = d
nth_char c (suc n) (String.◌∷◌ d s) = nth_char c n s

abbrev pub lower_char : Char → Char
lower_char c =
    if leb b'A' (code c) && leb (code c) b'Z'
    then nth_char c (code c - b'A') "abcdefghijklmnopqrstuvwxyz"
    else c

abbrev pub lower_text : String → String
lower_text String.[] = String.[]
lower_text (String.◌∷◌ c s) = String.◌∷◌ (lower_char c) (lower_text s)
