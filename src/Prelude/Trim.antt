-- ===== src/Prelude/Trim.antt =====
-- Go's functions on texts that the program parses with, by code points.
use Prim.Native.Nat.{ℕ}
use Prim.Native.Char.{Char, code}
use Prim.Native.String.{String}
use mathlib.Core.Bool.{Bool, true, false, ◌&&◌, ◌||◌}
use mathlib.Core.List.{List, [], ◌∷◌}
use sherlock.Prelude.Tests.{leb, ◌==◌, if◌then◌else◌}

abbrev pub is_blank_text : String → Bool
is_blank_text String.[] = true
is_blank_text (String.◌∷◌ c s) = false

-- `unicode.IsSpace`.
abbrev pub is_space_char : Char → Bool
is_space_char c =
    (leb 9 (code c) && leb (code c) 13)
    || (code c == 32)
    || (code c == 133)
    || (code c == 160)
    || (code c == 5760)
    || (leb 8192 (code c) && leb (code c) 8202)
    || (code c == 8232)
    || (code c == 8233)
    || (code c == 8239)
    || (code c == 8287)
    || (code c == 12288)

abbrev pub trim_left_text : String → String
trim_left_text String.[] = String.[]
trim_left_text (String.◌∷◌ c s) =
    let rest = trim_left_text s in if is_space_char c then rest else String.◌∷◌ c s

abbrev pub add_trimmed : Char → String → String
add_trimmed c String.[] = if is_space_char c then String.[] else String.◌∷◌ c String.[]
add_trimmed c (String.◌∷◌ d s) = String.◌∷◌ c (String.◌∷◌ d s)

-- The text without the spaces at its end.
abbrev pub trim_right_text : String → String
trim_right_text String.[] = String.[]
trim_right_text (String.◌∷◌ c s) = add_trimmed c (trim_right_text s)

-- `strings.TrimSpace`.
unfoldable pub trim_text : String → String
trim_text s = trim_left_text (trim_right_text s)

-- `strings.Split` at one character: the first piece, and the others.
abbrev pub onto_first : Char → String × List String → String × List String
onto_first c (piece, pieces) = (String.◌∷◌ c piece, pieces)

abbrev pub split_pieces : ℕ → String → String × List String
split_pieces sep String.[] = (String.[], [])
split_pieces sep (String.◌∷◌ c s) =
    let (piece, pieces) = split_pieces sep s in
    if code c == sep then (String.[], piece ∷ pieces) else (String.◌∷◌ c piece, pieces)

unfoldable pub split_text : ℕ → String → List String
split_text sep s = let (piece, pieces) = split_pieces sep s in piece ∷ pieces
