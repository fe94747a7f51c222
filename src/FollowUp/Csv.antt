-- ===== src/FollowUp/Csv.antt =====
-- A list of names written with commas is read back.
use Prim.Native.Char.{code}
use sherlock.Prelude.{
  ℕ, ◌≡◌, ◌≢◌, refl, ap, ◌∙◌, String, Bool, true, false, List, [], ◌∷◌, map, if◌then◌else◌, ◌==◌,
  All, filter_bool, trim_text, split_text, split_pieces, arith, eq_iff, Bool-cases, inl, inr,
}
use sherlock.FollowUp.{parse_csv, is_given}

abbrev pub has_char : ℕ → String → Bool
has_char k String.[] = false
has_char k (String.◌∷◌ c s) = let rest = has_char k s in if code c == k then true else rest

-- A text, a comma, and another text.
abbrev pub with_comma : String → String → String
with_comma String.[] t = String.◌∷◌ "," t
with_comma (String.◌∷◌ c s) t = String.◌∷◌ c (with_comma s t)

abbrev pub joined : List String → String
joined [] = ""
joined (x ∷ []) = x
joined (x ∷ y ∷ rest) = with_comma x (joined (y ∷ rest))

abbrev pub HasNoComma : String → Type 0
HasNoComma s = has_char b',' s ≡ false

-- The pieces that spell a list of items: each is an item with space around it, or blank.
pub data Spells : List String → List String → Type 0 where
  done : Spells [] []
  item :
      (piece x : String) {ps xs : List String}
      → trim_text piece ≡ x
      → x ≢ ""
      → Spells ps xs
      → Spells (piece ∷ ps) (x ∷ xs)
  blank :
      (piece : String) {ps xs : List String}
      → trim_text piece ≡ ""
      → Spells ps xs
      → Spells (piece ∷ ps) xs

split_pieces-single : (s : String) → has_char b',' s ≡ false → split_pieces b',' s ≡ (s, [])
split_pieces-single String.[] h = refl
split_pieces-single (String.◌∷◌ c s) h = elim (Bool-cases (code c == b',')) [
  | inl comma ↦ absurd (cc (rw comma at h))
  | inr other ↦ rw (other, split_pieces-single s (rw other at h)) refl
]

split_pieces-with_comma :
    (s t : String)
    → has_char b',' s ≡ false
    → split_pieces b',' (with_comma s t) ≡ (s, (split_pieces b',' t).0 ∷ (split_pieces b',' t).1)
split_pieces-with_comma String.[] t h = refl
split_pieces-with_comma (String.◌∷◌ c s) t h = elim (Bool-cases (code c == b',')) [
  | inl comma ↦ absurd (cc (rw comma at h))
  | inr other ↦ rw (other, split_pieces-with_comma s t (rw other at h)) refl
]

split_text-joined :
    (x : String) (xs : List String)
    → All HasNoComma (x ∷ xs)
    → split_text b',' (joined (x ∷ xs)) ≡ x ∷ xs
unfolding split_text
split_text-joined x [] h = rw (split_pieces-single x h.0) refl
split_text-joined x (y ∷ rest) h =
    rw (split_pieces-with_comma x (joined (y ∷ rest)) h.0)
      (ap (λ l. x ∷ l) (split_text-joined y rest h.1))

filter-trim_text :
    {ps xs : List String} → Spells ps xs → filter_bool is_given (map trim_text ps) ≡ xs
filter-trim_text done = refl
filter-trim_text (item piece x trimmed given h) =
    ground (arith, eq_iff (trim_text piece) "", trimmed, given, filter-trim_text h)
filter-trim_text (blank piece trimmed h) =
    ground (arith, eq_iff (trim_text piece) "", trimmed, filter-trim_text h)

-- Pieces with no commas in them, each an item with space around it or blank, joined by commas, are
-- read back as the items, in their order.
pub parse_csv-joined :
    (ps xs : List String) → All HasNoComma ps → Spells ps xs → parse_csv (joined ps) ≡ xs
unfolding parse_csv
parse_csv-joined [] xs h done = refl
parse_csv-joined (p ∷ ps) xs h spells =
    ap (λ l. filter_bool is_given (map trim_text l)) (split_text-joined p ps h)
    ∙ filter-trim_text spells
