-- ===== src/Answer.antt =====
-- internal/llm/parser.go: ParseAnalysis and ParseFollowUps. `none` is a panic: a slice of the text that
-- ends before it begins.
pub mod Fields
use Prim.Native.Char.{Char, code}
use Prim.Native.String
use Prim.Native.String.{◌++◌ as str_append}
use text.Mathlib.Text.{starts_with}
use sherlock.Prelude.{
  ℕ, zero, suc, ◌+◌, ◌-◌, leb, ◌==◌, String, Bool, true, false, ◌&&◌, ◌||◌, not, List, [], ◌∷◌,
  ◌++◌, map, Option, none, some, str_eq, if◌then◌else◌, filter_bool, any, codes, to_lower,
  lower_text, to_upper, has_prefix, trim_text, split_text, is_blank_text,
}
use sherlock.Contracts.{Attributes, lookup}
use sherlock.Matches.{
  is_white, count_white, text_length, drop_text, take_text, after_prefix, cut_line, or_else,
  slice_text, from_match, find_all, capture, index_from,
}
use sherlock.Analysis.{LlmAnalysis, FollowUpQuery, eq_codes}

abbrev pub field_order : List String
field_order =
    "SUMMARY" ∷ "ROOT_CAUSE" ∷ "SEVERITY" ∷ "EXIT_TYPE" ∷ "ACTION_REQUIRED" ∷ "BUG_FIXABLE"
    ∷ "CONFIDENCE" ∷ "RECOMMENDATIONS" ∷ "FOLLOW_UP" ∷ []

pub record FieldLoc : Type 0 where
  pub name : String
  pub start : ℕ
  pub end : ℕ

-- `(?m)^NAME:\s*` from a position on; `line_start` tells whether a line begins there.
abbrev pub loc_at : String → ℕ → String → Option String → Option FieldLoc
loc_at name pos s none = none
loc_at name pos s (some (String.[])) = none
loc_at name pos s (some (String.◌∷◌ c rest)) =
    if code c == b':'
    then some (record {
      name = name;
      start = pos;
      end = pos + (text_length s - text_length rest) + count_white rest;
    })
    else none

unfoldable pub find_field : String → ℕ → Bool → String → Option FieldLoc
find_field name pos line_start String.[] = none
find_field name pos line_start (String.◌∷◌ c s) =
    or_else
      (if line_start
        then loc_at name pos (String.◌∷◌ c s) (after_prefix name (String.◌∷◌ c s))
        else none)
      (find_field name (suc pos) (code c == 10) s)

abbrev pub add_loc : Option FieldLoc → List FieldLoc → List FieldLoc
add_loc none locs = locs
add_loc (some l) locs = l ∷ locs

unfoldable pub field_locs : List String → String → List FieldLoc
unfolding find_field
field_locs [] raw = []
field_locs (name ∷ names) raw = add_loc (find_field name 0 true raw) (field_locs names raw)

abbrev pub value_end : String → List FieldLoc → ℕ
value_end raw [] = text_length raw
value_end raw (l ∷ ls) = l.start

abbrev pub add_field : String → Option String → Option Attributes → Option Attributes
add_field name none rest = none
add_field name (some value) none = none
add_field name (some value) (some fields) = some ((name, trim_text value) ∷ fields)

unfoldable pub fields_loop : String → List FieldLoc → Option Attributes
unfolding trim_text
fields_loop raw [] = some []
fields_loop raw (l ∷ ls) =
    add_field l.name (slice_text raw l.end (value_end raw ls)) (fields_loop raw ls)

unfoldable pub parse_fields : String → Option Attributes
unfolding field_locs fields_loop
parse_fields raw = fields_loop raw (field_locs field_order raw)

-- `^-\s+(.+)$`. Where only white space follows, the source captures some of it, which is blank.
unfoldable pub match_recommendation : String → Option (String × ℕ)
match_recommendation String.[] = none
match_recommendation (String.◌∷◌ c s) =
    if (code c == b'-') && leb 1 (count_white s)
    then capture (String.◌∷◌ c s) (drop_text (count_white s) s)
    else none

abbrev pub tools : List String
tools = "TRACE_LOGS" ∷ "TIME_WINDOW_LOGS" ∷ "POD_EVENTS" ∷ "GITHUB_FILES" ∷ "LOG_QUERY" ∷ []

-- Whether the white space before the end of the text has more than line ends in it.
abbrev pub has_blank : String → Bool
has_blank String.[] = false
has_blank (String.◌∷◌ c s) = let rest = has_blank s in if code c == 10 then rest else true

abbrev pub query_of : String → String × ℕ → FollowUpQuery × ℕ
query_of tool (value, n) = (record { tool = tool; value = trim_text value }, n)

abbrev pub after_colon : String → String → String → Option (String × ℕ) → Option (FollowUpQuery × ℕ)
after_colon whole tool rest (some captured) = some (query_of tool captured)
after_colon whole tool rest none =
    if has_blank rest then some (query_of tool ("", text_length whole)) else none

abbrev pub colon_value : String → String → Option String → Option (FollowUpQuery × ℕ)
colon_value whole tool none = none
colon_value whole tool (some String.[]) = none
colon_value whole tool (some (String.◌∷◌ c rest)) =
    if code c == b':'
    then after_colon whole tool rest (capture whole (drop_text (count_white rest) rest))
    else none

abbrev pub first_tool : String → String → List String → Option (FollowUpQuery × ℕ)
first_tool whole s [] = none
first_tool whole s (tool ∷ rest) =
    or_else (colon_value whole tool (after_prefix tool s)) (first_tool whole s rest)

-- `^-\s*(TOOL):\s*(.+)$`
unfoldable pub match_follow_up : String → Option (FollowUpQuery × ℕ)
unfolding trim_text
match_follow_up String.[] = none
match_follow_up (String.◌∷◌ c s) =
    if code c == b'-' then first_tool (String.◌∷◌ c s) (drop_text (count_white s) s) tools else none

abbrev pub follow_ups_in : Option String → List FollowUpQuery
follow_ups_in none = []
follow_ups_in (some block) = find_all match_follow_up 0 true block

unfoldable pub parse_follow_ups : String → List FollowUpQuery
unfolding match_follow_up find_all
parse_follow_ups raw = follow_ups_in (index_from "FOLLOW_UP:" raw)

abbrev pub join_spaced : List String → String
join_spaced [] = ""
join_spaced (x ∷ []) = x
join_spaced (x ∷ y ∷ rest) = str_append x (str_append " " (join_spaced (y ∷ rest)))

unfoldable pub clean_multiline : String → String
unfolding trim_text split_text
clean_multiline s = join_spaced (map trim_text (split_text 10 (trim_text s)))

-- `strings.EqualFold`, under which the long s (383) is an s.
abbrev pub fold_code : ℕ → ℕ
fold_code c = if c == 383 then b's' else c

unfoldable pub is_yes : String → Bool
unfolding trim_text to_lower
is_yes s = eq_codes (map fold_code (to_lower (trim_text s))) (codes "yes")

unfoldable pub is_follow_up_tool : String → Bool
unfolding to_upper
is_follow_up_tool s = any (λ tool. has_prefix (to_upper s) (codes (str_append tool ":"))) tools

abbrev pub is_recommendation : String → Bool
is_recommendation text = not (str_eq text "") && not (is_follow_up_tool text)

-- A missing field is an empty block.
unfoldable pub recommendations_in : String → List String
unfolding match_recommendation find_all is_follow_up_tool
recommendations_in block =
    filter_bool is_recommendation (map trim_text (find_all match_recommendation 0 true block))

abbrev pub analysis_of : String → Attributes → LlmAnalysis
analysis_of raw fields = record {
  summary = clean_multiline (lookup "SUMMARY" fields);
  root_cause = clean_multiline (lookup "ROOT_CAUSE" fields);
  severity = lower_text (trim_text (lookup "SEVERITY" fields));
  exit_type = lower_text (trim_text (lookup "EXIT_TYPE" fields));
  action_required = is_yes (lookup "ACTION_REQUIRED" fields);
  bug_fixable = is_yes (lookup "BUG_FIXABLE" fields);
  confidence = lower_text (trim_text (lookup "CONFIDENCE" fields));
  recommendations = recommendations_in (lookup "RECOMMENDATIONS" fields);
  follow_ups = parse_follow_ups raw;
  raw_response = raw;
  pass_count = 0;
  deep_dive = false;
  ai_provider = "";
  ai_error = "";
}

abbrev pub with_fields : String → Option Attributes → Option LlmAnalysis
with_fields raw none = none
with_fields raw (some fields) = some (analysis_of raw fields)

unfoldable pub parse_analysis : String → Option LlmAnalysis
unfolding parse_fields clean_multiline is_yes recommendations_in parse_follow_ups
parse_analysis raw = with_fields raw (parse_fields raw)
