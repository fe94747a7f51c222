-- ===== src/SlackApp.antt =====
-- internal/slack/app.go: what a command, a shortcut, a mention or a button makes the application do. The
-- services are functions, which answer the same in one call of a handler. A handler returns its error,
-- if any, with the calls it made, in order. `%.0f` of a confidence prints its hundredths. Lower case is
-- ASCII.
pub mod Messages
pub mod Starts
pub mod Buttons
pub mod Mentions
pub mod Backed
pub mod Handled
use Prim.Native.Char.{Char, code}
use Prim.Native.String
use Prim.Native.String.{◌++◌ as str_append}
use sherlock.Prelude.{
  ℕ, zero, suc, ◌+◌, ◌-◌, leb, ltb, ◌==◌, String, Bool, true, false, ◌&&◌, ◌||◌, not, List, [], ◌∷◌,
  ◌++◌, map, Option, none, some, str_eq, if◌then◌else◌, filter_bool, codes, to_lower, lower_text,
  contains, trim_text, Result, ok, err, length, is_space_char,
}
use sherlock.Contracts.{
  Attributes, Evidence, Investigation, NormalizedAlert, Hypothesis, SuggestedFix, Time, lookup,
  evidence_k8s_state, evidence_log, evidence_metric, evidence_event, evidence_deploy,
  evidence_git_change,
}
use sherlock.Duration.{hour}
use sherlock.Matches.{
  text_length, take_text, drop_text, index_from, cut_line, after_prefix, count_white,
}
use sherlock.SlackTransport.{SlashCommand, MessageShortcut, InteractionAction}
use sherlock.Receivers.{or_text}

pub data AppCall : Type 0 where
  post_started : (channel : String) → AppCall
  enqueue : (channel thread user text : String) → AppCall
  post_error : (channel thread message : String) → AppCall
  post_update : (channel thread message : String) → AppCall
  list_evidence : (id : String) → AppCall
  get_investigation : (id : String) → AppCall
  get_alert : (id : String) → AppCall
  suppress : (fingerprint : String) (expires_at : Time) (created_by reason : String) → AppCall

pub record App (E : Type 0) : Type 0 where
  pub start_thread : String → Result E String
  pub enqueue_investigation : String → String → String → String → Result E String
  pub update : String → String → String → Option E
  pub evidence_of : String → Result E (List Evidence)
  pub investigation_by_id : String → Result E Investigation
  pub alert_by_id : String → Result E NormalizedAlert
  pub create_suppression : Option (String → Time → String → String → Option E)
  pub now : Time
  pub print : ℕ → String
  pub status_text : Investigation → String
  pub message_of : E → String
  pub wrapf : String → E → E

abbrev pub evidence_trace : String
evidence_trace = "trace"

abbrev pub evidence_config : String
evidence_config = "config"

-- `len` of a text: the bytes of its UTF-8.
abbrev pub char_bytes : Char → ℕ
char_bytes c =
    if ltb (code c) 128
    then 1
    else if ltb (code c) 2048
    then 2
    else if ltb (code c) 65536
    then 3
    else 4

abbrev pub byte_length : String → ℕ
byte_length String.[] = 0
byte_length (String.◌∷◌ c s) = char_bytes c + byte_length s

abbrev pub concat_text : List String → String
concat_text [] = ""
concat_text (x ∷ xs) = str_append x (concat_text xs)

-- The first word of a text.
abbrev pub first_word : String → String
first_word String.[] = String.[]
first_word (String.◌∷◌ c s) =
    let rest = first_word s in if is_space_char c then String.[] else String.◌∷◌ c rest

-- The text from the place on where another stands in its lower case.
abbrev pub from_keyword : String → String → Option String → String
from_keyword keyword text none = ""
from_keyword keyword text (some lower) =
    drop_text ((text_length text - text_length lower) + text_length keyword) text

unfoldable pub extract_arg : String → String → String
unfolding trim_text
extract_arg text keyword =
    first_word (trim_text (from_keyword keyword text (index_from keyword (lower_text text))))

-- `[A-Z0-9]`
abbrev pub is_id_char : Char → Bool
is_id_char c = (leb b'A' (code c) && leb (code c) b'Z') || (leb b'0' (code c) && leb (code c) b'9')

abbrev pub count_id : String → ℕ
count_id String.[] = 0
count_id (String.◌∷◌ c s) = let rest = count_id s in if is_id_char c then suc rest else 0

-- The length of a match of `<@[A-Z0-9]+>\s*`, after its first two characters and the identifier.
abbrev pub mention_end : ℕ → String → ℕ
mention_end n String.[] = 0
mention_end n (String.◌∷◌ c s) =
    if ltb 0 n && code c == b'>' then suc (suc (suc (n + count_white s))) else 0

abbrev pub mention_after : Option String → ℕ
mention_after none = 0
mention_after (some s) = mention_end (count_id s) (drop_text (count_id s) s)

-- The text without the mentions; `skip` counts down the rest of a match.
unfoldable pub remove_mentions : ℕ → String → String
remove_mentions skip String.[] = String.[]
remove_mentions (suc skip) (String.◌∷◌ c s) = remove_mentions skip s
remove_mentions zero (String.◌∷◌ c s) =
    let n = mention_after (after_prefix "<@" (String.◌∷◌ c s)) in
    let kept = remove_mentions zero s in
    let skipped = remove_mentions (n - 1) s in if ltb 0 n then skipped else String.◌∷◌ c kept
