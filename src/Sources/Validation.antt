-- ===== src/Sources/Validation.antt =====
-- Code: server/domain/source/validation.js. A value has the type that its field should have; `none`
-- is null or a field that is not there.
use Prim.Native.Char.{code}
use tech_pulse_ai.Prelude.{
  Bool, List, Option, Result, String, [], err, false, if◌then◌else◌, includes, js_length, leb, ltb,
  none, not, ok, some, str_eq, throw_if, ℕ, ◌&&◌, ◌+◌, ◌==◌, ◌>>=◌, ◌>>◌, ◌||◌, ◌∷◌,
}

pub record Url : Type 0 where
  pub protocol : String
  pub username : String
  pub password : String
  pub hostname : String
  pub text : String

-- What the platform gives: `trim`, `\s`, `domainToASCII` in lower case, `isIP` and `new URL`.
pub record Web : Type 0 where
  pub trim : String → String
  pub is_space : ℕ → Bool
  pub to_ascii : String → String
  pub is_ip : String → Bool
  pub parse_url : String → Option Url

pub data Failure : Type 0 where
  invalid invalid_state_transition : Failure

abbrev pub Checked : Type 0 → Type 0
Checked = Result Failure

-- `requireNonEmptyString`.
unfoldable pub require_text : Web → String → ℕ → Checked String
require_text w s maximum = do
  throw_if (js_length (w.trim s) == 0 || ltb maximum (js_length (w.trim s))) invalid
  ok (w.trim s)

unfoldable pub require_some_text : Web → Option String → ℕ → Checked String
unfolding require_text
require_some_text w none maximum = err invalid
require_some_text w (some s) maximum = require_text w s maximum

pub bad_host_char : Web → ℕ → Bool
bad_host_char w c = c == b':' || c == b'/' || c == b'@' || c == b'*' || w.is_space c

pub has_bad_char : Web → String → Bool
unfolding bad_host_char
has_bad_char w String.[] = false
has_bad_char w (String.◌∷◌ c s) = bad_host_char w (code c) || has_bad_char w s

-- `value.replace(/\.$/, '')`.
pub drop_last_dot : String → String
drop_last_dot String.[] = ""
drop_last_dot (String.◌∷◌ c s) =
    let rest = drop_last_dot s in
    if js_length s == 0 && code c == b'.' then "" else String.◌∷◌ c rest

pub is_suffix : String → String → Bool
is_suffix p String.[] = str_eq p ""
is_suffix p (String.◌∷◌ c s) = str_eq p (String.◌∷◌ c s) || is_suffix p s

abbrev private_suffixes : List String
private_suffixes = ".internal" ∷ ".local" ∷ ".localhost" ∷ ".localdomain" ∷ ".home" ∷ ".lan" ∷ []

pub is_private : List String → String → Bool
unfolding is_suffix
is_private [] host = false
is_private (p ∷ ps) host = is_suffix p host || is_private ps host

pub is_label_char : ℕ → Bool
is_label_char c = leb b'a' c && leb c b'z' || leb b'0' c && leb c b'9'

-- Whether every label of the rest of a host matches: `n` characters of the label are read, and the
-- last one, if any, may end it or not.
pub labels_match : ℕ → Bool → String → Bool
unfolding is_label_char
labels_match n may_end String.[] = leb 1 n && leb n 63 && may_end
labels_match n may_end (String.◌∷◌ c s) =
    let next_label = labels_match 0 false s in
    let same_label = labels_match (n + 1) (is_label_char (code c)) s in
    if code c == b'.'
    then leb 1 n && leb n 63 && may_end && next_label
    else (is_label_char (code c) || code c == b'-' && leb 1 n) && same_label

pub has_dot : String → Bool
has_dot String.[] = false
has_dot (String.◌∷◌ c s) = code c == b'.' || has_dot s

unfoldable pub normalize_reviewed_hostname : Web → String → Checked String
unfolding require_text has_bad_char drop_last_dot has_dot is_private labels_match
normalize_reviewed_hostname w value = do
  input ← require_text w value 253
  throw_if (has_bad_char w input) invalid
  let ascii = w.to_ascii (drop_last_dot input)
  throw_if
      (js_length ascii == 0 || ltb 253 (js_length ascii) || w.is_ip ascii || not (has_dot ascii))
      invalid
  throw_if (str_eq ascii "localhost" || is_private private_suffixes ascii) invalid
  throw_if (not (labels_match 0 false ascii)) invalid
  ok ascii

pub https_text : Web → Url → Checked String
unfolding normalize_reviewed_hostname
https_text w u = do
  throw_if
      (not (str_eq u.protocol "https:") || not (str_eq u.username "") || not (str_eq u.password ""))
      invalid
  host ← normalize_reviewed_hostname w u.hostname
  ok u.text

-- `validateHttpsUrl`.
unfoldable pub validate_https_url : Web → Option String → Checked (Option String)
unfolding https_text
validate_https_url w none = ok none
validate_https_url w (some s) = do
  throw_if (ltb 2048 (js_length s)) invalid
  elim (w.parse_url s) [ none ↦ err invalid | some u ↦ do text ← https_text w u; ok (some text) ]

-- The configuration of a connector; `keys` are the names of the fields that are given, in their order:
-- a field among them that is `none` is null, one that is not is undefined.
pub record ConnectorConfig : Type 0 where
  pub keys : List String
  pub kind : String
  pub batch_size : ℕ
  pub feed_url : Option String
  pub arxiv_query : Option String
  pub hacker_news_stream : Option String

pub record Connector : Type 0 where
  pub connector_type : String
  pub access_method : String
  pub authority_tier : String
  pub connector_config : ConnectorConfig

pub record ConnectorRule : Type 0 where
  pub access : List String
  pub authority : List String

-- `CONNECTORS`; the kind of a rule is its name.
pub rule_for : String → Option ConnectorRule
rule_for t =
    if str_eq t "rss"
    then some (record { access = "rss" ∷ "atom" ∷ []; authority = "primary" ∷ "editorial" ∷ [] })
    else if str_eq t "arxiv"
    then some (record { access = "api" ∷ []; authority = "primary" ∷ [] })
    else if str_eq t "hacker-news"
    then some (record { access = "api" ∷ []; authority = "community-signal" ∷ [] })
    else none

pub validate_feed : Web → ConnectorConfig → Checked (Option String)
unfolding validate_https_url require_some_text
validate_feed w c =
    if str_eq c.kind "rss"
    then validate_https_url w c.feed_url
    else if str_eq c.kind "arxiv"
    then (do q ← require_some_text w c.arxiv_query 200; ok (some q))
    else if elim c.hacker_news_stream [
      | none ↦ false
      | some s ↦ includes ("topstories" ∷ "newstories" ∷ "beststories" ∷ []) s
    ]
    then ok c.hacker_news_stream
    else err invalid

-- `validateConnectorUnit`.
unfoldable pub validate_connector_unit : Web → Connector → Checked (Option String)
unfolding rule_for validate_feed
validate_connector_unit w c = elim (rule_for c.connector_type) [
  | none ↦ err invalid
  | some rule ↦ do
    throw_if
        (not (includes rule.access c.access_method)
          || not (includes rule.authority c.authority_tier)
          || not (str_eq c.connector_config.kind c.connector_type))
        invalid
    throw_if (ltb c.connector_config.batch_size 1 || ltb 100 c.connector_config.batch_size) invalid
    validate_feed w c.connector_config
]
