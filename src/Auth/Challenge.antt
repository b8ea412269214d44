-- ===== src/Auth/Challenge.antt =====
-- src/auth/challenge.cpp: `WWW-Authenticate`. A position in the header is the suffix that starts
-- there, the character classes are those of the "C" locale, and the loop of the parser runs on fuel.
pub mod Progress
pub mod Body
pub mod Format
use mcp_cpp_sdk.Prelude.{
  ℕ, zero, suc, ◌+◌, Bool, true, false, ◌&&◌, ◌||◌, Option, none, some, List, [], ◌∷◌, ◌++◌, map,
  leb, ltb, ◌==◌, within, if◌then◌else◌, length, Bytes, codes, bytes_eq,
}

abbrev pub quote : ℕ
quote = 0x22

abbrev pub backslash : ℕ
backslash = 0x5C

abbrev pub token_specials : Bytes
token_specials = codes "!#$%&'*+-.^_`|~"

abbrev pub mem_byte : ℕ → Bytes → Bool
mem_byte c [] = false
mem_byte c (x ∷ xs) = c == x || mem_byte c xs

abbrev pub is_alnum : ℕ → Bool
is_alnum c = within b'0' b'9' c || (within b'A' b'Z' c || within b'a' b'z' c)

unfoldable pub is_token_char : ℕ → Bool
is_token_char c = is_alnum c || mem_byte c token_specials

unfoldable pub to_lower : ℕ → ℕ
to_lower c = if within b'A' b'Z' c then c + 32 else c

unfoldable pub to_lower_ascii : Bytes → Bytes
unfolding to_lower
to_lower_ascii value = map to_lower value

unfoldable pub equals_ignore_case : Bytes → Bytes → Bool
unfolding to_lower
equals_ignore_case [] [] = true
equals_ignore_case (x ∷ left) (y ∷ right) =
    to_lower x == to_lower y && equals_ignore_case left right
equals_ignore_case _ _ = false

abbrev pub is_blank : ℕ → Bool
is_blank c = c == b' ' || c == 0x09

abbrev pub is_separator : ℕ → Bool
is_separator c = is_blank c || c == b','

unfoldable pub skip_whitespace : Bytes → Bytes
skip_whitespace [] = []
skip_whitespace (c ∷ text) = if is_blank c then skip_whitespace text else c ∷ text

unfoldable pub skip_separators : Bytes → Bytes
skip_separators [] = []
skip_separators (c ∷ text) = if is_separator c then skip_separators text else c ∷ text

-- What a reader returns, and the text behind it.
pub record Read : Type 0 where
  pub value : Bytes
  pub rest : Bytes

unfoldable pub read_token : Bytes → Read
unfolding is_token_char
read_token [] = record { value = []; rest = [] }
read_token (c ∷ text) =
    let after = read_token text in
    if is_token_char c
    then record { value = c ∷ after.value; rest = after.rest }
    else record { value = []; rest = c ∷ text }

abbrev pub push_back : ℕ → Option Read → Option Read
push_back c none = none
push_back c (some after) = some (record { value = c ∷ after.value; rest = after.rest })

-- The loop of `read_quoted_string`, behind the opening quote; the flag says that the character
-- before was an escaping backslash.
unfoldable pub read_quoted_from : Bool → Bytes → Option Read
read_quoted_from escaped [] = none
read_quoted_from true (c ∷ text) = push_back c (read_quoted_from false text)
read_quoted_from false (c ∷ text) = elim (c == backslash) [
  | true ↦ read_quoted_from true text
  | false ↦ elim (c == quote) [
    | true ↦ some (record { value = []; rest = text })
    | false ↦ push_back c (read_quoted_from false text)
  ]
]

unfoldable pub read_quoted_string : Bytes → Option Read
unfolding read_quoted_from
read_quoted_string [] = none
read_quoted_string (opening ∷ text) = read_quoted_from false text

abbrev pub Parameter : Type 0
Parameter = Bytes × Bytes

pub record BearerChallenge : Type 0 where
  pub scheme : Bytes
  pub realm : Option Bytes
  pub resource_metadata : Option Bytes
  pub scope : Option Bytes
  pub error : Option Bytes
  pub error_description : Option Bytes
  pub error_uri : Option Bytes
  pub params : List Parameter

-- `current.emplace()` with the scheme set.
abbrev pub fresh_challenge : Bytes → BearerChallenge
fresh_challenge scheme = record {
  scheme = scheme;
  realm = none;
  resource_metadata = none;
  scope = none;
  error = none;
  error_description = none;
  error_uri = none;
  params = [];
}

abbrev pub assign_once : Option Bytes → Bytes → Option Bytes
assign_once none value = some value
assign_once (some old) value = some old

abbrev assign_field : BearerChallenge → Bytes → Bytes → BearerChallenge
assign_field c name value =
    if bytes_eq name (codes "realm")
    then record c { realm = assign_once c.realm value }
    else if bytes_eq name (codes "resource_metadata")
    then record c { resource_metadata = assign_once c.resource_metadata value }
    else if bytes_eq name (codes "scope")
    then record c { scope = assign_once c.scope value }
    else if bytes_eq name (codes "error")
    then record c { error = assign_once c.error value }
    else if bytes_eq name (codes "error_description")
    then record c { error_description = assign_once c.error_description value }
    else if bytes_eq name (codes "error_uri")
    then record c { error_uri = assign_once c.error_uri value }
    else c

unfoldable pub assign_parameter : BearerChallenge → Bytes → Bytes → BearerChallenge
assign_parameter c name value = record (assign_field c name value) {
  params = c.params ++ (name, value) ∷ [];
}

unfoldable pub is_bearer : BearerChallenge → Bool
unfolding equals_ignore_case
is_bearer challenge = equals_ignore_case challenge.scheme (codes "Bearer")

-- The variables of the loop of `parse_www_authenticate`.
pub record Parse : Type 0 where
  pub challenges : List BearerChallenge
  pub current : Option BearerChallenge

unfoldable pub flush : Parse → List BearerChallenge
flush p = elim p.current [ none ↦ p.challenges | some c ↦ p.challenges ++ c ∷ [] ]

-- One round of the loop: it breaks, or it continues with another state at a later position.
pub data Round : Type 0 where
  break : Round
  continue : Parse → Bytes → Round

-- The new challenge that a bare token starts.
unfoldable pub start_challenge : Parse → Read → Round
unfolding flush skip_separators
start_challenge p name =
    continue (record { challenges = flush p; current = some (fresh_challenge name.value) })
      (skip_separators name.rest)

unfoldable pub assign_current : Parse → Bytes → Bytes → Parse
unfolding assign_parameter to_lower_ascii
assign_current p name value = record p {
  current = elim p.current [
    | none ↦ none
    | some c ↦ some (assign_parameter c (to_lower_ascii name) value)
  ];
}

abbrev pub take_value : Parse → Bytes → Read → Round
unfolding assign_current skip_separators
take_value p name read = continue (assign_current p name read.value) (skip_separators read.rest)

-- The value behind `=` and its whitespace.
unfoldable pub read_value : Parse → Bytes → Bytes → Round
unfolding read_quoted_string read_token take_value
read_value p name [] = take_value p name (read_token [])
read_value p name (c ∷ text) = elim (c == quote) [
  | true ↦ elim (read_quoted_string (c ∷ text)) [
    | none ↦ break
    | some read ↦ take_value p name read
  ]
  | false ↦ take_value p name (read_token (c ∷ text))
]

unfoldable pub skip_padding : Bytes → Bytes
skip_padding [] = []
skip_padding (c ∷ text) = if c == b'=' then skip_padding text else c ∷ text

-- `probe >= header_value.size() || header_value[probe] == ','`
abbrev pub ends_element : Bytes → Bool
ends_element [] = true
ends_element (c ∷ text) = c == b','

-- The text is what stands behind the `=` sign.
unfoldable pub after_equals : Parse → Bytes → Bytes → Round
unfolding skip_padding skip_whitespace skip_separators read_value
after_equals p name text =
    let probe = skip_whitespace (skip_padding text) in
    if ends_element probe
    then continue p (skip_separators probe)
    else read_value p name (skip_whitespace text)

unfoldable pub after_name : Parse → Read → Bytes → Round
unfolding start_challenge after_equals
after_name p name [] = start_challenge p name
after_name p name (c ∷ text) =
    if c == b'=' then after_equals p name.value text else start_challenge p name

abbrev pub is_empty : Bytes → Bool
is_empty [] = true
is_empty (c ∷ cs) = false

unfoldable pub parse_round : Parse → Bytes → Round
unfolding read_token after_name skip_whitespace
parse_round p text =
    let name = read_token text in
    if is_empty name.value then break else after_name p name (skip_whitespace name.rest)

-- What a round leads to, given the rest of the loop.
unfoldable pub after_round :
    (Parse → Bytes → Option (List BearerChallenge)) → Parse → Round → Option (List BearerChallenge)
unfolding flush
after_round loop p break = some (flush p)
after_round loop p (continue p' text) = loop p' text

-- `none` when the fuel does not suffice.
unfoldable pub parse_from : ℕ → Parse → Bytes → Option (List BearerChallenge)
unfolding parse_round after_round flush
parse_from fuel p [] = some (flush p)
parse_from zero p (c ∷ text) = none
parse_from (suc fuel) p (c ∷ text) = after_round (parse_from fuel) p (parse_round p (c ∷ text))

abbrev pub initial : Parse
initial = record { challenges = []; current = none }

unfoldable pub parse_www_authenticate : Bytes → Option (List BearerChallenge)
unfolding parse_from skip_separators
parse_www_authenticate header = parse_from (length header) initial (skip_separators header)

abbrev append_results :
    Option (List BearerChallenge) → Option (List BearerChallenge) → Option (List BearerChallenge)
append_results (some parsed) (some rest) = some (parsed ++ rest)
append_results _ _ = none

-- The overload for several header values.
unfoldable pub parse_all : List Bytes → Option (List BearerChallenge)
unfolding parse_www_authenticate
parse_all [] = some []
parse_all (header ∷ headers) = append_results (parse_www_authenticate header) (parse_all headers)

unfoldable pub select_bearer_challenge : List BearerChallenge → Option BearerChallenge
unfolding is_bearer
select_bearer_challenge [] = none
select_bearer_challenge (c ∷ challenges) =
    if is_bearer c then some c else select_bearer_challenge challenges
