-- ===== src/Auth/Identity.antt =====
-- src/auth/client_identity.cpp: which identity a client presents to an authorization server, and
-- the scope that it registers with. Of the JSON bodies, only the scope is modelled. A time is a
-- signed number of 64 bits, of which only the order is used.
pub mod Binding
pub mod Scope
mod Tests
use mcp_cpp_sdk.Prelude.{
  ℕ, Bool, true, false, not, ◌&&◌, ◌||◌, Option, none, some, List, [], ◌∷◌, ◌++◌, leb, ◌==◌, within,
  if◌then◌else◌, Bytes, codes, bytes_eq, Table, lookup, assign, erase,
}
use mcp_cpp_sdk.Http.Types.{is_empty}

-- A signed number.
pub data ℤ : Type 0 where
  pos negsuc : ℕ → ℤ

abbrev pub at_most : ℤ → ℤ → Bool
at_most (pos a) (pos b) = leb a b
at_most (pos a) (negsuc b) = false
at_most (negsuc a) (pos b) = true
at_most (negsuc a) (negsuc b) = leb b a

pub record OAuthClientInformation : Type 0 where
  pub client_id : Bytes
  pub client_secret : Option Bytes
  pub client_id_issued_at : Option ℤ
  pub client_secret_expires_at : Option ℤ
  pub issuer : Bytes

abbrev is_zero : ℤ → Bool
is_zero (pos n) = n == 0
is_zero (negsuc n) = false

unfoldable pub secret_expired : OAuthClientInformation → ℤ → Bool
secret_expired information now_seconds = elim information.client_secret_expires_at [
  | none ↦ false
  | some expiry ↦ if is_zero expiry then false else at_most expiry now_seconds
]

pub record ClientIdentityConfig : Type 0 where
  pub pre_registered : Option OAuthClientInformation
  pub client_metadata_url : Option Bytes
  pub scope : Option Bytes

pub record ClientIdentityServerFacts : Type 0 where
  pub issuer : Bytes
  pub client_id_metadata_document_supported : Bool
  pub registration_endpoint : Option Bytes
  pub scopes_supported : List Bytes

pub data ClientIdentityDecision : Type 0 where
  use_pre_registered use_client_id_metadata_document reuse_stored_registration :
      ClientIdentityDecision
  register_dynamically unavailable : ClientIdentityDecision

-- `value && !value->empty()`
abbrev pub has_text : Option Bytes → Bool
has_text none = false
has_text (some text) = not (is_empty text)

-- The decision for credentials that the application injected.
unfoldable pub select_injected :
    OAuthClientInformation → ClientIdentityServerFacts → ClientIdentityDecision
select_injected injected server =
    if is_empty injected.issuer
    then if has_text injected.client_secret then unavailable else use_pre_registered
    else if bytes_eq injected.issuer server.issuer
    then use_pre_registered
    else unavailable

unfoldable pub is_reusable : Option OAuthClientInformation → Bytes → Bool
is_reusable none issuer = false
is_reusable (some stored) issuer =
    not (is_empty stored.client_id) && (bytes_eq stored.issuer issuer && not (is_empty issuer))

-- The decision without injected credentials.
unfoldable pub select_other :
    Option Bytes
    → ClientIdentityServerFacts
    → Option OAuthClientInformation
    → ClientIdentityDecision
unfolding is_reusable
select_other client_metadata_url server stored =
    if has_text client_metadata_url && server.client_id_metadata_document_supported
    then use_client_id_metadata_document
    else if is_reusable stored server.issuer
    then reuse_stored_registration
    else if has_text server.registration_endpoint
    then register_dynamically
    else unavailable

unfoldable pub select_from :
    Option OAuthClientInformation
    → Option Bytes
    → ClientIdentityServerFacts
    → Option OAuthClientInformation
    → ClientIdentityDecision
unfolding select_injected select_other
select_from none client_metadata_url server stored = select_other client_metadata_url server stored
select_from (some injected) client_metadata_url server stored =
    if is_empty injected.client_id
    then select_other client_metadata_url server stored
    else select_injected injected server

unfoldable pub select_client_identity :
    ClientIdentityConfig
    → ClientIdentityServerFacts
    → Option OAuthClientInformation
    → ClientIdentityDecision
unfolding select_from
select_client_identity config server stored =
    select_from config.pre_registered config.client_metadata_url server stored

-- `InMemoryClientCredentialStore`
abbrev pub CredentialStore : Type 0
CredentialStore = Table OAuthClientInformation

unfoldable pub store : CredentialStore → Bytes → OAuthClientInformation → CredentialStore
store credentials issuer information = assign issuer information credentials

unfoldable pub load : CredentialStore → Bytes → Option OAuthClientInformation
load credentials issuer = lookup issuer credentials

unfoldable pub remove : CredentialStore → Bytes → CredentialStore
remove credentials issuer = erase issuer credentials

-- What `>>` of a stream skips, in the C locale.
abbrev pub is_blank : ℕ → Bool
is_blank c = c == 0x20 || within 0x09 0x0D c

-- A word that ends.
abbrev pub end_word : Bytes → List Bytes → List Bytes
end_word [] words = words
end_word (c ∷ word) words = (c ∷ word) ∷ words

-- The loop of `split_scope`; the first argument is the word so far.
unfoldable pub split_from : Bytes → Bytes → List Bytes
split_from word [] = end_word word []
split_from word (c ∷ text) =
    if is_blank c then end_word word (split_from [] text) else split_from (word ++ c ∷ []) text

unfoldable pub split_scope : Bytes → List Bytes
unfolding split_from
split_scope scope = split_from [] scope

abbrev pub spaced : Bytes → Bytes
spaced [] = []
spaced (c ∷ joined) = (c ∷ joined) ++ 0x20 ∷ []

-- The loop of `join_scope`; the first argument is `joined`.
unfoldable pub join_from : Bytes → List Bytes → Bytes
join_from joined [] = joined
join_from joined (value ∷ values) = join_from (spaced joined ++ value) values

unfoldable pub join_scope : List Bytes → Bytes
unfolding join_from
join_scope values = join_from [] values

abbrev pub contains : List Bytes → Bytes → Bool
contains [] needle = false
contains (value ∷ values) needle = bytes_eq value needle || contains values needle

abbrev pub offline_access : Bytes
offline_access = codes "offline_access"

abbrev pub scope_words : Option Bytes → List Bytes
scope_words none = []
scope_words (some scope) = split_scope scope

abbrev pub with_offline_access : List Bytes → List Bytes
with_offline_access scopes =
    if contains scopes offline_access then scopes else scopes ++ offline_access ∷ []

-- The `scope` of the body of `build_registration_request`.
unfoldable pub registration_scope : Option Bytes → ClientIdentityServerFacts → Option Bytes
unfolding split_scope join_scope
registration_scope scope server =
    if contains server.scopes_supported offline_access
    then some (join_scope (with_offline_access (scope_words scope)))
    else scope
