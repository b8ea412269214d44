-- ===== src/Http/Gate.antt =====
-- src/transport/http_session_manager.cpp: the checks of `handle_request`, up to the handler of a
-- method. A request has the fields that the checks read; validators and the custom handler are
-- functions of the user, and a validator that throws returns `none`; the suspension in an asynchronous
-- validator is not cut, so that the gate does not change meanwhile. Headers and bodies of an answer
-- are not modelled, but for the `Allow` header.
pub mod Dispatch
use mcp_cpp_sdk.Prelude.{
  Bool, true, false, not, ◌&&◌, ◌||◌, Option, none, some, List, [], ◌∷◌, if◌then◌else◌, Bytes,
  codes, bytes_eq,
}
use mcp_cpp_sdk.Http.Types.{http_bearer_token, http_request_path}

pub data Method : Type 0 where
  get post delete other_method : Method

pub record Request : Type 0 where
  pub method : Method
  pub target : Bytes
  pub origin : Option Bytes
  pub authorization : Option Bytes

abbrev pub Validator : Type 0
Validator = Bytes → Option Bool

-- What `handle_request` reads of the session manager.
pub record Gate : Type 0 where
  pub closed : Bool
  pub allow_all_origins : Bool
  pub allowed_origins : List Bytes
  pub protected_resource_metadata_path : Option Bytes
  pub unauthenticated_paths : List Bytes
  pub bearer_token_validator : Option Validator
  pub async_bearer_token_validator : Option Validator
  pub custom_handler : Option (Request → Option Bytes)
  pub stateless_json_mode : Bool

pub data Answer : Type 0 where
  service_unavailable forbidden internal_server_error unauthorized not_found : Answer
  metadata_document : Answer
  custom : Bytes → Answer
  method_not_allowed : Bytes → Answer
  handle_post handle_get handle_delete : Answer

abbrev pub contains : List Bytes → Bytes → Bool
contains [] text = false
contains (x ∷ xs) text = bytes_eq x text || contains xs text

abbrev pub refuse_if : Bool → Answer → Option Answer
refuse_if test answer = if test then some answer else none

unfoldable pub origin_answer : Gate → Option Bytes → Option Answer
origin_answer gate none = none
origin_answer gate (some origin) =
    refuse_if (not gate.allow_all_origins && not (contains gate.allowed_origins origin)) forbidden

unfoldable pub origin_check : Gate → Request → Option Answer
unfolding origin_answer
origin_check gate request = origin_answer gate request.origin

abbrev pub is_get : Method → Bool
is_get get = true
is_get _ = false

unfoldable pub metadata_answer : Option Bytes → Request → Option Answer
metadata_answer none request = none
metadata_answer (some path) request =
    refuse_if (is_get request.method && bytes_eq (http_request_path request.target) path)
      metadata_document

unfoldable pub serve_protected_resource_metadata : Gate → Request → Option Answer
unfolding metadata_answer
serve_protected_resource_metadata gate request =
    metadata_answer gate.protected_resource_metadata_path request

unfoldable pub is_unauthenticated_path : Gate → Request → Bool
is_unauthenticated_path gate request =
    contains gate.unauthenticated_paths (http_request_path request.target)

unfoldable pub token_of : Request → Bytes
token_of request = elim request.authorization [ none ↦ [] | some header ↦ http_bearer_token header ]

-- `accepted` and `validator_failed`: the verdict on a token, `none` when the validator threw.
unfoldable pub verdict : Validator → Bytes → Option Bool
verdict validator [] = some false
verdict validator (c ∷ token) = validator (c ∷ token)

abbrev pub verdict_answer : Option Bool → Option Answer
verdict_answer none = some internal_server_error
verdict_answer (some false) = some unauthorized
verdict_answer (some true) = none

-- The validator that a request has to pass: the asynchronous one, if it is set.
abbrev pub validator_of : Gate → Option Validator
validator_of gate = elim gate.async_bearer_token_validator [
  | some validator ↦ some validator
  | none ↦ gate.bearer_token_validator
]

-- Without a validator, every token passes.
unfoldable pub token_answer : Option Validator → Bytes → Option Answer
unfolding verdict
token_answer none token = none
token_answer (some validator) token = verdict_answer (verdict validator token)

unfoldable pub bearer_check : Gate → Request → Option Answer
unfolding is_unauthenticated_path token_of token_answer
bearer_check gate request =
    if is_unauthenticated_path gate request
    then none
    else token_answer (validator_of gate) (token_of request)

abbrev pub custom_response : Option Bytes → Option Answer
custom_response none = none
custom_response (some response) = some (custom response)

unfoldable pub custom_answer : Option (Request → Option Bytes) → Request → Option Answer
custom_answer none request = none
custom_answer (some handler) request = custom_response (handler request)

-- The handler of the method.
unfoldable pub route : Bool → Method → Answer
route stateless post = handle_post
route true _ = method_not_allowed (codes "POST")
route false get = handle_get
route false delete = handle_delete
route false other_method = method_not_allowed (codes "GET, POST, DELETE")

abbrev pub or_answer : Option Answer → Answer → Answer
or_answer none rest = rest
or_answer (some answer) rest = answer

unfoldable pub handle_request : Gate → Request → Answer
unfolding origin_check serve_protected_resource_metadata is_unauthenticated_path bearer_check
    custom_answer route
handle_request gate request = or_answer (refuse_if gate.closed service_unavailable) (
    or_answer (origin_check gate request) (
      or_answer (serve_protected_resource_metadata gate request) (
        or_answer (bearer_check gate request) (
          or_answer (custom_answer gate.custom_handler request) (
            or_answer (refuse_if (is_unauthenticated_path gate request) not_found)
              (route gate.stateless_json_mode request.method))))))
