-- ===== src/Http/Gate/Dispatch.antt =====
-- Which requests reach a handler of MCP messages in src/transport/http_session_manager.cpp.
use mcp_cpp_sdk.Prelude.{
  ◌≡◌, ◌↔◌, ◌⊎◌, ◌≢◌, refl, sym, ◌∙◌, Bool, true, false, not, ◌&&◌, ◌||◌, Option, none, some, [],
  ◌∷◌, if◌then◌else◌, Bytes, bytes_eq, arith, Bool-cases, inl, inr,
}
use mcp_cpp_sdk.Http.Types.{http_request_path}
use mcp_cpp_sdk.Http.Gate.{
  Method, get, post, delete, other_method, Request, Validator, Gate, Answer, service_unavailable,
  forbidden, internal_server_error, unauthorized, not_found, metadata_document, custom, handle_post,
  handle_get, handle_delete, is_get, contains, refuse_if, origin_answer, origin_check,
  metadata_answer, serve_protected_resource_metadata, is_unauthenticated_path, token_of, verdict,
  verdict_answer, validator_of, token_answer, custom_response, bearer_check, custom_answer, route,
  or_answer, handle_request,
}

-- The answers that hand a request to MCP.
abbrev pub dispatches : Answer → Bool
dispatches handle_post = true
dispatches handle_get = true
dispatches handle_delete = true
dispatches _ = false

abbrev Passes : Option Answer → Type 0
Passes check = check ≡ none

abbrev Refuses : Option Answer → Type 0
Refuses check =
    (check ≡ none) ⊎ ((answer : Answer) × ((check ≡ some answer) × (dispatches answer ≡ false)))

or_answer-dispatches :
    (check : Option Answer) (rest : Answer)
    → Refuses check
    → (dispatches (or_answer check rest) ≡ true) ↔ (Passes check × (dispatches rest ≡ true))
or_answer-dispatches check rest (inl e) = rw e ((λ h. (refl, h)), λ h. h.1)
or_answer-dispatches check rest (inr (answer, (e, stops))) =
    rw e ((λ h. ground (arith, h, stops)), λ h. ground (arith, h.0))

refuse_if-Refuses :
    (test : Bool) (answer : Answer) → dispatches answer ≡ false → Refuses (refuse_if test answer)
refuse_if-Refuses true answer h = inr (answer, (refl, h))
refuse_if-Refuses false answer h = inl refl

refuse_if-none : (test : Bool) (answer : Answer) → (refuse_if test answer ≡ none) ↔ (test ≡ false)
refuse_if-none true answer = ((λ h. ground (arith, h)), λ h. ground (arith, h))
refuse_if-none false answer = ((λ h. refl), λ h. refl)

-- The origin is absent or allowed.
abbrev pub OriginAllowed : Gate → Option Bytes → Type 0
OriginAllowed gate none = Unit
OriginAllowed gate (some origin) =
    (gate.allow_all_origins || contains gate.allowed_origins origin) ≡ true

allowed : (a b : Bool) → ((not a && not b) ≡ false) ↔ ((a || b) ≡ true)
allowed true b = ((λ h. refl), λ h. refl)
allowed false true = ((λ h. refl), λ h. refl)
allowed false false = ((λ h. sym h), λ h. sym h)

origin_answer-Refuses : (gate : Gate) (origin : Option Bytes) → Refuses (origin_answer gate origin)
unfolding origin_answer
origin_answer-Refuses gate none = inl refl
origin_answer-Refuses gate (some origin) = refuse_if-Refuses _ forbidden refl

origin_answer-none :
    (gate : Gate) (origin : Option Bytes)
    → (origin_answer gate origin ≡ none) ↔ OriginAllowed gate origin
unfolding origin_answer
origin_answer-none gate none = ((λ h. tt), λ h. refl)
origin_answer-none gate (some origin) =
    let test =
      refuse_if-none (not gate.allow_all_origins && not (contains gate.allowed_origins origin))
        forbidden in
    let both = allowed gate.allow_all_origins (contains gate.allowed_origins origin) in
    ((λ h. both.0 (test.0 h)), λ h. test.1 (both.1 h))

-- The request is not for the metadata document.
abbrev pub NotMetadata : Option Bytes → Request → Type 0
NotMetadata none request = Unit
NotMetadata (some path) request =
    (is_get request.method && bytes_eq (http_request_path request.target) path) ≡ false

metadata_answer-Refuses :
    (path : Option Bytes) (request : Request) → Refuses (metadata_answer path request)
unfolding metadata_answer
metadata_answer-Refuses none request = inl refl
metadata_answer-Refuses (some path) request = refuse_if-Refuses _ metadata_document refl

metadata_answer-none :
    (path : Option Bytes) (request : Request)
    → (metadata_answer path request ≡ none) ↔ NotMetadata path request
unfolding metadata_answer
metadata_answer-none none request = ((λ h. tt), λ h. refl)
metadata_answer-none (some path) request = refuse_if-none _ metadata_document

-- No validator is set, or the token is there and the validator accepts it.
abbrev pub TokenAccepted : Option Validator → Bytes → Type 0
TokenAccepted none token = Unit
TokenAccepted (some validator) token = (token ≢ []) × (validator token ≡ some true)

verdict_answer-Refuses : (v : Option Bool) → Refuses (verdict_answer v)
verdict_answer-Refuses none = inr (internal_server_error, (refl, refl))
verdict_answer-Refuses (some false) = inr (unauthorized, (refl, refl))
verdict_answer-Refuses (some true) = inl refl

verdict_answer-none : (v : Option Bool) → (verdict_answer v ≡ none) ↔ (v ≡ some true)
verdict_answer-none none = ground arith
verdict_answer-none (some false) = ground arith
verdict_answer-none (some true) = ground arith

token_answer-Refuses :
    (validator : Option Validator) (token : Bytes) → Refuses (token_answer validator token)
unfolding token_answer
token_answer-Refuses none token = inl refl
token_answer-Refuses (some validator) token = verdict_answer-Refuses (verdict validator token)

token_answer-none :
    (validator : Option Validator) (token : Bytes)
    → (token_answer validator token ≡ none) ↔ TokenAccepted validator token
unfolding token_answer verdict
token_answer-none none token = ((λ h. tt), λ h. refl)
token_answer-none (some validator) [] = ((λ h. ground (arith, h)), λ h. absurd (h.0 refl))
token_answer-none (some validator) (c ∷ token) =
    let both = verdict_answer-none (validator (c ∷ token)) in
    ((λ h. ((λ e. ground (arith, e)), both.0 h)), λ h. both.1 h.1)

-- No custom handler is set, or it declines.
abbrev pub Declined : Option (Request → Option Bytes) → Request → Type 0
Declined none request = Unit
Declined (some handler) request = handler request ≡ none

custom_response-Refuses : (response : Option Bytes) → Refuses (custom_response response)
custom_response-Refuses none = inl refl
custom_response-Refuses (some response) = inr (custom response, (refl, refl))

custom_response-none :
    (response : Option Bytes) → (custom_response response ≡ none) ↔ (response ≡ none)
custom_response-none none = ((λ h. refl), λ h. refl)
custom_response-none (some response) = ground arith

custom_answer-Refuses :
    (handler : Option (Request → Option Bytes)) (request : Request)
    → Refuses (custom_answer handler request)
unfolding custom_answer
custom_answer-Refuses none request = inl refl
custom_answer-Refuses (some handler) request = custom_response-Refuses (handler request)

custom_answer-none :
    (handler : Option (Request → Option Bytes)) (request : Request)
    → (custom_answer handler request ≡ none) ↔ Declined handler request
unfolding custom_answer
custom_answer-none none request = ((λ h. tt), λ h. refl)
custom_answer-none (some handler) request = custom_response-none (handler request)

-- The methods that are served; in stateless mode, only POST.
abbrev pub Served : Bool → Method → Type 0
Served stateless post = Unit
Served stateless get = stateless ≡ false
Served stateless delete = stateless ≡ false
Served stateless other_method = ⊥

route-dispatches :
    (stateless : Bool) (method : Method)
    → (dispatches (route stateless method) ≡ true) ↔ Served stateless method
unfolding route
route-dispatches true post = ((λ h. tt), λ h. refl)
route-dispatches false post = ((λ h. tt), λ h. refl)
route-dispatches true get = ground arith
route-dispatches false get = ((λ h. refl), λ h. refl)
route-dispatches true delete = ground arith
route-dispatches false delete = ((λ h. refl), λ h. refl)
route-dispatches true other_method = ((λ h. ground (arith, h)), λ h. absurd h)
route-dispatches false other_method = ((λ h. ground (arith, h)), λ h. absurd h)

bearer_check-Refuses : (gate : Gate) (request : Request) → Refuses (bearer_check gate request)
unfolding bearer_check
bearer_check-Refuses gate request = elim (Bool-cases (is_unauthenticated_path gate request)) [
  | inl e ↦ rw (bearer_check, e, if◌then◌else◌) (inl refl)
  | inr e ↦
      rw (bearer_check, e, if◌then◌else◌)
        (token_answer-Refuses (validator_of gate) (token_of request))
]

bearer_check-guarded :
    (gate : Gate) (request : Request)
    → is_unauthenticated_path gate request ≡ false
    → bearer_check gate request ≡ token_answer (validator_of gate) (token_of request)
unfolding bearer_check
bearer_check-guarded gate request e = rw (bearer_check, e, if◌then◌else◌) refl

-- What every check of a request that is dispatched asks for.
pub record Admitted (gate : Gate) (request : Request) : Type 0 where
  pub listening : gate.closed ≡ false
  pub origin : OriginAllowed gate request.origin
  pub protocol : NotMetadata gate.protected_resource_metadata_path request
  pub token : TokenAccepted (validator_of gate) (token_of request)
  pub declined : Declined gate.custom_handler request
  pub guarded : is_unauthenticated_path gate request ≡ false
  pub served : Served gate.stateless_json_mode request.method

-- A request reaches a handler of MCP exactly if the manager is open, the origin is allowed, it does
-- not ask for the metadata document, its path is not exempt from authentication, its bearer token is
-- accepted where a validator is set, the custom handler declines, and its method is served.
pub handle_request-Admitted :
    (gate : Gate) (request : Request)
    → (dispatches (handle_request gate request) ≡ true) ↔ Admitted gate request
unfolding handle_request
handle_request-Admitted gate request =
    let handler = route gate.stateless_json_mode request.method in
    let last = or_answer (refuse_if (is_unauthenticated_path gate request) not_found) handler in
    let customs = or_answer (custom_answer gate.custom_handler request) last in
    let bearers = or_answer (bearer_check gate request) customs in
    let documents = or_answer (serve_protected_resource_metadata gate request) bearers in
    let origins = or_answer (origin_check gate request) documents in
    let closed =
      or_answer-dispatches (refuse_if gate.closed service_unavailable) origins
        (refuse_if-Refuses gate.closed service_unavailable refl) in
    let origin =
      or_answer-dispatches (origin_answer gate request.origin) documents
        (origin_answer-Refuses gate request.origin) in
    let document =
      or_answer-dispatches (metadata_answer gate.protected_resource_metadata_path request) bearers
        (metadata_answer-Refuses gate.protected_resource_metadata_path request) in
    let bearer =
      or_answer-dispatches (bearer_check gate request) customs
        (bearer_check-Refuses gate request) in
    let custom' =
      or_answer-dispatches (custom_answer gate.custom_handler request) last
        (custom_answer-Refuses gate.custom_handler request) in
    let exempt =
      or_answer-dispatches (refuse_if (is_unauthenticated_path gate request) not_found) handler
        (refuse_if-Refuses (is_unauthenticated_path gate request) not_found refl) in
    let is_open = refuse_if-none gate.closed service_unavailable in
    let is_guarded = refuse_if-none (is_unauthenticated_path gate request) not_found in
    let is_accepted = token_answer-none (validator_of gate) (token_of request) in
    let is_allowed = origin_answer-none gate request.origin in
    let is_other = metadata_answer-none gate.protected_resource_metadata_path request in
    let is_declined = custom_answer-none gate.custom_handler request in
    let is_served = route-dispatches gate.stateless_json_mode request.method in
    (
      (λ h.
          let (c, h1) = closed.0 h in
          let (o, h2) = origin.0 h1 in
          let (d, h3) = document.0 h2 in
          let (b, h4) = bearer.0 h3 in
          let (u, h5) = custom'.0 h4 in
          let (e, h6) = exempt.0 h5 in
          let guarded = is_guarded.0 e in
          record {
            listening = is_open.0 c;
            origin = is_allowed.0 o;
            protocol = is_other.0 d;
            token = is_accepted.0 (sym (bearer_check-guarded gate request guarded) ∙ b);
            declined = is_declined.0 u;
            guarded = guarded;
            served = is_served.0 h6;
          }),
      λ a. closed.1 (
        is_open.1 a.listening,
        origin.1 (
          is_allowed.1 a.origin,
          document.1 (
            is_other.1 a.protocol,
            bearer.1 (
              bearer_check-guarded gate request a.guarded ∙ is_accepted.1 a.token,
              custom'.1 (
                is_declined.1 a.declined,
                exempt.1 (is_guarded.1 a.guarded, is_served.1 a.served),
              ),
            ),
          ),
        ),
      ),
    )
