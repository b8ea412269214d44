-- ===== src/Http/Sessions/Deletion.antt =====
-- What a DELETE of src/transport/http_session_manager.cpp, and `close`, leave of a session.
use mcp_cpp_sdk.Prelude.{
  ℕ, ◌≡◌, ◌≢◌, refl, sym, ap, subst, ◌∙◌, true, false, Option, none, some, [], ◌∷◌, if-both,
  get_or-set_ne, get_or-set_self, Bytes, codes, bytes_eq, bytes_eq_refl, Table, lookup,
  lookup-erase_self, lookup-erase_ne, arith,
}
use mcp_cpp_sdk.Http.Sessions.Runtime.{PendingResponse, SessionRuntime, all_ready, release}
use mcp_cpp_sdk.Http.Sessions.Manager.{
  Manager, new_session, runtime, find_session, released_at, destroy_session,
}
use mcp_cpp_sdk.Http.Sessions.Handlers.{
  HttpRequest, json_response, session_not_found, wrong_version, admitted, refused, admit_version,
  admit_found, admit, delete_admitted, handle_delete, get_admitted, handle_get, wait_for_pending,
  wait_for_response,
}
use mcp_cpp_sdk.Http.Sessions.Invariant.{IsValid, id_at}

-- No request waits in a table.
abbrev pub NoneWaits : Table PendingResponse → Type 0
NoneWaits table =
    (key : Bytes) (pending : PendingResponse)
    → lookup key table ≡ some pending
    → pending.response_ready ≡ true

pub all_ready-NoneWaits : (table : Table PendingResponse) → NoneWaits (all_ready table)
unfolding all_ready
all_ready-NoneWaits [] key pending h = ground (arith, h)
all_ready-NoneWaits ((k, first) ∷ table) key pending h =
    if-both (λ o. (o ≡ some pending) → pending.response_ready ≡ true) (bytes_eq key k) _ _
      (λ e found. ap (λ o. elim o [ none ↦ true | some p ↦ p.response_ready ]) (sym found))
      (λ e found. all_ready-NoneWaits table key pending found) h

module _ {V : Type 0} where
  -- The entry that a wait finds decides whether it goes on.
  wait_for_pending-ends :
      (manager : Manager V) (p : ℕ) (key : Bytes) (accept : Option Bytes)
      (found : Option PendingResponse)
      → ((pending : PendingResponse) → found ≡ some pending → pending.response_ready ≡ true)
      → wait_for_pending manager p key accept found ≢ none
  unfolding wait_for_pending
  wait_for_pending-ends manager p key accept none h = λ e. ground (arith, e)
  wait_for_pending-ends manager p key accept (some pending) h =
      if-both (λ o. o ≢ none) pending.response_ready _ _ (λ e stuck. ground (arith, stuck))
        (λ e. ground (arith, e, h pending refl))

  -- A wait in a session where every response is marked ready ends.
  pub wait_for_response-ends :
      (manager : Manager V) (p : ℕ) (key : Bytes) (accept : Option Bytes)
      → NoneWaits (runtime manager p).pending_responses
      → wait_for_response manager p key accept ≢ none
  unfolding wait_for_response
  wait_for_response-ends manager p key accept h =
      if-both (λ o. o ≢ none) manager.closed _ _ (λ e stuck. ground (arith, stuck))
        (λ e. wait_for_pending-ends manager p key accept _ (h key))

  pub release-NoneWaits :
      (session : SessionRuntime V) → NoneWaits (release session).pending_responses
  unfolding release
  release-NoneWaits session = all_ready-NoneWaits session.pending_responses

  -- Sessions of different identifiers stand at different pointers.
  other_pointer :
      (manager : Manager V) (id other : Bytes) (p q : ℕ)
      → IsValid manager
      → lookup id manager.sessions ≡ some p
      → lookup other manager.sessions ≡ some q
      → bytes_eq other id ≡ false
      → p ≢ q
  other_pointer manager id other p q valid found found' differs same =
      let id_of_p = (valid.are_sessions id p found).1 in
      let id_of_q = (valid.are_sessions other q found').1 in
      let equal : other ≡ id = sym id_of_q ∙ ap (id_at manager.runtimes) (sym same) ∙ id_of_p in
      ground (arith, differs, ap (λ x. bytes_eq x id) equal, bytes_eq_refl id)

  -- A request without a session that can be found.
  abbrev pub Unfound : Manager V → Bytes → Type 0
  Unfound manager id =
      (later : HttpRequest)
      → later.mcp_session_id ≡ some id
      → (handle_get manager later ≡ session_not_found)
        × (handle_delete manager later ≡ (manager, session_not_found))

  find_session-Unfound :
      (manager : Manager V) (id : Bytes) → find_session manager id ≡ none → Unfound manager id
  unfolding handle_get handle_delete admit admit_found get_admitted delete_admitted
  find_session-Unfound manager id gone later names =
      let version = later.mcp_protocol_version in
      let refusal : admit manager version later.mcp_session_id ≡ refused session_not_found =
        ap (admit manager version) names ∙ ap (admit_found manager version id) gone in
      (ap (get_admitted manager later.last_event_id) refusal, ap (delete_admitted manager) refusal)

  -- What the destruction of a session leaves.
  abbrev pub Destroyed : Manager V → Bytes → ℕ → Manager V → Type 0
  Destroyed manager id p after =
      (find_session after id ≡ none)
      × ((other : Bytes)
          → bytes_eq other id ≡ false
          → find_session after other ≡ find_session manager other)
      × ((other : Bytes) (q : ℕ)
          → bytes_eq other id ≡ false
          → find_session manager other ≡ some q
          → runtime after q ≡ runtime manager q)
      × ((key : Bytes) (accept : Option Bytes) → wait_for_response after p key accept ≢ none)

  destroy_session-Destroyed :
      (manager : Manager V) (id : Bytes) (p : ℕ)
      → IsValid manager
      → find_session manager id ≡ some p
      → Destroyed manager id p (released_at manager id (some p))
  unfolding released_at find_session runtime
  destroy_session-Destroyed manager id p valid found =
      let after = released_at manager id (some p) in
      let session = release (runtime manager p) in
      let inside = (valid.are_sessions id p found).0 in
      (
        lookup-erase_self id manager.sessions,
        λ other differs. lookup-erase_ne other id manager.sessions differs,
        λ other q differs found'.
            get_or-set_ne manager.runtimes p q session (new_session [] 0)
              (other_pointer manager id other p q valid found found' differs),
        λ key accept. wait_for_response-ends after p key accept (
            subst (λ s. NoneWaits s.pending_responses)
              (sym (get_or-set_self manager.runtimes p session (new_session [] 0) inside))
              (release-NoneWaits (runtime manager p))),
      )

  -- The admission of a DELETE whose session is there and whose version is the session's.
  admit-admitted :
      (manager : Manager V) (version : Option Bytes) (id : Bytes) (p : ℕ)
      → find_session manager id ≡ some p
      → wrong_version version (runtime manager p).negotiated_protocol_version ≡ false
      → admit manager version (some id) ≡ admitted id p
  unfolding admit admit_found admit_version
  admit-admitted manager version id p found right =
      ap (admit_found manager version id) found
      ∙ if-both (λ a. a ≡ admitted id p)
          (wrong_version version (runtime manager p).negotiated_protocol_version) _ _
          (λ e. ground (arith, e, right)) (λ e. refl)

  -- A DELETE of a session that the manager has, with no version or with the session's, is answered 200, and then
  -- the session cannot be found, so that a later GET or DELETE of it is answered 404; every other
  -- session is found as before and is what it was; and no request that waits in the session waits
  -- on. The sessions of the manager are well-formed.
  pub handle_delete-Destroyed :
      (manager : Manager V) (request : HttpRequest) (id : Bytes) (p : ℕ)
      → IsValid manager
      → request.mcp_session_id ≡ some id
      → find_session manager id ≡ some p
      → wrong_version request.mcp_protocol_version (runtime manager p).negotiated_protocol_version
        ≡ false
      → let after = (handle_delete manager request).0 in
        ((handle_delete manager request).1 ≡ json_response 200 none (codes "{}"))
        × (Destroyed manager id p after × Unfound after id)
  unfolding handle_delete delete_admitted destroy_session
  handle_delete-Destroyed manager request id p valid names found right =
      let version = request.mcp_protocol_version in
      let same : handle_delete manager request
          ≡ (released_at manager id (some p), json_response 200 none (codes "{}")) =
        ap (λ s. delete_admitted manager (admit manager version s)) names
        ∙ ap (delete_admitted manager) (admit-admitted manager version id p found right)
        ∙ ap (λ o. (released_at manager id o, json_response 200 none (codes "{}"))) found in
      let destroyed = destroy_session-Destroyed manager id p valid found in
      subst
        (λ result.
          (result.1 ≡ json_response 200 none (codes "{}"))
          × (Destroyed manager id p result.0 × Unfound result.0 id))
        (sym same)
        (refl, (destroyed, find_session-Unfound (released_at manager id (some p)) id destroyed.0))
