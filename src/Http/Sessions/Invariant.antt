-- ===== src/Http/Sessions/Invariant.antt =====
-- What holds of the sessions of a manager in every state that its operations lead to.
use mcp_cpp_sdk.Prelude.{
  ℕ, zero, suc, ◌<◌, ◌≡◌, inl, inr, refl, sym, ap, subst, ◌∙◌, true, false, Option, none, some,
  List, [], ◌∷◌, ◌++◌, length, get_or, set, length-append, length-set, get_or-append,
  get_or-append_last, get_or-set_self, set-get_or, set-set, Bytes, bytes_eq, bytes_eq→eq, Table,
  lookup, emplace, erase, lookup-emplace_self, lookup-emplace_ne, lookup-erase_self,
  lookup-erase_ne, Bool-cases, Option-cases, if-both, lookup-emplace_old, arith,
}
use mcp_cpp_sdk.Http.Sessions.Runtime.{SessionRuntime, release}
use mcp_cpp_sdk.Http.Sessions.Manager.{
  Manager, new_session, runtime, set_runtime, with_session, released_at, destroy_session,
  all_released, close,
}

module _ {V : Type 0} where
  -- Writing back the session that is there.
  pub set_runtime-same :
      (manager : Manager V) (pointer : ℕ)
      → set_runtime manager pointer (runtime manager pointer) ≡ manager
  unfolding set_runtime runtime
  set_runtime-same manager pointer =
      ap (λ runtimes. record manager { runtimes = runtimes })
        (set-get_or manager.runtimes pointer (new_session [] 0))

  pub runtime-set_runtime :
      (manager : Manager V) (p : ℕ) (session : SessionRuntime V)
      → p < length manager.runtimes
      → runtime (set_runtime manager p session) p ≡ session
  unfolding runtime set_runtime
  runtime-set_runtime manager p session h =
      get_or-set_self manager.runtimes p session (new_session [] 0) h

  pub set_runtime-set_runtime :
      (manager : Manager V) (p : ℕ) (first second : SessionRuntime V)
      → set_runtime (set_runtime manager p first) p second ≡ set_runtime manager p second
  unfolding set_runtime
  set_runtime-set_runtime manager p first second =
      ap (λ runtimes. record manager { runtimes = runtimes })
        (set-set manager.runtimes p first second)

  -- The identifier of the session behind a pointer.
  abbrev pub id_at : List (SessionRuntime V) → ℕ → Bytes
  id_at runtimes pointer = (get_or runtimes pointer (new_session [] 0)).session_id

  -- The pointer of each identifier is one of a session, which knows its identifier.
  abbrev pub AreSessions : List (SessionRuntime V) → Table ℕ → Type 0
  AreSessions runtimes sessions =
      (id : Bytes) (pointer : ℕ)
      → lookup id sessions ≡ some pointer
      → (pointer < length runtimes) × (id_at runtimes pointer ≡ id)

  -- A closed manager has no sessions.
  pub record IsValid (manager : Manager V) : Type 0 where
    pub are_sessions : AreSessions manager.runtimes manager.sessions
    pub closed_empty : manager.closed ≡ true → manager.sessions ≡ []

  pub id_at-set :
      (runtimes : List (SessionRuntime V)) (p : ℕ) (session : SessionRuntime V) (q : ℕ)
      → session.session_id ≡ id_at runtimes p
      → id_at (set runtimes p session) q ≡ id_at runtimes q
  id_at-set [] p session q h = refl
  id_at-set (x ∷ xs) zero session zero h = h
  id_at-set (x ∷ xs) zero session (suc q) h = refl
  id_at-set (x ∷ xs) (suc p) session zero h = refl
  id_at-set (x ∷ xs) (suc p) session (suc q) h = id_at-set xs p session q h

  AreSessions-set :
      (runtimes : List (SessionRuntime V)) (p : ℕ) (session : SessionRuntime V) (sessions : Table ℕ)
      → session.session_id ≡ id_at runtimes p
      → AreSessions runtimes sessions
      → AreSessions (set runtimes p session) sessions
  AreSessions-set runtimes p session sessions h valid id q found =
      let old = valid id q found in
      (
        subst (λ n. q < n) (sym (length-set runtimes p session)) old.0,
        id_at-set runtimes p session q h ∙ old.1,
      )

  AreSessions-append :
      (runtimes : List (SessionRuntime V)) (session : SessionRuntime V) (id : Bytes) (q : ℕ)
      → (q < length runtimes) × (id_at runtimes q ≡ id)
      → (q < length (runtimes ++ session ∷ [])) × (id_at (runtimes ++ session ∷ []) q ≡ id)
  AreSessions-append runtimes session id q h = (
    omega (arith, length-append runtimes (session ∷ []), h.0),
    ap (λ s. s.session_id) (get_or-append runtimes (session ∷ []) q (new_session [] 0) h.0) ∙ h.1,
  )

  -- The session at the end.
  AreSessions-last :
      (runtimes : List (SessionRuntime V)) (session : SessionRuntime V)
      → (length runtimes < length (runtimes ++ session ∷ []))
        × (id_at (runtimes ++ session ∷ []) (length runtimes) ≡ session.session_id)
  AreSessions-last runtimes session = (
    omega (arith, length-append runtimes (session ∷ [])),
    ap (λ s. s.session_id) (get_or-append_last runtimes session (new_session [] 0)),
  )

  AreSessions-emplace :
      (runtimes : List (SessionRuntime V)) (session : SessionRuntime V) (sessions : Table ℕ)
      → AreSessions runtimes sessions
      → AreSessions
          (runtimes ++ session ∷ [])
          (emplace session.session_id (length runtimes) sessions)
  AreSessions-emplace runtimes session sessions valid id q found =
      let key = session.session_id in
      elim (Bool-cases (bytes_eq id key)) [
        | inr e ↦
            AreSessions-append runtimes session id q
              (valid id q (sym (lookup-emplace_ne id key (length runtimes) sessions e) ∙ found))
        | inl e ↦
            let same = bytes_eq→eq id key e in
            elim (Option-cases (lookup key sessions)) [
              | inl none_there ↦
                  let at_end : q ≡ length runtimes = ground (
                    arith,
                    found,
                    same,
                    lookup-emplace_self key (length runtimes) sessions none_there,
                  ) in
                  subst
                    (λ n.
                      (n < length (runtimes ++ session ∷ []))
                      × (id_at (runtimes ++ session ∷ []) n ≡ id))
                    (sym at_end)
                    (let l = AreSessions-last runtimes session in (l.0, l.1 ∙ sym same))
              | inr (old, there) ↦
                  let at_old : lookup id sessions ≡ some q = ground (
                    arith,
                    found,
                    same,
                    there,
                    lookup-emplace_old key (length runtimes) old sessions there,
                  ) in
                  AreSessions-append runtimes session id q (valid id q at_old)
            ]
      ]

  AreSessions-erase :
      (runtimes : List (SessionRuntime V)) (key : Bytes) (sessions : Table ℕ)
      → AreSessions runtimes sessions
      → AreSessions runtimes (erase key sessions)
  AreSessions-erase runtimes key sessions valid id q found = elim (Bool-cases (bytes_eq id key)) [
    | inr e ↦ valid id q (sym (lookup-erase_ne id key sessions e) ∙ found)
    | inl e ↦ ground (arith, found, bytes_eq→eq id key e, lookup-erase_self key sessions)
  ]

  -- The change of one session that keeps its identifier.
  pub set_runtime-IsValid :
      (manager : Manager V) (p : ℕ) (session : SessionRuntime V)
      → session.session_id ≡ (runtime manager p).session_id
      → IsValid manager
      → IsValid (set_runtime manager p session)
  unfolding set_runtime runtime
  set_runtime-IsValid manager p session h valid = record {
    are_sessions = AreSessions-set manager.runtimes p session manager.sessions h valid.are_sessions;
    closed_empty = valid.closed_empty;
  }

  pub with_session-IsValid :
      (manager : Manager V) (id : Bytes)
      → manager.closed ≡ false
      → IsValid manager
      → IsValid (with_session manager id)
  with_session-IsValid manager id h valid = record {
    are_sessions =
        AreSessions-emplace manager.runtimes (new_session id manager.event_store_capacity)
          manager.sessions valid.are_sessions;
    closed_empty = λ e. ground (arith, e, h);
  }

  released_at-IsValid :
      (manager : Manager V) (id : Bytes) (found : Option ℕ)
      → IsValid manager
      → IsValid (released_at manager id found)
  unfolding released_at runtime release
  released_at-IsValid manager id none valid = valid
  released_at-IsValid manager id (some p) valid = record {
    are_sessions =
        AreSessions-erase (set manager.runtimes p (release (runtime manager p))) id manager.sessions
          (AreSessions-set manager.runtimes p (release (runtime manager p)) manager.sessions refl
            valid.are_sessions);
    closed_empty = λ e. ap (erase id) (valid.closed_empty e);
  }

  pub destroy_session-IsValid :
      (manager : Manager V) (id : Bytes) → IsValid manager → IsValid (destroy_session manager id)
  unfolding destroy_session
  destroy_session-IsValid manager id valid = released_at-IsValid manager id _ valid

  all_released-IsValid : (manager : Manager V) → IsValid (all_released manager)
  all_released-IsValid manager = record {
    are_sessions = λ id p found. ground (arith, found);
    closed_empty = λ e. refl;
  }

  pub close-IsValid : (manager : Manager V) → IsValid manager → IsValid (close manager)
  unfolding close
  close-IsValid manager valid =
      if-both IsValid manager.closed manager (all_released manager) (λ e. valid)
        (λ e. all_released-IsValid manager)
