-- ===== src/Transport/Memory/Service.antt =====
-- When src/transport/memory.cpp serves a reader that waits.
use mcp_cpp_sdk.Prelude.{
  ℕ, zero, suc, ◌≡◌, inl, inr, refl, sym, ap, ◌∙◌, true, false, some, List, [], ◌∷◌, ◌++◌,
  if◌then◌else◌, if-both, if-both_two, length, get_or, set, arith,
}
use mcp_cpp_sdk.Transport.Memory.{
  ReadWaiter, MemoryTransportState, Read, returns, gone, waiter, hand, deliver_to, deliver_message,
  resume, resumed,
}
use mcp_cpp_sdk.Transport.Memory.Order.{In, get_or-set_alive}

module _ {M : Type 0} where
  unfoldable pub deliver_all : MemoryTransportState M → List M → MemoryTransportState M
  unfolding deliver_message
  deliver_all state [] = state
  deliver_all state (message ∷ messages) = deliver_all (deliver_message state message) messages

  -- How many of the readers are there still.
  unfoldable pub live : List ℕ → MemoryTransportState M → ℕ
  live [] state = 0
  live (reader ∷ readers) state =
      let rest = live readers state in if (waiter state reader).alive then suc rest else rest

  abbrev handed : M → ReadWaiter M
  handed message = record { message = some message; alive = true }

  -- The readers in front are gone.
  deliver_to-skips :
      (message : M) (front : List ℕ) (reader : ℕ) (rest : List ℕ) (state : MemoryTransportState M)
      → live front state ≡ 0
      → (waiter state reader).alive ≡ true
      → deliver_to message (front ++ reader ∷ rest) state ≡ hand message reader rest state
  unfolding deliver_to live
  deliver_to-skips message [] reader rest state h alive =
      if-both (λ next. next ≡ hand message reader rest state) (waiter state reader).alive _ _
        (λ e. refl) (λ e. ground (arith, e, alive))
  deliver_to-skips message (r ∷ front) reader rest state h alive =
      if-both_two {A = ℕ} {B = MemoryTransportState M}
        (λ n next. (n ≡ 0) → next ≡ hand message reader rest state) (waiter state r).alive _ _ _ _
        (λ e none_live. absurd (omega (arith, none_live)))
        (λ e none_live. deliver_to-skips message front reader rest state none_live alive) h

  -- The reader in front that a message is handed to, and the readers behind it.
  abbrev Serves : M → List ℕ → List ℕ → MemoryTransportState M → ℕ → Type 0
  Serves message front tail state n =
      (first : ℕ) × (later : List ℕ) × (deliver_to message (front ++ tail) state
        ≡ hand message first (later ++ tail) state)
      × ((waiter state first).alive ≡ true)
      × (live later state ≡ n)
      × In first front
      × ((r : ℕ) → In r later → In r front)

  deliver_to-Serves :
      (message : M) (front tail : List ℕ) (state : MemoryTransportState M) (n : ℕ)
      → live front state ≡ suc n
      → Serves message front tail state n
  unfolding deliver_to live
  deliver_to-Serves message [] tail state n h = absurd (omega (arith, h))
  deliver_to-Serves message (r ∷ front) tail state n h =
      if-both_two {A = ℕ} {B = MemoryTransportState M}
        (λ k next.
          (k ≡ suc n)
          → (first : ℕ) × (later : List ℕ) × (next ≡ hand message first (later ++ tail) state)
            × ((waiter state first).alive ≡ true)
            × (live later state ≡ n)
            × In first (r ∷ front)
            × ((q : ℕ) → In q later → In q (r ∷ front)))
        (waiter state r).alive _ _ _ _
        (λ e count. (r, front, refl, e, omega (arith, count), inl refl, λ q inside. inr inside))
        (λ e count.
          let s = deliver_to-Serves message front tail state n count in
          (s.0, s.1, s.2, s.3, s.4, inr s.5, λ q inside. inr (s.6 q inside)))
        h

  -- Who is there is not changed by a message.
  hand-alive :
      (message : M) (waiters : List (ReadWaiter M)) (reader r : ℕ)
      → (get_or waiters reader gone).alive ≡ true
      → (get_or (set waiters reader (handed message)) r gone).alive ≡ (get_or waiters r gone).alive
  hand-alive message [] reader r h = refl
  hand-alive message (w ∷ waiters) zero zero h = sym h
  hand-alive message (w ∷ waiters) zero (suc r) h = refl
  hand-alive message (w ∷ waiters) (suc reader) zero h = refl
  hand-alive message (w ∷ waiters) (suc reader) (suc r) h = hand-alive message waiters reader r h

  hand-live :
      (message : M) (reader : ℕ) (rest readers : List ℕ) (state : MemoryTransportState M)
      → (waiter state reader).alive ≡ true
      → live readers (hand message reader rest state) ≡ live readers state
  unfolding live
  hand-live message reader rest [] state h = refl
  hand-live message reader rest (r ∷ readers) state h =
      ap
        (λ b.
          if b
          then suc (live readers (hand message reader rest state))
          else live readers (hand message reader rest state))
        (hand-alive message state.waiters reader r h)
      ∙ ap (λ n. if (waiter state r).alive then suc n else n)
          (hand-live message reader rest readers state h)

  -- The n-th delivery from now, for the readers in front.
  deliver_all-serves :
      (messages : List M) (last : M) (front : List ℕ) (reader : ℕ) (rest : List ℕ)
      (state : MemoryTransportState M)
      → state.read_waiters ≡ front ++ reader ∷ rest
      → live front state ≡ length messages
      → (waiter state reader).alive ≡ true
      → (In reader front → ⊥)
      → waiter (deliver_all state (messages ++ last ∷ [])) reader ≡ handed last
  unfolding deliver_all deliver_message
  deliver_all-serves [] last front reader rest state queued count alive first =
      ap (λ readers. waiter (deliver_to last readers state) reader) queued
      ∙ ap (λ next. waiter next reader) (deliver_to-skips last front reader rest state count alive)
      ∙ get_or-set_alive state.waiters reader (handed last) alive
  deliver_all-serves (message ∷ messages) last front reader rest state queued count alive first =
      let s = deliver_to-Serves message front (reader ∷ rest) state (length messages) count in
      let next = hand message s.0 (s.1 ++ reader ∷ rest) state in
      ap
        (λ readers.
          waiter (deliver_all (deliver_to message readers state) (messages ++ last ∷ [])) reader)
        queued
      ∙ ap (λ reached. waiter (deliver_all reached (messages ++ last ∷ [])) reader) s.2
      ∙ deliver_all-serves messages last s.1 reader rest next refl
          (hand-live message s.0 (s.1 ++ reader ∷ rest) s.1 state s.3 ∙ s.4)
          (hand-alive message state.waiters s.0 reader s.3 ∙ alive)
          (λ inside. first (s.6 reader inside))

  resumed-message :
      (state : MemoryTransportState M) (reader : ℕ) (message : M)
      → state.closed ≡ false
      → waiter state reader ≡ handed message
      → (resume state reader).1 ≡ returns (some message)
  unfolding resume resumed
  resumed-message state reader message open_still there =
      if-both {A = MemoryTransportState M × Read M} (λ result. result.1 ≡ returns (some message))
        state.closed _ _ (λ e. ground (arith, e, open_still))
        (λ e. ap (λ w. (resumed state reader w.message).1) there)

  deliver_to-closed :
      (message : M) (readers : List ℕ) (state : MemoryTransportState M)
      → (deliver_to message readers state).closed ≡ state.closed
  unfolding deliver_to
  deliver_to-closed message [] state = refl
  deliver_to-closed message (reader ∷ rest) state =
      if-both {A = MemoryTransportState M} (λ next. next.closed ≡ state.closed)
        (waiter state reader).alive _ _ (λ e. refl) (λ e. deliver_to-closed message rest state)

  deliver_all-closed :
      (messages : List M) (state : MemoryTransportState M)
      → (deliver_all state messages).closed ≡ state.closed
  unfolding deliver_all deliver_message
  deliver_all-closed [] state = refl
  deliver_all-closed (message ∷ messages) state =
      deliver_all-closed messages (deliver_to message state.read_waiters state)
      ∙ deliver_to-closed message state.read_waiters state

  -- On an open end, if a reader that is there waits in the list, behind others that are not it, then it is woken with the message that is
  -- delivered after as many as there are readers in front of it that are still there.
  pub resume-deliver_all :
      (messages : List M) (last : M) (front : List ℕ) (reader : ℕ) (rest : List ℕ)
      (state : MemoryTransportState M)
      → state.closed ≡ false
      → state.read_waiters ≡ front ++ reader ∷ rest
      → (In reader front → ⊥)
      → (waiter state reader).alive ≡ true
      → live front state ≡ length messages
      → (resume (deliver_all state (messages ++ last ∷ [])) reader).1 ≡ returns (some last)
  resume-deliver_all messages last front reader rest state open_still queued first alive count =
      resumed-message (deliver_all state (messages ++ last ∷ [])) reader last
        (deliver_all-closed (messages ++ last ∷ []) state ∙ open_still)
        (deliver_all-serves messages last front reader rest state queued count alive first)
