-- ===== src/Transport/Memory/Order.antt =====
-- The order in which src/transport/memory.cpp hands out messages.
use mcp_cpp_sdk.Prelude.{
  ℕ, zero, suc, ◌≡◌, ◌≢◌, ◌⊎◌, inl, inr, refl, sym, ap, subst, ◌∙◌, true, false, Option, none, some,
  List, [], ◌∷◌, ◌++◌, append_assoc, append-nil, if◌then◌else◌, if-both, if-both_two, length,
  get_or, set, get_or-set_ne, arith,
}
use mcp_cpp_sdk.Transport.Memory.{
  ReadWaiter, MemoryTransportState, Read, returns, suspends, fails, fresh, gone, waiter, hand,
  deliver_to, deliver_message, take_message, next_message_or_closed, expire, resumed, resume,
  close_endpoint,
}

abbrev pub In : ℕ → List ℕ → Type 0
In n [] = ⊥
In n (m ∷ ms) = (n ≡ m) ⊎ In n ms

In-append : (n : ℕ) (ms : List ℕ) (k : ℕ) → In n (ms ++ k ∷ []) → In n ms ⊎ (n ≡ k)
In-append n [] k (inl e) = inr e
In-append n [] k (inr h) = elim h [ ]
In-append n (m ∷ ms) k (inl e) = inl (inl e)
In-append n (m ∷ ms) k (inr h) = elim (In-append n ms k h) [
  | inl old ↦ inl (inr old)
  | inr e ↦ inr e
]

In-front : (n : ℕ) (ms : List ℕ) (k : ℕ) → In n ms → In n (ms ++ k ∷ [])
In-front n [] k h = elim h [ ]
In-front n (m ∷ ms) k (inl e) = inl e
In-front n (m ∷ ms) k (inr h) = inr (In-front n ms k h)

In-last : (k : ℕ) (ms : List ℕ) → In k (ms ++ k ∷ [])
In-last k [] = inl refl
In-last k (m ∷ ms) = inr (In-last k ms)

module _ {M : Type 0} where
  -- What a delivery takes from the sender for a reader, and what stays with the queue.
  unfoldable pub handed_to : M → List ℕ → MemoryTransportState M → List M
  handed_to message [] state = []
  handed_to message (reader ∷ rest) state =
      if (waiter state reader).alive then message ∷ [] else handed_to message rest state

  abbrev taken : Read M → List M
  taken (returns (some message)) = message ∷ []
  taken (returns none) = []
  taken (suspends reader) = []
  taken fails = []

  -- What a read takes from the queue when it starts.
  abbrev pub taken_at_once : MemoryTransportState M → List M
  taken_at_once state = taken (next_message_or_closed state).1

  -- A run of one end: the messages that were delivered to it, and those that a reader took or was
  -- handed, each in order, and the state.
  pub data Run : List M → List M → MemoryTransportState M → Type 0 where
    starts : Run [] [] fresh
    delivers :
        (sent got : List M) (state : MemoryTransportState M) (message : M)
        → Run sent got state
        → state.closed ≡ false
        → Run
            (sent ++ message ∷ [])
            (got ++ handed_to message state.read_waiters state)
            (deliver_message state message)
    reads :
        (sent got : List M) (state : MemoryTransportState M)
        → Run sent got state
        → Run sent (got ++ taken_at_once state) (next_message_or_closed state).0
    wakes :
        (sent got : List M) (state : MemoryTransportState M) (reader : ℕ)
        → Run sent got state
        → Run sent got (resume state reader).0
    drops :
        (sent got : List M) (state : MemoryTransportState M) (reader : ℕ)
        → Run sent got state
        → Run sent got (expire state reader)
    closes :
        (sent got : List M) (state : MemoryTransportState M)
        → Run sent got state
        → Run sent got (close_endpoint state)

  -- A reader that waits for a message.
  abbrev pub Waits : MemoryTransportState M → ℕ → Type 0
  Waits state reader = ((waiter state reader).alive ≡ true) × ((waiter state reader).message ≡ none)

  -- No message is lost, doubled or overtaken; no reader waits while the queue has a message; and a
  -- reader that waits on an open end is enlisted.
  pub record KeepsOrder (sent got : List M) (state : MemoryTransportState M) : Type 0 where
    pub in_order : sent ≡ got ++ state.incoming
    pub none_waits :
        (reader : ℕ)
        → In reader state.read_waiters
        → (waiter state reader).alive ≡ true
        → state.incoming ≡ []
    pub enlisted :
        (reader : ℕ) → state.closed ≡ false → Waits state reader → In reader state.read_waiters

  -- A delivery, from the readers that are still looked at.
  deliver_to-order :
      (sent got : List M) (message : M) (readers : List ℕ) (state : MemoryTransportState M)
      → sent ≡ got ++ state.incoming
      → ((reader : ℕ)
          → In reader readers
          → (waiter state reader).alive ≡ true
          → state.incoming ≡ [])
      → sent ++ message ∷ []
        ≡ (got ++ handed_to message readers state) ++ (deliver_to message readers state).incoming
  unfolding deliver_to handed_to
  deliver_to-order sent got message [] state h free =
      ap (λ xs. xs ++ message ∷ []) h
      ∙ append_assoc got state.incoming (message ∷ [])
      ∙ ap (λ xs. xs ++ (state.incoming ++ message ∷ [])) (sym (append-nil got))
  deliver_to-order sent got message (reader ∷ rest) state h free =
      if-both_two {B = MemoryTransportState M}
        (λ handed next. sent ++ message ∷ [] ≡ (got ++ handed) ++ next.incoming)
        (waiter state reader).alive _ _ _ _
        (λ e.
          let empty : state.incoming ≡ [] = free reader (inl refl) e in
          ap (λ xs. xs ++ message ∷ []) (h ∙ ap (λ xs. got ++ xs) empty ∙ append-nil got)
          ∙ sym (append-nil (got ++ message ∷ []))
          ∙ ap (λ xs. (got ++ message ∷ []) ++ xs) (sym empty))
        (λ e. deliver_to-order sent got message rest state h (λ r inside. free r (inr inside)))

  deliver_to-none_waits :
      (message : M) (readers : List ℕ) (state : MemoryTransportState M)
      → ((reader : ℕ)
          → In reader readers
          → (waiter state reader).alive ≡ true
          → state.incoming ≡ [])
      → (reader : ℕ) → In reader (deliver_to message readers state).read_waiters
      → (waiter (deliver_to message readers state) reader).alive ≡ true
      → (deliver_to message readers state).incoming ≡ []
  unfolding deliver_to
  deliver_to-none_waits message [] state free = λ r inside alive. elim inside [ ]
  deliver_to-none_waits message (reader ∷ rest) state free =
      if-both {A = MemoryTransportState M}
        (λ next.
          (r : ℕ) → In r next.read_waiters → (waiter next r).alive ≡ true → next.incoming ≡ [])
        (waiter state reader).alive _ _ (λ e r inside alive. free reader (inl refl) e)
        (λ e. deliver_to-none_waits message rest state (λ r inside. free r (inr inside)))

  -- A reader that is alive has a place in the list.
  pub get_or-set_alive :
      (waiters : List (ReadWaiter M)) (reader : ℕ) (next : ReadWaiter M)
      → (get_or waiters reader gone).alive ≡ true
      → get_or (set waiters reader next) reader gone ≡ next
  get_or-set_alive [] reader next h = ground (arith, h)
  get_or-set_alive (w ∷ waiters) zero next h = refl
  get_or-set_alive (w ∷ waiters) (suc reader) next h = get_or-set_alive waiters reader next h

  -- A reader is handed a message, or it is as it was.
  hand-Waits :
      (message : M) (reader : ℕ) (rest : List ℕ) (state : MemoryTransportState M) (r : ℕ)
      → (waiter state reader).alive ≡ true
      → Waits (hand message reader rest state) r
      → (r ≢ reader) × Waits state r
  hand-Waits message reader rest state r alive waits =
      let handed : ReadWaiter M = record { message = some message; alive = true } in
      let at = get_or-set_alive state.waiters reader handed alive in
      let other : r ≢ reader = λ same. ground (
        arith,
        waits.1,
        ap (λ n. (waiter (hand message reader rest state) n).message) same ∙ ap (λ w. w.message) at,
      ) in
      let same : waiter (hand message reader rest state) r ≡ waiter state r =
        get_or-set_ne state.waiters reader r handed gone (λ e. other (sym e)) in
      (other, subst (λ w. (w.alive ≡ true) × (w.message ≡ none)) same waits)

  deliver_to-enlisted :
      (message : M) (readers : List ℕ) (state : MemoryTransportState M)
      → ((reader : ℕ) → Waits state reader → In reader readers)
      → (reader : ℕ) → Waits (deliver_to message readers state) reader
      → In reader (deliver_to message readers state).read_waiters
  unfolding deliver_to
  deliver_to-enlisted message [] state listed = listed
  deliver_to-enlisted message (reader ∷ rest) state listed =
      if-both {A = MemoryTransportState M} (λ next. (r : ℕ) → Waits next r → In r next.read_waiters)
        (waiter state reader).alive _ _
        (λ e r waits.
          let other = hand-Waits message reader rest state r e waits in
          elim (listed r other.1) [ inl same ↦ absurd (other.0 same) | inr inside ↦ inside ])
        (λ e. deliver_to-enlisted message rest state (λ r waits. elim (listed r waits) [
          | inl same ↦ ground (arith, e, waits.0, ap (λ n. (waiter state n).alive) same)
          | inr inside ↦ inside
        ]))

  -- A reader that is gone waits no more, and the others are as they were.
  expire-alive :
      (waiters : List (ReadWaiter M)) (reader r : ℕ)
      → (get_or (set waiters reader gone) r gone).alive ≡ true
      → get_or (set waiters reader gone) r gone ≡ get_or waiters r gone
  expire-alive [] reader r h = refl
  expire-alive (w ∷ waiters) zero zero h = ground (arith, h)
  expire-alive (w ∷ waiters) zero (suc r) h = refl
  expire-alive (w ∷ waiters) (suc reader) zero h = refl
  expire-alive (w ∷ waiters) (suc reader) (suc r) h = expire-alive waiters reader r h

  pub expire-KeepsOrder :
      (sent got : List M) (state : MemoryTransportState M) (reader : ℕ)
      → KeepsOrder sent got state
      → KeepsOrder sent got (expire state reader)
  unfolding expire
  expire-KeepsOrder sent got state reader orderly = record {
    in_order = orderly.in_order;
    none_waits = λ r inside alive.
        orderly.none_waits r inside
          (ap (λ w. w.alive) (sym (expire-alive state.waiters reader r alive)) ∙ alive);
    enlisted = λ r open_still waits. orderly.enlisted r open_still (
        subst (λ w. (w.alive ≡ true) × (w.message ≡ none))
          (expire-alive state.waiters reader r waits.0) waits);
  }

  resumed-KeepsOrder :
      (sent got : List M) (state : MemoryTransportState M) (reader : ℕ) (message : Option M)
      → KeepsOrder sent got state
      → KeepsOrder sent got (resumed state reader message).0
  unfolding resumed
  resumed-KeepsOrder sent got state reader none orderly =
      expire-KeepsOrder sent got state reader orderly
  resumed-KeepsOrder sent got state reader (some message) orderly =
      expire-KeepsOrder sent got state reader orderly

  resume-KeepsOrder :
      (sent got : List M) (state : MemoryTransportState M) (reader : ℕ)
      → KeepsOrder sent got state
      → KeepsOrder sent got (resume state reader).0
  unfolding resume
  resume-KeepsOrder sent got state reader orderly =
      if-both {A = MemoryTransportState M × Read M} (λ result. KeepsOrder sent got result.0)
        state.closed _ _ (λ e. expire-KeepsOrder sent got state reader orderly)
        (λ e. resumed-KeepsOrder sent got state reader (waiter state reader).message orderly)

  closed-KeepsOrder :
      (sent got : List M) (state : MemoryTransportState M)
      → KeepsOrder sent got state
      → KeepsOrder sent got (record state { closed = true; read_waiters = [] })
  closed-KeepsOrder sent got state orderly = record {
    in_order = orderly.in_order;
    none_waits = λ r inside alive. elim inside [ ];
    enlisted = λ r open_still waits. ground (arith, open_still);
  }

  close-KeepsOrder :
      (sent got : List M) (state : MemoryTransportState M)
      → KeepsOrder sent got state
      → KeepsOrder sent got (close_endpoint state)
  unfolding close_endpoint
  close-KeepsOrder sent got state orderly =
      if-both (KeepsOrder sent got) state.closed _ _ (λ e. orderly)
        (λ e. closed-KeepsOrder sent got state orderly)

  deliver-KeepsOrder :
      (sent got : List M) (state : MemoryTransportState M) (message : M)
      → state.closed ≡ false
      → KeepsOrder sent got state
      → KeepsOrder
          (sent ++ message ∷ [])
          (got ++ handed_to message state.read_waiters state)
          (deliver_message state message)
  unfolding deliver_message
  deliver-KeepsOrder sent got state message open_still orderly = record {
    in_order =
        deliver_to-order sent got message state.read_waiters state orderly.in_order
          orderly.none_waits;
    none_waits = deliver_to-none_waits message state.read_waiters state orderly.none_waits;
    enlisted = λ r still waits.
        deliver_to-enlisted message state.read_waiters state
          (λ r waits. orderly.enlisted r open_still waits) r waits;
  }

  -- The readers, with one more at the end.
  append-cases :
      (waiters : List (ReadWaiter M)) (next : ReadWaiter M) (r : ℕ)
      → (get_or (waiters ++ next ∷ []) r gone).alive ≡ true
      → (r ≡ length waiters) ⊎ (get_or (waiters ++ next ∷ []) r gone ≡ get_or waiters r gone)
  append-cases [] next zero h = inl refl
  append-cases [] next (suc r) h = inr refl
  append-cases (w ∷ waiters) next zero h = inr refl
  append-cases (w ∷ waiters) next (suc r) h = elim (append-cases waiters next r h) [
    | inl e ↦ inl (ap suc e)
    | inr e ↦ inr e
  ]

  -- A read of an open end, whose queue is the first argument.
  take_message-KeepsOrder :
      (incoming : List M) (sent got : List M) (state : MemoryTransportState M)
      → state.incoming ≡ incoming
      → KeepsOrder sent got state
      → KeepsOrder sent
          (got ++ taken (take_message incoming state).1)
          (take_message incoming state).0
  unfolding take_message
  take_message-KeepsOrder [] sent got state empty orderly = record {
    in_order = orderly.in_order ∙ ap (λ xs. xs ++ state.incoming) (sym (append-nil got));
    none_waits = λ r inside alive. empty;
    enlisted = λ r open_still waits.
        elim (append-cases state.waiters (record { message = none; alive = true }) r waits.0) [
          | inl e ↦
              subst (λ n. In n (state.read_waiters ++ length state.waiters ∷ [])) (sym e)
                (In-last (length state.waiters) state.read_waiters)
          | inr e ↦ In-front r state.read_waiters (length state.waiters) (
              orderly.enlisted r open_still
                (subst (λ w. (w.alive ≡ true) × (w.message ≡ none)) e waits))
        ];
  }
  take_message-KeepsOrder (message ∷ rest) sent got state there orderly = record {
    in_order =
        orderly.in_order ∙ ap (λ xs. got ++ xs) there ∙ sym (append_assoc got (message ∷ []) rest);
    none_waits = λ r inside alive. ground (arith, there, orderly.none_waits r inside alive);
    enlisted = orderly.enlisted;
  }

  read-KeepsOrder :
      (sent got : List M) (state : MemoryTransportState M)
      → KeepsOrder sent got state
      → KeepsOrder sent (got ++ taken_at_once state) (next_message_or_closed state).0
  unfolding next_message_or_closed
  read-KeepsOrder sent got state orderly =
      if-both {A = MemoryTransportState M × Read M}
        (λ result. KeepsOrder sent (got ++ taken result.1) result.0) state.closed _ _
        (λ e. subst (λ xs. KeepsOrder sent xs state) (sym (append-nil got)) orderly)
        (λ e. take_message-KeepsOrder state.incoming sent got state refl orderly)

  -- In every run of deliveries, reads, wakings, readers that are dropped and a close, the messages that readers were given
  -- and those in the queue are the ones that were delivered, in the order of the deliveries; while
  -- the queue has a message, no reader waits in the list; and each reader that waits on an open end for a message is in the list.
  pub Run-KeepsOrder :
      (sent got : List M) (state : MemoryTransportState M)
      → Run sent got state
      → KeepsOrder sent got state
  Run-KeepsOrder _ _ _ starts = record {
    in_order = refl;
    none_waits = λ r inside alive. refl;
    enlisted = λ r open_still waits. ground (arith, waits.0);
  }
  Run-KeepsOrder _ _ _ (delivers sent got state message run open_still) =
      deliver-KeepsOrder sent got state message open_still (Run-KeepsOrder sent got state run)
  Run-KeepsOrder _ _ _ (reads sent got state run) =
      read-KeepsOrder sent got state (Run-KeepsOrder sent got state run)
  Run-KeepsOrder _ _ _ (wakes sent got state reader run) =
      resume-KeepsOrder sent got state reader (Run-KeepsOrder sent got state run)
  Run-KeepsOrder _ _ _ (drops sent got state reader run) =
      expire-KeepsOrder sent got state reader (Run-KeepsOrder sent got state run)
  Run-KeepsOrder _ _ _ (closes sent got state run) =
      close-KeepsOrder sent got state (Run-KeepsOrder sent got state run)
