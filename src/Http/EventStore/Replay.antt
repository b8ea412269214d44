-- ===== src/Http/EventStore/Replay.antt =====
-- What the store of include/mcp/transport/http_server.hpp replays after any number of events.
use mcp_cpp_sdk.Prelude.{
  ℕ, zero, suc, ◌+◌, ◌-◌, ◌^◌, ◌≤◌, ◌<◌, ◌≡◌, ◌≢◌, refl, ap, sym, subst, ◌∙◌, true, false, none,
  some, List, [], ◌∷◌, ◌++◌, append_assoc, append-nil, ltb, if◌then◌else◌, length, length-append,
  Bytes, bytes_eq, bytes_eq→eq, bytes_eq_refl, Bool-cases, inl, inr, arith,
}
use mcp_cpp_sdk.Http.EventStore.{
  to_string, Event, EventStore, fresh, evict, advance, append, find_after, found_or_empty,
  events_after,
}
use mcp_cpp_sdk.Http.EventStore.Decimal.{to_string_injective}

abbrev pub append_all : EventStore → List Bytes → EventStore
append_all store [] = store
append_all store (message ∷ log) = append_all (append store message) log

-- Every event, with its identifier.
abbrev pub numbered : ℕ → List Bytes → List Event
numbered n [] = []
numbered n (message ∷ log) = (to_string n, message) ∷ numbered (suc n) log

abbrev pub drop {ℓ} : {A : Type ℓ} → ℕ → List A → List A
drop zero xs = xs
drop (suc n) [] = []
drop (suc n) (x ∷ xs) = drop n xs

-- The store after the events of a log.
abbrev store_of : ℕ → List Bytes → EventStore
store_of capacity log = record {
  capacity = capacity;
  events = drop (length log - capacity) (numbered 1 log);
  next_id = length log;
}

numbered-append :
    (n : ℕ) (log : List Bytes) (message : Bytes)
    → numbered n (log ++ message ∷ [])
      ≡ numbered n log ++ (to_string (n + length log), message) ∷ []
numbered-append n [] message = ap (λ k. (to_string k, message) ∷ []) (omega arith)
numbered-append n (x ∷ log) message =
    ap (λ es. (to_string n, x) ∷ es)
      (numbered-append (suc n) log message
        ∙ ap (λ k. numbered (suc n) log ++ (to_string k, message) ∷ []) (omega arith))

length-numbered : (n : ℕ) (log : List Bytes) → length (numbered n log) ≡ length log
length-numbered n [] = refl
length-numbered n (x ∷ log) = ap suc (length-numbered (suc n) log)

module _ {ℓ} {A : Type ℓ} where
  drop-append : (n : ℕ) (xs ys : List A) → n ≤ length xs → drop n (xs ++ ys) ≡ drop n xs ++ ys
  drop-append zero xs ys h = refl
  drop-append (suc n) [] ys h = absurd (omega arith)
  drop-append (suc n) (x ∷ xs) ys h = drop-append n xs ys (omega arith)

  drop-nil : (n : ℕ) → drop {A = A} n [] ≡ []
  drop-nil zero = refl
  drop-nil (suc n) = refl

  drop-drop : (m n : ℕ) (xs : List A) → drop m (drop n xs) ≡ drop (n + m) xs
  drop-drop m zero xs = ap (λ k. drop k xs) (omega arith)
  drop-drop m (suc n) [] = drop-nil m ∙ sym (drop-nil (suc n + m))
  drop-drop m (suc n) (x ∷ xs) =
      let next : suc n + m ≡ suc (n + m) = omega arith in
      drop-drop m n xs ∙ ap (λ k. drop k (x ∷ xs)) (sym next)

  length-drop : (n : ℕ) (xs : List A) → length (drop n xs) ≡ length xs - n
  length-drop zero xs = omega arith
  length-drop (suc n) [] = omega arith
  length-drop (suc n) (x ∷ xs) = omega (arith, length-drop n xs)

evict-drop :
    (capacity : ℕ) (events : List Event)
    → evict capacity events ≡ drop (length events - capacity) events
unfolding evict
evict-drop capacity [] = sym (drop-nil (0 - capacity))
evict-drop capacity (e ∷ events) = elim (Bool-cases (ltb capacity (length (e ∷ events)))) [
  | inl over ↦
      let less : suc (length events) - capacity ≡ suc (length events - capacity) =
        ground (arith, over) in
      rw (over, if◌then◌else◌)
        (evict-drop capacity events ∙ ap (λ k. drop k (e ∷ events)) (sym less))
  | inr fits ↦
      let none_over : suc (length events) - capacity ≡ 0 = ground (arith, fits) in
      rw (fits, if◌then◌else◌) (ap (λ k. drop k (e ∷ events)) (sym none_over))
]

advance_no_wrap : (n : ℕ) → suc n < 2 ^ 64 → advance n ≡ suc n
advance_no_wrap n h = omega (arith, h)

evict-append :
    (capacity : ℕ) (xs : List Event) (e : Event)
    → evict capacity (drop (length xs - capacity) xs ++ e ∷ [])
      ≡ drop (length (xs ++ e ∷ []) - capacity) (xs ++ e ∷ [])
evict-append capacity xs e =
    let j = length xs - capacity in
    let all = xs ++ e ∷ [] in
    ap (evict capacity) (sym (drop-append j xs (e ∷ []) (omega arith)))
    ∙ evict-drop capacity (drop j all)
    ∙ drop-drop (length (drop j all) - capacity) j all
    ∙ ap (λ k. drop k all) (omega (arith, length-drop j all, length-append xs (e ∷ [])))

events-store_of :
    (capacity : ℕ) (log : List Bytes) (message : Bytes)
    → evict capacity (
        drop (length log - capacity) (numbered 1 log)
        ++ (to_string (suc (length log)), message) ∷ [])
      ≡ drop (length (log ++ message ∷ []) - capacity) (numbered 1 (log ++ message ∷ []))
events-store_of capacity log message =
    let all = numbered 1 log in
    let same : numbered 1 (log ++ message ∷ [])
        ≡ all ++ (to_string (suc (length log)), message) ∷ [] =
      numbered-append 1 log message ∙ ap (λ k. all ++ (to_string k, message) ∷ []) (omega arith) in
    ap
      (λ k.
        evict capacity (drop (k - capacity) all ++ (to_string (suc (length log)), message) ∷ []))
      (sym (length-numbered 1 log))
    ∙ evict-append capacity all (to_string (suc (length log)), message)
    ∙ ap (λ es. drop (length es - capacity) es) (sym same)
    ∙ ap (λ k. drop (k - capacity) (numbered 1 (log ++ message ∷ [])))
        (length-numbered 1 (log ++ message ∷ []))

append-store_of :
    (capacity : ℕ) (log : List Bytes) (message : Bytes)
    → suc (length log) < 2 ^ 64
    → append (store_of capacity log) message ≡ store_of capacity (log ++ message ∷ [])
unfolding append
append-store_of capacity log message h =
    let store : ℕ → EventStore = λ id. record {
      capacity = capacity;
      events =
          evict capacity
            (drop (length log - capacity) (numbered 1 log) ++ (to_string id, message) ∷ []);
      next_id = id;
    } in
    let size : length (log ++ message ∷ []) ≡ suc (length log) =
      omega (arith, length-append log (message ∷ [])) in
    ap store (advance_no_wrap (length log) h)
    ∙ ap (λ es. record { capacity = capacity; events = es; next_id = suc (length log) })
        (events-store_of capacity log message)
    ∙ ap
        (λ id. record {
          capacity = capacity;
          events =
              drop (length (log ++ message ∷ []) - capacity) (numbered 1 (log ++ message ∷ []));
          next_id = id;
        })
        (sym size)

append_all-store_of :
    (capacity : ℕ) (before log : List Bytes)
    → length before + length log < 2 ^ 64
    → append_all (store_of capacity before) log ≡ store_of capacity (before ++ log)
append_all-store_of capacity before [] h = ap (store_of capacity) (sym (append-nil before))
append_all-store_of capacity before (message ∷ log) h =
    ap (λ s. append_all s log) (append-store_of capacity before message (omega (arith, h)))
    ∙ append_all-store_of capacity (before ++ message ∷ []) log
        (omega (arith, h, length-append before (message ∷ [])))
    ∙ ap (store_of capacity) (append_assoc before (message ∷ []) log)

differs : (n k : ℕ) → bytes_eq (to_string n) (to_string k) ≡ false → n ≢ k
differs n k h same = ground (
  arith,
  h,
  subst (λ m. bytes_eq (to_string n) (to_string m) ≡ true) same (bytes_eq_refl (to_string n)),
)

-- The search in numbered events.
find_after-numbered :
    (k n : ℕ) (log : List Bytes)
    → n ≤ k
    → k < n + length log
    → find_after (to_string k) (numbered n log) ≡ some (drop (suc k - n) (numbered n log))
unfolding find_after
find_after-numbered k n [] h h' = absurd (omega arith)
find_after-numbered k n (x ∷ log) h h' = elim (Bool-cases (bytes_eq (to_string n) (to_string k))) [
  | inl e ↦
      let same : n ≡ k = to_string_injective n k (bytes_eq→eq (to_string n) (to_string k) e) in
      let one_more : suc k - n ≡ 1 = omega arith in rw (e, if◌then◌else◌, one_more) refl
  | inr e ↦
      let other : n ≢ k = λ same. differs n k e same in
      let one_more : suc k - n ≡ suc (suc k - suc n) = omega (arith, other) in
      rw (e, if◌then◌else◌, one_more)
        (find_after-numbered k (suc n) log (omega (arith, other)) (omega arith))
]

find_after-missing :
    (k n : ℕ) (log : List Bytes) → k < n → find_after (to_string k) (numbered n log) ≡ none
unfolding find_after
find_after-missing k n [] h = refl
find_after-missing k n (x ∷ log) h = elim (Bool-cases (bytes_eq (to_string n) (to_string k))) [
  | inl e ↦
      let same = to_string_injective n k (bytes_eq→eq (to_string n) (to_string k) e) in
      absurd (omega arith)
  | inr e ↦ rw (e, if◌then◌else◌) (find_after-missing k (suc n) log (omega arith))
]

drop-numbered :
    (j n : ℕ) (log : List Bytes) → drop j (numbered n log) ≡ numbered (n + j) (drop j log)
drop-numbered zero n log = ap (λ k. numbered k log) (omega arith)
drop-numbered (suc j) n [] = refl
drop-numbered (suc j) n (x ∷ log) =
    drop-numbered j (suc n) log ∙ ap (λ k. numbered k (drop j log)) (omega arith)

found-nonempty :
    (id : Bytes) (events : List Event)
    → 0 < length events
    → found_or_empty id events ≡ find_after id events
found-nonempty id [] h = absurd (omega arith)
found-nonempty id (e ∷ events) h = refl

-- The search in the events from the j-th on.
find_after-drop :
    (k j : ℕ) (log : List Bytes)
    → k ≤ length log
    → j ≤ length log
    → 0 < k
    → find_after (to_string k) (drop j (numbered 1 log))
      ≡ (if ltb j k then some (drop k (numbered 1 log)) else none)
find_after-drop k j log known le pos =
    let all = numbered 1 log in
    let rest = drop j log in
    ap (find_after (to_string k)) (drop-numbered j 1 log) ∙ elim (Bool-cases (ltb j k)) [
      | inl kept ↦
          rw (kept, if◌then◌else◌)
            (find_after-numbered k (1 + j) rest (ground (arith, kept))
                (omega (arith, length-drop j log))
              ∙ ap (λ es. some (drop (suc k - (1 + j)) es)) (sym (drop-numbered j 1 log))
              ∙ ap some
                  (drop-drop (suc k - (1 + j)) j all ∙ ap (λ i. drop i all) (ground (arith, kept))))
      | inr evicted ↦
          rw (evicted, if◌then◌else◌) (find_after-missing k (1 + j) rest (ground (arith, evicted)))
    ]

-- After a log of fewer than 2^64 messages, a store with room for one asks for what is behind the k-th
-- message: if the store has it, the later messages in their order, each with its identifier, and
-- otherwise nothing.
pub events_after-append_all :
    (capacity k : ℕ) (log : List Bytes)
    → 0 < capacity
    → length log < 2 ^ 64
    → 0 < k
    → k ≤ length log
    → events_after (append_all (fresh capacity) log) (to_string k)
      ≡ (if ltb (length log - capacity) k then some (drop k (numbered 1 log)) else none)
unfolding events_after
events_after-append_all capacity k log room fits pos known =
    let all = numbered 1 log in
    let fresh' : fresh capacity ≡ store_of capacity [] =
      ap (λ es. record { capacity = capacity; events = es; next_id = 0 })
        (sym (drop-nil (0 - capacity))) in
    ap (λ s. events_after (append_all s log) (to_string k)) fresh'
    ∙ ap (λ s. events_after s (to_string k))
        (append_all-store_of capacity [] log (omega (arith, fits)))
    ∙ found-nonempty (to_string k) (drop (length log - capacity) all) (
        omega
          (arith, room, pos, known, length-drop (length log - capacity) all, length-numbered 1 log))
    ∙ find_after-drop k (length log - capacity) log known (omega arith) pos
