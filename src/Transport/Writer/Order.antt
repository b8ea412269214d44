-- ===== src/Transport/Writer/Order.antt =====
-- What every run of src/core/serialized_transport_writer.cpp keeps.
use mcp_cpp_sdk.Prelude.{
  ℕ, ◌≡◌, ◌≢◌, refl, ap, sym, subst, ◌∙◌, Bool, true, false, List, [], ◌∷◌, ◌++◌, append_assoc,
  append-nil, if◌then◌else◌, Bytes, arith, Bool-cases, inl, inr,
}
use mcp_cpp_sdk.Transport.Writer.{
  Operation, Completion, aborted, Completed, Writer, enqueue, complete, drain_from, drain,
  after_write, completion_of, write_ends, cancel, Run, start, call, drains, ends, cancels,
}

abbrev pub queue_ids : List Operation → List ℕ
queue_ids [] = []
queue_ids (operation ∷ queue) = operation.id ∷ queue_ids queue

abbrev pub completed_ids : List Completed → List ℕ
completed_ids [] = []
completed_ids ((operation, completion) ∷ rest) = operation.id ∷ completed_ids rest

-- The message of an operation that was not cancelled before it started.
abbrev pub sent_message : Operation → Completion → List Bytes
sent_message operation aborted = []
sent_message operation _ = operation.message ∷ []

abbrev pub sent : List Completed → List Bytes
sent [] = []
sent ((operation, completion) ∷ rest) = sent_message operation completion ++ sent rest

-- The message of the operation that is being written.
abbrev pub in_flight : Bool → List Operation → List Bytes
in_flight true (operation ∷ queue) = operation.message ∷ []
in_flight _ _ = []

abbrev IsIdle : Writer → Type 0
IsIdle w = (w.queue ≡ []) × (w.writing ≡ false)

-- Every call is completed or queued, once and in the order of the calls; the transport gets the
-- messages of the completed operations that were not aborted and of the one in progress, in that
-- order; and a writer that does not drain has nothing left.
pub record IsOrderly (ids : List ℕ) (w : Writer) : Type 0 where
  pub calls : completed_ids w.completed ++ queue_ids w.queue ≡ ids
  pub messages : w.written ≡ sent w.completed ++ in_flight w.writing w.queue
  pub idle : w.draining ≡ false → IsIdle w
  pub busy : w.writing ≡ true → w.queue ≢ []

completed_ids-append :
    (xs : List Completed) (operation : Operation) (completion : Completion)
    → completed_ids (xs ++ (operation, completion) ∷ []) ≡ completed_ids xs ++ operation.id ∷ []
completed_ids-append [] operation completion = refl
completed_ids-append ((o, c) ∷ xs) operation completion =
    ap (λ ids. o.id ∷ ids) (completed_ids-append xs operation completion)

sent-append :
    (xs : List Completed) (operation : Operation) (completion : Completion)
    → sent (xs ++ (operation, completion) ∷ []) ≡ sent xs ++ sent_message operation completion
sent-append [] operation completion = append-nil (sent_message operation completion)
sent-append ((o, c) ∷ xs) operation completion =
    ap (λ ms. sent_message o c ++ ms) (sent-append xs operation completion)
    ∙ sym (append_assoc (sent_message o c) (sent xs) (sent_message operation completion))

queue_ids-append :
    (xs : List Operation) (operation : Operation)
    → queue_ids (xs ++ operation ∷ []) ≡ queue_ids xs ++ operation.id ∷ []
queue_ids-append [] operation = refl
queue_ids-append (x ∷ xs) operation = ap (λ ids. x.id ∷ ids) (queue_ids-append xs operation)

queue_ids-cancel : (id : ℕ) (queue : List Operation) → queue_ids (cancel id queue) ≡ queue_ids queue
unfolding cancel
queue_ids-cancel id [] = refl
queue_ids-cancel id (o ∷ queue) = ap (λ ids. o.id ∷ ids) (queue_ids-cancel id queue)

in_flight-cancel :
    (writing : Bool) (id : ℕ) (queue : List Operation)
    → in_flight writing (cancel id queue) ≡ in_flight writing queue
unfolding cancel
in_flight-cancel true id [] = refl
in_flight-cancel true id (o ∷ queue) = refl
in_flight-cancel false id queue = refl

-- Completing the front operation keeps the order of the calls.
complete-calls :
    (xs : List Completed) (operation : Operation) (completion : Completion) (queue : List Operation)
    → completed_ids (xs ++ (operation, completion) ∷ []) ++ queue_ids queue
      ≡ completed_ids xs ++ queue_ids (operation ∷ queue)
complete-calls xs operation completion queue =
    ap (λ ids. ids ++ queue_ids queue) (completed_ids-append xs operation completion)
    ∙ append_assoc (completed_ids xs) (operation.id ∷ []) (queue_ids queue)

if-true {ℓ} : {A : Type ℓ} (b : Bool) (x y : A) → b ≡ true → (if b then x else y) ≡ x
if-true true x y h = refl
if-true false x y h = ground (arith, h)

if-false {ℓ} : {A : Type ℓ} (b : Bool) (x y : A) → b ≡ false → (if b then x else y) ≡ y
if-false true x y h = ground (arith, h)
if-false false x y h = refl

-- The two things that the loop of `drain` does with an operation at the front.
abbrev started : Operation → List Operation → Writer → Writer
started operation queue w = record w {
  queue = operation ∷ queue;
  writing = true;
  written = w.written ++ operation.message ∷ [];
}

pub drain_from-aborts :
    (operation : Operation) (queue : List Operation) (w : Writer)
    → operation.cancelled ≡ true
    → drain_from (operation ∷ queue) w ≡ drain_from queue (complete operation queue aborted w)
unfolding drain_from
drain_from-aborts operation queue w h =
    if-true operation.cancelled (drain_from queue (complete operation queue aborted w))
      (started operation queue w) h

pub drain_from-starts :
    (operation : Operation) (queue : List Operation) (w : Writer)
    → operation.cancelled ≡ false
    → drain_from (operation ∷ queue) w ≡ started operation queue w
unfolding drain_from
drain_from-starts operation queue w h =
    if-false operation.cancelled (drain_from queue (complete operation queue aborted w))
      (started operation queue w) h

-- The loop of `drain`, from a state in which no write is in progress.
drain_from-IsOrderly :
    (ids : List ℕ) (queue : List Operation) (w : Writer)
    → completed_ids w.completed ++ queue_ids queue ≡ ids
    → w.written ≡ sent w.completed
    → w.draining ≡ true
    → w.writing ≡ false
    → IsOrderly ids (drain_from queue w)
unfolding drain_from
drain_from-IsOrderly ids [] w calls messages on off = record {
  calls = calls;
  messages =
      messages
      ∙ sym (append-nil (sent w.completed))
      ∙ ap (λ b. sent w.completed ++ in_flight b []) (sym off);
  idle = λ h. (refl, off);
  busy = λ h. ground (arith, h, off);
}
drain_from-IsOrderly ids (operation ∷ queue) w calls messages on off =
    elim (Bool-cases operation.cancelled) [
      | inl e ↦ subst (IsOrderly ids) (sym (drain_from-aborts operation queue w e)) (
          drain_from-IsOrderly ids queue (complete operation queue aborted w)
            (complete-calls w.completed operation aborted queue ∙ calls)
            (messages
              ∙ sym (sent-append w.completed operation aborted ∙ append-nil (sent w.completed)))
            on refl)
      | inr e ↦ subst (IsOrderly ids) (sym (drain_from-starts operation queue w e)) (record {
        calls = calls;
        messages = ap (λ ms. ms ++ operation.message ∷ []) messages;
        idle = λ h. ground (arith, h, on);
        busy = λ h e'. ground (arith, e');
      })
    ]

completion_of-sent :
    (operation : Operation) (throws : Bool)
    → sent_message operation (completion_of throws) ≡ operation.message ∷ []
completion_of-sent operation true = refl
completion_of-sent operation false = refl

after_write-IsOrderly :
    (ids : List ℕ) (queue : List Operation) (throws : Bool) (w : Writer)
    → queue ≢ []
    → completed_ids w.completed ++ queue_ids queue ≡ ids
    → w.written ≡ sent w.completed ++ in_flight true queue
    → w.draining ≡ true
    → IsOrderly ids (after_write queue (completion_of throws) w)
unfolding after_write
after_write-IsOrderly ids [] throws w ne calls messages on = absurd (ne refl)
after_write-IsOrderly ids (operation ∷ queue) throws w ne calls messages on =
    let completion = completion_of throws in
    drain_from-IsOrderly ids queue (complete operation queue completion w)
      (complete-calls w.completed operation completion queue ∙ calls)
      (messages
        ∙ ap (λ ms. sent w.completed ++ ms) (sym (completion_of-sent operation throws))
        ∙ sym (sent-append w.completed operation completion))
      on refl

is_on : (w : Writer) → (w.draining ≡ false → IsIdle w) → w.writing ≡ true → w.draining ≡ true
is_on w idle h = elim (Bool-cases w.draining) [ inl e ↦ e | inr e ↦ ground (arith, h, (idle e).1) ]

in_flight-append :
    (writing : Bool) (queue : List Operation) (operation : Operation)
    → (writing ≡ true → queue ≢ [])
    → in_flight writing (queue ++ operation ∷ []) ≡ in_flight writing queue
in_flight-append false queue operation busy = refl
in_flight-append true [] operation busy = absurd (busy refl refl)
in_flight-append true (o ∷ queue) operation busy = refl

in_flight-off :
    (writing : Bool) (queue : List Operation) → writing ≡ false → in_flight writing queue ≡ []
in_flight-off true queue h = ground (arith, h)
in_flight-off false queue h = refl

snoc-nonempty : (queue : List Operation) (operation : Operation) → queue ++ operation ∷ [] ≢ []
snoc-nonempty [] operation h = ground (arith, h)
snoc-nonempty (o ∷ queue) operation h = ground (arith, h)

cancel-nil : (id : ℕ) (queue : List Operation) → cancel id queue ≡ [] → queue ≡ []
unfolding cancel
cancel-nil id [] h = refl
cancel-nil id (o ∷ queue) h = ground (arith, h)

-- In every run, the writer is orderly: every call is completed or queued, once and in the order of the
-- calls, the transport has the messages of the completed calls that were not aborted and of the one
-- in progress, in that order, and a writer that does not drain has no call left.
pub Run-IsOrderly : (ids : List ℕ) (w : Writer) → Run ids w → IsOrderly ids w
unfolding enqueue drain write_ends cancel
Run-IsOrderly _ _ start = record {
  calls = refl;
  messages = refl;
  idle = λ h. (refl, refl);
  busy = λ h. ground (arith, h);
}
Run-IsOrderly _ _ (call ids w operation run) =
    let before = Run-IsOrderly ids w run in
    record {
      calls =
          ap (λ q. completed_ids w.completed ++ q) (queue_ids-append w.queue operation)
          ∙ sym (append_assoc (completed_ids w.completed) (queue_ids w.queue) (operation.id ∷ []))
          ∙ ap (λ xs. xs ++ operation.id ∷ []) before.calls;
      messages =
          before.messages
          ∙ ap (λ ms. sent w.completed ++ ms)
              (sym (in_flight-append w.writing w.queue operation before.busy));
      idle = λ h. ground (arith, h);
      busy = λ h. snoc-nonempty w.queue operation;
    }
Run-IsOrderly _ _ (drains ids w on off run) =
    let before = Run-IsOrderly ids w run in
    drain_from-IsOrderly ids w.queue w before.calls
      (before.messages
        ∙ ap (λ ms. sent w.completed ++ ms) (in_flight-off w.writing w.queue off)
        ∙ append-nil (sent w.completed))
      on off
Run-IsOrderly _ _ (ends ids w throws h run) =
    let before = Run-IsOrderly ids w run in
    after_write-IsOrderly ids w.queue throws w (before.busy h) before.calls
      (before.messages ∙ ap (λ b. sent w.completed ++ in_flight b w.queue) h)
      (is_on w before.idle h)
Run-IsOrderly _ _ (cancels ids w id run) =
    let before = Run-IsOrderly ids w run in
    record {
      calls = ap (λ q. completed_ids w.completed ++ q) (queue_ids-cancel id w.queue) ∙ before.calls;
      messages =
          before.messages
          ∙ ap (λ ms. sent w.completed ++ ms) (sym (in_flight-cancel w.writing id w.queue));
      idle = λ h. (ap (cancel id) (before.idle h).0, (before.idle h).1);
      busy = λ h e. before.busy h (cancel-nil id w.queue e);
    }
