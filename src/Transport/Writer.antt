-- ===== src/Transport/Writer.antt =====
-- src/core/serialized_transport_writer.cpp. The strand runs one piece of code at a time, from a
-- suspension to the next: the pieces are functions on the state, and a run of the program is a
-- sequence of them. Null arguments and moved-from writers are not modelled.
pub mod Order
pub mod Finish
use mcp_cpp_sdk.Prelude.{
  ℕ, ◌≡◌, ◌≢◌, Bool, true, false, ◌||◌, Option, none, some, List, [], ◌∷◌, ◌++◌, ◌==◌,
  if◌then◌else◌, Bytes,
}

-- A call of `write_message`; the flag is `cancel_before_start`.
pub record Operation : Type 0 where
  pub id : ℕ
  pub message : Bytes
  pub cancelled : Bool

-- How an operation completes: its write succeeds or throws, or it was cancelled before it started.
pub data Completion : Type 0 where
  succeeded failed aborted : Completion

abbrev pub Completed : Type 0
Completed = Operation × Completion

-- The state of the writer, and what has happened: the operations that completed and the messages
-- that were handed to the transport, in their order. While a write is in progress, `drain` is
-- suspended in it.
pub record Writer : Type 0 where
  pub queue : List Operation
  pub draining : Bool
  pub writing : Bool
  pub completed : List Completed
  pub written : List Bytes

abbrev pub fresh : Writer
fresh = record { queue = []; draining = false; writing = false; completed = []; written = [] }

-- `enqueue_and_wait`, up to its wait.
unfoldable pub enqueue : Operation → Writer → Writer
enqueue operation w = record w { queue = w.queue ++ operation ∷ []; draining = true }

-- `complete`, behind `pop_front`.
abbrev pub complete : Operation → List Operation → Completion → Writer → Writer
complete operation rest completion w = record w {
  queue = rest;
  writing = false;
  completed = w.completed ++ (operation, completion) ∷ [];
}

-- The loop of `drain` up to its write or its end, at the operations in the queue.
unfoldable pub drain_from : List Operation → Writer → Writer
drain_from [] w = record w { queue = []; draining = false }
drain_from (operation ∷ rest) w =
    let next = drain_from rest (complete operation rest aborted w) in
    let start = record w {
      queue = operation ∷ rest;
      writing = true;
      written = w.written ++ operation.message ∷ [];
    } in
    if operation.cancelled then next else start

unfoldable pub drain : Writer → Writer
unfolding drain_from
drain w = drain_from w.queue w

-- What `drain` does behind its write, up to the next one.
unfoldable pub after_write : List Operation → Completion → Writer → Writer
unfolding drain_from
after_write [] completion w = w
after_write (operation ∷ rest) completion w = drain_from rest (complete operation rest completion w)

abbrev pub completion_of : Bool → Completion
completion_of true = failed
completion_of false = succeeded

unfoldable pub write_ends : Bool → Writer → Writer
unfolding after_write
write_ends throws w = after_write w.queue (completion_of throws) w

-- The owner of an operation sets its flag.
unfoldable pub cancel : ℕ → List Operation → List Operation
cancel id [] = []
cancel id (operation ∷ queue) =
    record operation { cancelled = operation.cancelled || operation.id == id } ∷ cancel id queue

-- A run: what can happen next, and the identifiers of the calls so far.
pub data Run : List ℕ → Writer → Type 0 where
  start : Run [] fresh
  call :
      (ids : List ℕ) (w : Writer) (operation : Operation)
      → Run ids w
      → Run (ids ++ operation.id ∷ []) (enqueue operation w)
  drains :
      (ids : List ℕ) (w : Writer)
      → w.draining ≡ true
      → w.writing ≡ false
      → Run ids w
      → Run ids (drain w)
  ends :
      (ids : List ℕ) (w : Writer) (throws : Bool)
      → w.writing ≡ true
      → Run ids w
      → Run ids (write_ends throws w)
  cancels :
      (ids : List ℕ) (w : Writer) (id : ℕ)
      → Run ids w
      → Run ids (record w { queue = cancel id w.queue })
