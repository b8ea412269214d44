-- ===== src/Transport/Tests.antt =====
-- A run of src/core/serialized_transport_writer.cpp: two calls, of which the second is cancelled while
-- the first is being written.
use mcp_cpp_sdk.Prelude.{length, ◌≤◌, arith, ◌≡◌, refl, true, false, [], ◌∷◌, codes}
use mcp_cpp_sdk.Transport.Writer.{
  Operation, failed, aborted, Writer, fresh, enqueue, drain, write_ends, cancel, Run, start, call,
  drains, ends, cancels,
}
use mcp_cpp_sdk.Transport.Writer.Finish.{all_end, all_end-completed}
use mcp_cpp_sdk.Transport.Writer.Order.{completed_ids, IsOrderly, Run-IsOrderly}

abbrev first : Operation
first = record { id = 1; message = codes "a"; cancelled = false }

abbrev second : Operation
second = record { id = 2; message = codes "b"; cancelled = false }

abbrev called : Writer
called = drain (enqueue second (enqueue first fresh))

abbrev cancelled : Writer
cancelled = record called { queue = cancel 2 called.queue }

abbrev done : Writer
done = write_ends true cancelled

called-Run : Run (1 ∷ 2 ∷ []) called
unfolding drain enqueue
called-Run =
    drains (1 ∷ 2 ∷ []) (enqueue second (enqueue first fresh)) refl refl
      (call (1 ∷ []) (enqueue first fresh) second (call [] fresh first start))

called-writing : called.writing ≡ true
unfolding drain enqueue
called-writing = refl

called-length : length called.queue ≤ 2
unfolding drain enqueue
called-length = omega arith

all_end-completed_example :
    ((all_end (false ∷ true ∷ []) called).queue ≡ [])
    × (completed_ids (all_end (false ∷ true ∷ []) called).completed ≡ 1 ∷ 2 ∷ [])
all_end-completed_example =
    all_end-completed (1 ∷ 2 ∷ []) called (false ∷ true ∷ []) called-Run called-writing
      called-length

run : Run (1 ∷ 2 ∷ []) done
unfolding drain enqueue write_ends cancel
run = ends (1 ∷ 2 ∷ []) cancelled true refl (
    cancels (1 ∷ 2 ∷ []) called 2 (
      drains (1 ∷ 2 ∷ []) (enqueue second (enqueue first fresh)) refl refl
        (call (1 ∷ []) (enqueue first fresh) second (call [] fresh first start))))

Run-IsOrderly_example : IsOrderly (1 ∷ 2 ∷ []) done
Run-IsOrderly_example = Run-IsOrderly (1 ∷ 2 ∷ []) done run

-- The first write throws, the second call is aborted, and the transport has one message.
outcome : done ≡ record {
  queue = [];
  draining = false;
  writing = false;
  completed = (first, failed) ∷ (record second { cancelled = true }, aborted) ∷ [];
  written = codes "a" ∷ [];
}
unfolding drain enqueue write_ends cancel
outcome = refl
