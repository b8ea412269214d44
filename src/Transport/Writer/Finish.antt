-- ===== src/Transport/Writer/Finish.antt =====
-- Every run of src/core/serialized_transport_writer.cpp can be finished: the writes only have to end.
use mcp_cpp_sdk.Prelude.{
  ℕ, suc, ◌≤◌, ◌≡◌, ◌⊎◌, refl, ap, sym, subst, ◌∙◌, Bool, true, List, [], ◌∷◌, ◌++◌, append-nil,
  length, arith, Bool-cases, inl, inr,
}
use mcp_cpp_sdk.Transport.Writer.{
  Operation, Completion, aborted, Writer, complete, drain_from, after_write, completion_of,
  write_ends, Run, ends,
}
use mcp_cpp_sdk.Transport.Writer.Order.{
  completed_ids, queue_ids, drain_from-aborts, drain_from-starts, Run-IsOrderly,
}

-- The writes end one after the other; the flags say which of them throw.
abbrev pub all_end : List Bool → Writer → Writer
all_end [] w = w
all_end (throws ∷ rest) w = all_end rest (write_ends throws w)

abbrev Goes : Writer → Type 0
Goes w = (w.writing ≡ true) ⊎ (w.queue ≡ [])

abbrev Shrinks : List Operation → Writer → Type 0
Shrinks queue w = (length w.queue ≤ length queue) × Goes w

drain_from-Shrinks : (queue : List Operation) (w : Writer) → Shrinks queue (drain_from queue w)
unfolding drain_from
drain_from-Shrinks [] w = (omega arith, inr refl)
drain_from-Shrinks (o ∷ queue) w = elim (Bool-cases o.cancelled) [
  | inl e ↦
      let (shorter, goes) = drain_from-Shrinks queue (complete o queue aborted w) in
      subst (Shrinks (o ∷ queue)) (sym (drain_from-aborts o queue w e))
        (omega (arith, shorter), goes)
  | inr e ↦
      subst (Shrinks (o ∷ queue)) (sym (drain_from-starts o queue w e)) (omega arith, inl refl)
]

after_write-Shrinks :
    (n : ℕ) (queue : List Operation) (completion : Completion) (w : Writer)
    → queue ≡ w.queue
    → length queue ≤ suc n
    → (length (after_write queue completion w).queue ≤ n) × Goes (after_write queue completion w)
unfolding after_write
after_write-Shrinks n [] completion w e le =
    (subst (λ q. length q ≤ n) e (omega arith), inr (sym e))
after_write-Shrinks n (o ∷ queue) completion w e le =
    let (shorter, goes) = drain_from-Shrinks queue (complete o queue completion w) in
    (omega (arith, shorter, le), goes)

write_ends-nil : (throws : Bool) (w : Writer) → w.queue ≡ [] → write_ends throws w ≡ w
unfolding write_ends
write_ends-nil throws w e = ap (λ q. after_write q (completion_of throws) w) e

short-nil : (queue : List Operation) → length queue ≤ 0 → queue ≡ []
short-nil [] h = refl
short-nil (o ∷ queue) h = absurd (omega arith)

abbrev IsFinished : List ℕ → Writer → Type 0
IsFinished ids w = (w.queue ≡ []) × (completed_ids w.completed ≡ ids)

Run-IsFinished : (ids : List ℕ) (w : Writer) → Run ids w → w.queue ≡ [] → IsFinished ids w
Run-IsFinished ids w run e =
    let orderly = Run-IsOrderly ids w run in
    (
      e,
      sym (append-nil (completed_ids w.completed))
          ∙ ap (λ q. completed_ids w.completed ++ queue_ids q) (sym e)
          ∙ orderly.calls,
    )

all_end-IsFinished :
    (throws : List Bool) (ids : List ℕ) (w : Writer)
    → Run ids w
    → Goes w
    → length w.queue ≤ length throws
    → IsFinished ids (all_end throws w)
unfolding write_ends
all_end-IsFinished [] ids w run goes le = Run-IsFinished ids w run (short-nil w.queue le)
all_end-IsFinished (throws ∷ rest) ids w run (inr e) le =
    subst (λ w'. IsFinished ids (all_end rest w')) (sym (write_ends-nil throws w e))
      (all_end-IsFinished rest ids w run (inr e)
        (subst (λ q. length q ≤ length rest) (sym e) (omega arith)))
all_end-IsFinished (throws ∷ rest) ids w run (inl h) le =
    let (shorter, goes) =
      after_write-Shrinks (length rest) w.queue (completion_of throws) w refl le in
    all_end-IsFinished rest ids (write_ends throws w) (ends ids w throws h run) goes shorter

-- If a write is in progress and as many writes end as there are operations in the queue, whether they
-- throw or not, then the queue is empty and every call is completed, in the order of the calls.
pub all_end-completed :
    (ids : List ℕ) (w : Writer) (throws : List Bool)
    → Run ids w
    → w.writing ≡ true
    → length w.queue ≤ length throws
    → ((all_end throws w).queue ≡ []) × (completed_ids (all_end throws w).completed ≡ ids)
all_end-completed ids w throws run h le = all_end-IsFinished throws ids w run (inl h) le
