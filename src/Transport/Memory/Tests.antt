-- ===== src/Transport/Memory/Tests.antt =====
-- Runs of one end of src/transport/memory.cpp.
use mcp_cpp_sdk.Prelude.{ℕ, ◌≡◌, refl, some, [], ◌∷◌, arith}
use mcp_cpp_sdk.Transport.Memory.{
  MemoryTransportState, returns, fresh, next_message_or_closed, deliver_message, expire, resume,
}
use mcp_cpp_sdk.Transport.Memory.Order.{
  Run, starts, delivers, handed_to, KeepsOrder, Run-KeepsOrder,
}
use mcp_cpp_sdk.Transport.Memory.Service.{live, deliver_all, resume-deliver_all}

-- Three readers wait, and the second is dropped.
abbrev two_wait : MemoryTransportState ℕ
two_wait =
    let one = (next_message_or_closed (fresh {M = ℕ})).0 in
    let two = (next_message_or_closed one).0 in expire (next_message_or_closed two).0 1

resume-deliver_all_example : (resume (deliver_all two_wait (10 ∷ 20 ∷ [])) 2).1 ≡ returns (some 20)
unfolding next_message_or_closed expire live
resume-deliver_all_example =
    resume-deliver_all (10 ∷ []) 20 (0 ∷ 1 ∷ []) 2 [] two_wait refl refl
      (λ inside. ground (arith, inside)) refl refl

abbrev queued : MemoryTransportState ℕ
queued = deliver_message (deliver_message fresh 1) 2

queued_runs : Run (1 ∷ 2 ∷ []) [] queued
unfolding deliver_message handed_to
queued_runs =
    delivers (1 ∷ []) [] (deliver_message fresh 1) 2 (delivers [] [] fresh 1 starts refl) refl

Run-KeepsOrder_example : KeepsOrder (1 ∷ 2 ∷ []) [] queued
Run-KeepsOrder_example = Run-KeepsOrder (1 ∷ 2 ∷ []) [] queued queued_runs
