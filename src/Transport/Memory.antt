-- ===== src/Transport/Memory.antt =====
-- src/transport/memory.cpp: one end of a pair of transports in memory. Functions are the pieces of
-- code that the strand of the end runs between two suspensions. Every reader that ever waited is in
-- `waiters`, and `read_waiters` has their positions; a reader that has returned or was dropped is
-- gone, so that a weak pointer to it locks no longer.
pub mod Order
pub mod Service
mod Tests
use mcp_cpp_sdk.Prelude.{
  ℕ, Bool, true, false, not, ◌||◌, Option, none, some, List, [], ◌∷◌, ◌++◌, if◌then◌else◌, length,
  get_or, set, Bytes,
}
use mcp_cpp_sdk.Json.Api.{JsonApi}

pub record ReadWaiter (M : Type 0) : Type 0 where
  pub message : Option M
  pub alive : Bool

pub record MemoryTransportState (M : Type 0) : Type 0 where
  pub closed : Bool
  pub incoming : List M
  pub waiters : List (ReadWaiter M)
  pub read_waiters : List ℕ

-- What a read does when it starts or when it is woken; `fails` is the exception of a wait that was
-- cancelled with no message there.
pub data Read (M : Type 0) : Type 0 where
  returns : Option M → Read M
  suspends : ℕ → Read M
  fails : Read M

-- What a write ends with: the state of the peer, or an exception.
pub data Written (M : Type 0) : Type 0 where
  delivered : MemoryTransportState M → Written M
  throws : Written M

module _ {M : Type 0} where
  abbrev pub fresh : MemoryTransportState M
  fresh = record { closed = false; incoming = []; waiters = []; read_waiters = [] }

  abbrev pub gone : ReadWaiter M
  gone = record { message = none; alive = false }

  abbrev pub waiter : MemoryTransportState M → ℕ → ReadWaiter M
  waiter state reader = get_or state.waiters reader gone

  abbrev pub queue : M → MemoryTransportState M → MemoryTransportState M
  queue message state = record state {
    incoming = state.incoming ++ message ∷ [];
    read_waiters = [];
  }

  abbrev pub hand : M → ℕ → List ℕ → MemoryTransportState M → MemoryTransportState M
  hand message reader rest state = record state {
    waiters = set state.waiters reader (record { message = some message; alive = true });
    read_waiters = rest;
  }

  -- The loop over the readers that wait.
  unfoldable pub deliver_to : M → List ℕ → MemoryTransportState M → MemoryTransportState M
  deliver_to message [] state = queue message state
  deliver_to message (reader ∷ rest) state =
      if (waiter state reader).alive
      then hand message reader rest state
      else deliver_to message rest state

  unfoldable pub deliver_message : MemoryTransportState M → M → MemoryTransportState M
  unfolding deliver_to
  deliver_message state message = deliver_to message state.read_waiters state

  abbrev pub enlist : MemoryTransportState M → MemoryTransportState M
  enlist state = record state {
    waiters = state.waiters ++ record { message = none; alive = true } ∷ [];
    read_waiters = state.read_waiters ++ length state.waiters ∷ [];
  }

  -- `next_message_or_closed`, with a state that is open.
  unfoldable pub take_message : List M → MemoryTransportState M → MemoryTransportState M × Read M
  take_message [] state = (enlist state, suspends (length state.waiters))
  take_message (message ∷ rest) state = (record state { incoming = rest }, returns (some message))

  -- `next_message_or_closed`, up to its wait.
  unfoldable pub next_message_or_closed : MemoryTransportState M → MemoryTransportState M × Read M
  unfolding take_message
  next_message_or_closed state =
      if state.closed then (state, returns none) else take_message state.incoming state

  -- A reader that has returned, or whose coroutine was destroyed.
  unfoldable pub expire : MemoryTransportState M → ℕ → MemoryTransportState M
  expire state reader = record state { waiters = set state.waiters reader gone }

  unfoldable pub resumed : MemoryTransportState M → ℕ → Option M → MemoryTransportState M × Read M
  unfolding expire
  resumed state reader none = (expire state reader, fails)
  resumed state reader (some message) = (expire state reader, returns (some message))

  -- The rest of `next_message_or_closed`, when the reader is woken.
  unfoldable pub resume : MemoryTransportState M → ℕ → MemoryTransportState M × Read M
  unfolding resumed expire
  resume state reader =
      if state.closed
      then (expire state reader, returns none)
      else resumed state reader (waiter state reader).message

  unfoldable pub close_endpoint : MemoryTransportState M → MemoryTransportState M
  close_endpoint state =
      if state.closed then state else record state { closed = true; read_waiters = [] }

  -- `write` and `deliver`; no peer is `none`.
  unfoldable pub write : MemoryTransportState M → Option (MemoryTransportState M) → M → Written M
  unfolding deliver_message
  write sender none message = throws
  write sender (some peer) message =
      if sender.closed || peer.closed then throws else delivered (deliver_message peer message)

  -- `close` of an end whose peer is there.
  unfoldable pub close :
      MemoryTransportState M
      → MemoryTransportState M
      → MemoryTransportState M × MemoryTransportState M
  unfolding close_endpoint
  close state peer = (close_endpoint state, close_endpoint peer)

-- A message is written as a text or as a value.
pub data Message (V : Type 0) : Type 0 where
  raw : Bytes → Message V
  json : V → Message V

module _ (api : JsonApi) where
  unfoldable pub as_string : Message api.Value → Bytes
  as_string (raw text) = text
  as_string (json value) = api.dump value

  -- `none` is the exception of the parser.
  unfoldable pub as_json : Message api.Value → Option api.Value
  as_json (raw text) = api.parse text
  as_json (json value) = some value
