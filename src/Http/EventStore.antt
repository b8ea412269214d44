-- ===== src/Http/EventStore.antt =====
-- include/mcp/transport/http_server.hpp: the store of the events that a client can ask for again.
-- The counter has 64 bits.
pub mod Decimal
pub mod Replay
use mcp_cpp_sdk.Prelude.{
  ℕ, zero, suc, ◌+◌, ◌/◌, ◌%◌, ◌^◌, Bool, true, false, Option, none, some, List, [], ◌∷◌, ◌++◌, ltb,
  if◌then◌else◌, length, Bytes, bytes_eq,
}

-- `std::to_string`; the fuel is the number itself, which has no more digits than its value.
unfoldable pub digits : ℕ → ℕ → Bytes
digits zero n = []
digits (suc fuel) n =
    let front = digits fuel (n / 10) in
    if ltb n 10 then (b'0' + n) ∷ [] else front ++ (b'0' + n % 10) ∷ []

unfoldable pub to_string : ℕ → Bytes
unfolding digits
to_string n = digits (suc n) n

abbrev pub Event : Type 0
Event = Bytes × Bytes

pub record EventStore : Type 0 where
  pub capacity : ℕ
  pub events : List Event
  pub next_id : ℕ

abbrev pub fresh : ℕ → EventStore
fresh capacity = record { capacity = capacity; events = []; next_id = 0 }

-- `while (events_.size() > capacity_) events_.pop_front()`
unfoldable pub evict : ℕ → List Event → List Event
evict capacity [] = []
evict capacity (e ∷ events) =
    if ltb capacity (length (e ∷ events)) then evict capacity events else e ∷ events

abbrev pub advance : ℕ → ℕ
advance id = (id + 1) % 2 ^ 64

unfoldable pub append : EventStore → Bytes → EventStore
unfolding evict to_string
append store message = record store {
  events = evict store.capacity (store.events ++ (to_string (advance store.next_id), message) ∷ []);
  next_id = advance store.next_id;
}

-- The search of `events_after`, and what is behind what it finds.
unfoldable pub find_after : Bytes → List Event → Option (List Event)
find_after id [] = none
find_after id ((key, message) ∷ events) =
    if bytes_eq key id then some events else find_after id events

abbrev pub found_or_empty : Bytes → List Event → Option (List Event)
found_or_empty id [] = some []
found_or_empty id (e ∷ events) = find_after id (e ∷ events)

unfoldable pub events_after : EventStore → Bytes → Option (List Event)
unfolding find_after
events_after store last_event_id = found_or_empty last_event_id store.events

unfoldable pub clear : EventStore → EventStore
clear store = record store { events = []; next_id = 0 }
