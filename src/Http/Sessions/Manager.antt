-- ===== src/Http/Sessions/Manager.antt =====
-- src/transport/http_session_manager.cpp: the sessions of the manager and their lives. A
-- `shared_ptr<SessionRuntime>` is a position in `runtimes`, which has every session that was made, so
-- a request can hold a session that the map `sessions` has lost. `create_session` and `close` are
-- atomic here: the second look at `closed` in `create_session` sees what the first saw.
use mcp_cpp_sdk.Prelude.{
  ℕ, ◌+◌, Bool, true, false, Option, none, some, List, [], ◌∷◌, ◌++◌, if◌then◌else◌, length, get_or,
  set, Bytes, Table, lookup, emplace, erase,
}
use mcp_cpp_sdk.Protocol.{latest_protocol_version}
use mcp_cpp_sdk.Http.EventStore.{fresh}
use mcp_cpp_sdk.Http.Sessions.Runtime.{SessionRuntime, release}

pub record Manager (V : Type 0) : Type 0 where
  pub closed : Bool
  pub json_only_mode : Bool
  pub stateless_json_mode : Bool
  pub event_store_capacity : ℕ
  pub factory_calls : ℕ
  pub discover_server : Bool
  pub runtimes : List (SessionRuntime V)
  pub sessions : Table ℕ

module _ {V : Type 0} where
  abbrev pub new_session : Bytes → ℕ → SessionRuntime V
  new_session id capacity = record {
    session_id = id;
    transport_closed = false;
    written = [];
    negotiated_protocol_version = latest_protocol_version;
    event_store = fresh capacity;
    pending_responses = [];
    unassigned_stream_events = [];
  }

  -- The session behind a pointer.
  unfoldable pub runtime : Manager V → ℕ → SessionRuntime V
  runtime manager pointer = get_or manager.runtimes pointer (new_session [] 0)

  unfoldable pub set_runtime : Manager V → ℕ → SessionRuntime V → Manager V
  set_runtime manager pointer session = record manager {
    runtimes = set manager.runtimes pointer session;
  }

  unfoldable pub find_session : Manager V → Bytes → Option ℕ
  find_session manager id = lookup id manager.sessions

  -- The manager that has made a session of the identifier, at the end of `runtimes`.
  abbrev pub with_session : Manager V → Bytes → Manager V
  with_session manager id = record manager {
    factory_calls = manager.factory_calls + 1;
    runtimes = manager.runtimes ++ new_session id manager.event_store_capacity ∷ [];
    sessions = emplace id (length manager.runtimes) manager.sessions;
  }

  -- The new identifier is what `generate_session_id` returns; `none` is a null pointer.
  unfoldable pub create_session : Manager V → Bytes → Option (Manager V × ℕ)
  create_session manager id =
      if manager.closed then none else some (with_session manager id, length manager.runtimes)

  unfoldable pub released_at : Manager V → Bytes → Option ℕ → Manager V
  unfolding runtime
  released_at manager id none = manager
  released_at manager id (some pointer) = record manager {
    sessions = erase id manager.sessions;
    runtimes = set manager.runtimes pointer (release (runtime manager pointer));
  }

  unfoldable pub destroy_session : Manager V → Bytes → Manager V
  unfolding released_at find_session
  destroy_session manager id = released_at manager id (find_session manager id)

  unfoldable pub release_all : Table ℕ → List (SessionRuntime V) → List (SessionRuntime V)
  release_all [] runtimes = runtimes
  release_all ((id, pointer) ∷ sessions) runtimes =
      release_all sessions
        (set runtimes pointer (release (get_or runtimes pointer (new_session [] 0))))

  abbrev pub all_released : Manager V → Manager V
  all_released manager = record manager {
    closed = true;
    sessions = [];
    runtimes = release_all manager.sessions manager.runtimes;
  }

  unfoldable pub close : Manager V → Manager V
  unfolding release_all
  close manager = if manager.closed then manager else all_released manager

  unfoldable pub session_count : Manager V → ℕ
  session_count manager = length manager.sessions
