-- ===== src/Regex/ThreadList.antt =====
-- src/core/regex.cpp: `ThreadList`, the sparse set of program counters.
pub mod Laws
use mcp_cpp_sdk.Prelude.{ℕ, ◌+◌, Bool, ◌&&◌, List, ltb, ◌==◌, get_or, set, replicate}

pub record ThreadList : Type 0 where
  pub dense : List ℕ
  pub sparse : List ℕ
  pub count : ℕ

unfoldable pub sized : ℕ → ThreadList
sized size = record { dense = replicate size 0; sparse = replicate size 0; count = 0 }

unfoldable pub contains : ThreadList → ℕ → Bool
contains t pc = let slot = get_or t.sparse pc 0 in ltb slot t.count && get_or t.dense slot 0 == pc

unfoldable pub insert : ThreadList → ℕ → ThreadList
insert t pc = record {
  dense = set t.dense t.count pc;
  sparse = set t.sparse pc t.count;
  count = t.count + 1;
}

unfoldable pub clear : ThreadList → ThreadList
clear t = record t { count = 0 }

-- `operator[]`
unfoldable pub at : ThreadList → ℕ → ℕ
at t i = get_or t.dense i 0
