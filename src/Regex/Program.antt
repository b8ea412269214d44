-- ===== src/Regex/Program.antt =====
-- src/core/regex.cpp: the instructions of the virtual machine, and the compiled program.
use mcp_cpp_sdk.Prelude.{ℕ, Bool, List, Bytes}
use mcp_cpp_sdk.Regex.Ranges.{Range}

pub data Op : Type 0 where
  char any class split jump input_start input_end word_boundary not_word_boundary match : Op

pub record Instruction : Type 0 where
  pub op : Op
  pub arg1 : ℕ
  pub arg2 : ℕ

pub record RegexProgram : Type 0 where
  pub pattern : Bytes
  pub instructions : List Instruction
  pub classes : List (List Range)
  pub anchored : Bool

pub Op-discrete : Discrete Op
Op-discrete = hlevel
