-- ===== src/Regex/Tests.antt =====
-- Patterns compiled and searched, and the theorems of the engine at concrete inputs.
use mcp_cpp_sdk.Prelude.{
  ℕ, ◌+◌, ◌*◌, ◌≤◌, ◌≡◌, refl, Bool, true, false, Option, some, List, [], ◌∷◌, Bytes, codes, arith,
  All, ◌↔◌, length,
}
use mcp_cpp_sdk.Regex.Ranges
use mcp_cpp_sdk.Regex.Ranges.{Range, normalize, complement, max_code_point}
use mcp_cpp_sdk.Regex.Ranges.Laws.{contains-normalize, contains-normalize-complement}
use mcp_cpp_sdk.Regex.Utf8.{decode_text, decode_from}
use mcp_cpp_sdk.Regex.Utf8.Laws.{encode_text, IsScalar, decode_text-encode, decode_text-IsScalar}
use mcp_cpp_sdk.Regex.Program.{RegexProgram, Op, char, match}
use mcp_cpp_sdk.Regex.ThreadList
use mcp_cpp_sdk.Regex.ThreadList.{ThreadList, insert, contains, sized}
use mcp_cpp_sdk.Regex.ThreadList.Laws.{contains-insert, contains-sized, sized-IsValid}
use mcp_cpp_sdk.Regex.Machine.{search, start_position, consumes, is_word_character}
use mcp_cpp_sdk.Regex.Machine.Accepts.{Finds}
use mcp_cpp_sdk.Regex.Node.{
  Node, Kind, default_node, RegexError, ok, err, nothing_to_repeat, backreference,
}
use mcp_cpp_sdk.Regex.Compiler.{Program, instruction, starts_anchored, compile_root}
use mcp_cpp_sdk.Regex.Compiler.Runs.{stored, compile_root-IsWellFormed}
use mcp_cpp_sdk.Regex.Machine.Rounds.{IsWellFormed}
use mcp_cpp_sdk.Regex.Construct.{regex, regex-search}

data Outcome : Type 0 where
  refused : RegexError → Outcome
  answered : Option Bool → Outcome

run_pattern : Bytes → Bytes → Outcome
unfolding regex search decode_from ThreadList.contains ThreadList.sized ThreadList.insert consumes
    ThreadList.at ThreadList.clear starts_anchored Ranges.contains normalize complement
    Ranges.digit_ranges is_word_character
run_pattern pattern input = elim (regex pattern) [
  | err e ↦ refused e
  | ok p ↦ answered (search p input 100000).0
]

run_anchored : run_pattern (codes "^a(b|c)*d$") (codes "abcbd") ≡ answered (some true)
unfolding run_pattern
run_anchored = refl

run_class : run_pattern (codes "[^0-9]{2,3}\\d") (codes "12ab3") ≡ answered (some true)
unfolding run_pattern
run_class = refl

run_no_match : run_pattern (codes "\\bfoo\\b") (codes "afoo b") ≡ answered (some false)
unfolding run_pattern
run_no_match = refl

run_refused : run_pattern (codes "a|*") [] ≡ refused nothing_to_repeat
unfolding run_pattern
run_refused = refl

run_backreference : run_pattern (codes "(a)\\1") [] ≡ refused backreference
unfolding run_pattern
run_backreference = refl

abbrev vowels : List Range
vowels =
    record { first = b'o'; last = b'u' }
    ∷ record { first = b'a'; last = b'e' }
    ∷ record { first = b'c'; last = b'i' }
    ∷ []

contains-normalize_example : Ranges.contains (normalize vowels) b'h' ≡ true
contains-normalize_example = contains-normalize vowels b'h' (omega arith)

contains-normalize-complement_example : Ranges.contains (normalize (complement vowels)) b'k' ≡ true
contains-normalize-complement_example =
    contains-normalize-complement vowels b'k' (omega arith) (omega arith)

abbrev accents : List ℕ
accents = 0x61 ∷ 0xE9 ∷ 0x20AC ∷ 0x1F600 ∷ []

scalars : All IsScalar accents
scalars =
    ((omega arith, refl), ((omega arith, refl), ((omega arith, refl), ((omega arith, refl), tt))))

decode_text-encode_example : decode_text (encode_text accents) ≡ accents
decode_text-encode_example = decode_text-encode accents scalars

contains-insert_example : contains (insert (sized 4) 2) 3 ≡ contains (sized 4) 3
contains-insert_example =
    contains-insert {size = 4} {t = sized 4} 2 3 (sized-IsValid 4) (omega arith)
      (contains-sized 4 2)

-- The program of `ab`.
abbrev program_ab : RegexProgram
program_ab = record {
  pattern = codes "ab";
  instructions =
      record { op = char; arg1 = b'a'; arg2 = 0 }
      ∷ record { op = char; arg1 = b'b'; arg2 = 0 }
      ∷ record { op = match; arg1 = 0; arg2 = 0 }
      ∷ [];
  classes = [];
  anchored = false;
}

regex-ab : regex (codes "ab") ≡ ok program_ab
unfolding regex decode_from starts_anchored
regex-ab = refl

enough_ab : 3 + length (decode_text (codes "xab")) * 4 ≤ 15
unfolding decode_from
enough_ab = omega arith

regex-search_example :
    (b : Bool) × ((search program_ab (codes "xab") 15).0 ≡ some b)
    × ((b ≡ true)
        ↔ Finds program_ab (start_position (decode_text (codes "xab"))) (decode_text (codes "xab")))
regex-search_example = regex-search (codes "ab") (codes "xab") program_ab 15 regex-ab enough_ab

-- Bytes that are no UTF-8.
decode_text-IsScalar_example : All IsScalar (decode_text (0xC0 ∷ 0xED ∷ 0xA0 ∷ 0x80 ∷ 0x61 ∷ []))
decode_text-IsScalar_example = decode_text-IsScalar 5 (0xC0 ∷ 0xED ∷ 0xA0 ∷ 0x80 ∷ 0x61 ∷ [])

-- The nodes of `x*`.
abbrev starred : List Node
starred =
    record default_node { kind = Kind.char; code_point = b'x' }
    ∷ record default_node { kind = Kind.repeat; children = 0 ∷ [] }
    ∷ []

abbrev starred_program : Program
starred_program =
    instruction Op.split 1 3
    ∷ instruction Op.char b'x' 0
    ∷ instruction Op.jump 0 0
    ∷ instruction Op.match 0 0
    ∷ []

starred-compiled : compile_root starred 1 ≡ ok starred_program
unfolding compile_root
starred-compiled = refl

compile_root-IsWellFormed_example : IsWellFormed (stored (codes "x*") [] starred_program)
compile_root-IsWellFormed_example =
    compile_root-IsWellFormed starred 1 starred_program (codes "x*") [] starred-compiled
