-- ===== src/Regex/Compiler/Runs.antt =====
-- A compiled program is well formed, so what is proved of the search holds of it.
use mcp_cpp_sdk.Prelude.{
  ℕ, zero, suc, ◌+◌, ◌<◌, ◌≡◌, refl, subst, ◌⊎◌, inl, inr, true, some, List, [], ◌∷◌, ◌++◌, length,
  length-append, get_elem?, All, Option-cases, arith, Bytes,
}
use mcp_cpp_sdk.Regex.Ranges
use mcp_cpp_sdk.Regex.Program.{Op, input_start, match, Instruction, RegexProgram}
use mcp_cpp_sdk.Regex.Node.{Node, ok}
use mcp_cpp_sdk.Regex.Machine.{Position, pushed, pushes, op_consumes, consumes}
use mcp_cpp_sdk.Regex.Machine.Rounds.{IsWellFormed}
use mcp_cpp_sdk.Regex.Compiler.{Program, instruction, compile_root, starts_anchored}
use mcp_cpp_sdk.Regex.Compiler.Bounds.{TargetsWithin, Within}
use mcp_cpp_sdk.Regex.Compiler.Inside.{IsCompiled, compile_root-IsCompiled}

-- An instruction of the program is the final `match`, or lies in front of it with its targets inside.
at_index :
    (n pc : ℕ) (code : Program) (i : Instruction)
    → Within n code
    → get_elem? (code ++ instruction match 0 0 ∷ []) pc ≡ some i
    → (i.op ≡ match) ⊎ ((pc < length code) × TargetsWithin n i.op i)
at_index n zero [] i w e = ground arith
at_index n (suc pc) [] i w e = cc
at_index n zero (j ∷ js) i w e =
    let same : j ≡ i = cc in inr (omega arith, subst (λ x. TargetsWithin n x.op x) same w.0)
at_index n (suc pc) (j ∷ js) i w e = elim (at_index n pc js i w.1 e) [
  | inl last ↦ inl last
  | inr (inside, t) ↦ inr (omega arith, t)
]

pushed-within :
    (n pc : ℕ) (op : Op) (i : Instruction) (here : Position)
    → pc < n
    → TargetsWithin n op i
    → All (λ q. q < n + 1) (pushed op i pc here)
pushed-within n pc op i here h t = ground arith

module _ (program : Program) (c : IsCompiled program) where
  size : length program ≡ length c.code + 1
  size = rw c.shape (length-append c.code (instruction match 0 0 ∷ []))

  placed :
      (pc : ℕ) (i : Instruction)
      → get_elem? program pc ≡ some i
      → (i.op ≡ match) ⊎ ((pc < length c.code) × TargetsWithin (length c.code) i.op i)
  placed pc i e =
      at_index (length c.code) pc c.code i c.within (subst (λ x. get_elem? x pc ≡ some i) c.shape e)

  inside : (here : Position) (pc : ℕ) → All (λ q. q < length program) (pushes program here pc)
  unfolding pushes
  inside here pc = elim (Option-cases (get_elem? program pc)) [
    | inl e ↦ rw (e, pushes) tt
    | inr (i, e) ↦ elim (placed pc i e) [
      | inl last ↦ rw (e, pushes) (rw last tt)
      | inr (h, t) ↦ rw (e, size, pushes) (pushed-within (length c.code) pc i.op i here h t)
    ]
  ]

  eats_inside :
      (p : RegexProgram) (pc ch : ℕ)
      → p.instructions ≡ program
      → consumes p pc ch ≡ true
      → pc + 1 < length program
  unfolding consumes
  eats_inside p pc ch same eats = elim (Option-cases (get_elem? p.instructions pc)) [
    | inl e ↦ cc (rw (e, consumes) at eats)
    | inr (i, e) ↦ elim (placed pc i (subst (λ x. get_elem? x pc ≡ some i) same e)) [
      | inl last ↦ cc (rw (last, op_consumes) at rw (e, consumes) at eats)
      | inr (h, t) ↦ omega (arith, size)
    ]
  ]

first_anchored :
    (program : Program)
    → starts_anchored program ≡ true
    → (i : Instruction) × (get_elem? program 0 ≡ some i) × (i.op ≡ input_start)
unfolding starts_anchored
first_anchored [] h = cc
first_anchored (i ∷ is) h = (i, refl, ground arith)

-- The program that the constructor of `Regex` stores.
abbrev pub stored : Bytes → List (List Ranges.Range) → Program → RegexProgram
stored pattern classes program = record {
  pattern = pattern;
  instructions = program;
  classes = classes;
  anchored = starts_anchored program;
}

-- Every program that the compiler makes, from any nodes and with any classes, is not empty, no counter
-- that the search follows or steps to leaves it, and if it is anchored, it starts with the test for the
-- start of the input.
pub compile_root-IsWellFormed :
    (nodes : List Node) (root : ℕ) (program : Program) (pattern : Bytes)
    (classes : List (List Ranges.Range))
    → compile_root nodes root ≡ ok program
    → IsWellFormed (stored pattern classes program)
compile_root-IsWellFormed nodes root program pattern classes e = record {
  inside = inside program compiled;
  eats_inside = λ pc ch. eats_inside program compiled (stored pattern classes program) pc ch refl;
  nonempty = omega (arith, size program compiled);
  anchor = first_anchored program;
}
  where
    compiled : IsCompiled program
    compiled = compile_root-IsCompiled nodes root program e
