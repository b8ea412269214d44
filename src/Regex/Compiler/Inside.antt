-- ===== src/Regex/Compiler/Inside.antt =====
-- Every way of compiling a node keeps the program in bounds, so that a compiled program is one that
-- the virtual machine runs right.
use mcp_cpp_sdk.Prelude.{
  ℕ, zero, suc, ◌+◌, ◌-◌, ◌≤◌, ◌<◌, ◌≡◌, refl, ◌∙◌, inl, inr, Option, none, some, List, [], ◌∷◌,
  ◌++◌, ◌==◌, length, length-append, get_elem?, Bool-cases, Option-cases, arith,
}
use mcp_cpp_sdk.Regex.Program.{Op, char, any, class, split, jump, match, Instruction}
use mcp_cpp_sdk.Regex.Node.{
  Kind, Node, max_program_size, Result, ok, err, ◌>>=◌, Ensures, Ensures-bind, Ensures-ok,
}
use mcp_cpp_sdk.Regex.Compiler.{
  Program, instruction, emit, set_arg2, emit_split, compile_concat, compile_alternatives,
  repeat_min, repeat_optional, repeat_unbounded, repeat_rest, compile_repeat, compile_kind, compile,
  compile_root,
}
use mcp_cpp_sdk.Regex.Compiler.Bounds.{
  Within, InBounds, Grown, length-set_arg1, length-set_arg2, InBounds-set_arg1, InBounds-set_arg2,
  Grown-set_all_arg1, Grown-set_all_arg2, emit-InBounds, TargetsWithin,
}

abbrev Emitted : ℕ → Program → Type 0
Emitted n p = InBounds p × (length p ≡ n + 1)

emit_split-Emitted :
    (program : Program) → InBounds program → Ensures (emit_split program) (Emitted (length program))
unfolding emit_split
emit_split-Emitted program b =
    Ensures-bind (Emitted (length program)) (Emitted (length program))
      (emit (instruction split 0 0) program) _
      (emit-InBounds (instruction split 0 0) program (omega arith, omega arith) b)
      λ after e. (
        InBounds-set_arg1 (length program) (length after) after (omega arith) e.0,
        length-set_arg1 (length program) (length after) after ∙ e.1,
      )

abbrev Keeps : (ℕ → Program → Result Program) → Type 0
Keeps comp =
    (child : ℕ) (program : Program)
    → InBounds program
    → Ensures (comp child program) (Grown (length program))

Grown-trans : {m n : ℕ} {p : Program} → m ≤ n → Grown n p → Grown m p
Grown-trans h g = record { bounds = g.bounds; longer = omega (arith, g.longer) }

-- What follows a step that grew the program.
module _ (n : ℕ) (m : Result Program) (f : Program → Result Program) where
  then_grow :
      Ensures m (Grown n)
      → ((p : Program) → Grown n p → Ensures (f p) (Grown n))
      → Ensures (m >>= f) (Grown n)
  then_grow h k = Ensures-bind (Grown n) (Grown n) m f h k

  after_emit :
      (k : ℕ)
      → Ensures m (Emitted k)
      → ((p : Program) → Emitted k p → Ensures (f p) (Grown n))
      → Ensures (m >>= f) (Grown n)
  after_emit k h g = Ensures-bind (Emitted k) (Grown n) m f h g

-- A larger start is a weaker demand.
Ensures-weaken : (m n : ℕ) (r : Result Program) → m ≤ n → Ensures r (Grown n) → Ensures r (Grown m)
Ensures-weaken m n (ok p) h g = Grown-trans h g
Ensures-weaken m n (err e) h g = tt

Grown-refl : (program : Program) → InBounds program → Grown (length program) program
Grown-refl program b = record { bounds = b; longer = omega arith }

module _ (comp : ℕ → Program → Result Program) (keeps : Keeps comp) where
  compile_concat-Grown :
      (children : List ℕ) (program : Program)
      → InBounds program
      → Ensures (compile_concat comp children program) (Grown (length program))
  unfolding compile_concat
  compile_concat-Grown [] program b = Grown-refl program b
  compile_concat-Grown (child ∷ children) program b =
      then_grow (length program) (comp child program) _ (keeps child program b) λ after g.
        Ensures-weaken (length program) (length after) _ g.longer
          (compile_concat-Grown children after g.bounds)

  compile_alternatives-Grown :
      (children jumps : List ℕ) (program : Program)
      → InBounds program
      → Ensures (compile_alternatives comp children jumps program) (Grown (length program))
  unfolding compile_alternatives
  compile_alternatives-Grown [] jumps program b = Grown-refl program b
  compile_alternatives-Grown (child ∷ []) jumps program b =
      then_grow (length program) (comp child program) _ (keeps child program b)
        λ after g. Grown-set_all_arg1 (length program) (length after) jumps after (omega arith) g
  compile_alternatives-Grown (child ∷ next ∷ children) jumps program b =
      after_emit (length program) (emit_split program) _ (length program)
        (emit_split-Emitted program b)
        λ opened o.
          then_grow (length program) (comp child opened) _
            (Ensures-weaken (length program) (length opened) _ (omega (arith, o.1))
              (keeps child opened o.0))
            λ body g.
              after_emit (length program) (emit (instruction jump 0 0) body) _ (length body)
                (emit-InBounds (instruction jump 0 0) body (omega arith) g.bounds)
                λ jumped j.
                  Ensures-weaken (length program) _ _
                    (omega (
                      arith,
                      j.1,
                      g.longer,
                      length-set_arg2 (length program) (length jumped) jumped,
                    ))
                    (compile_alternatives-Grown (next ∷ children) (jumps ++ length body ∷ [])
                      (set_arg2 (length program) (length jumped) jumped)
                      (InBounds-set_arg2 (length program) (length jumped) jumped (omega arith) j.0))

  repeat_min-Grown :
      (n child : ℕ) (program : Program)
      → InBounds program
      → Ensures (repeat_min comp n child program) (Grown (length program))
  unfolding repeat_min
  repeat_min-Grown zero child program b = Grown-refl program b
  repeat_min-Grown (suc n) child program b =
      then_grow (length program) (comp child program) _ (keeps child program b) λ after g.
        elim (Bool-cases (length after == length program)) [
          | inl same ↦ rw same g
          | inr grew ↦ rw grew (
              Ensures-weaken (length program) (length after) _ g.longer
                (repeat_min-Grown n child after g.bounds))
        ]

  repeat_optional-Grown :
      (n child : ℕ) (splits : List ℕ) (program : Program)
      → InBounds program
      → Ensures (repeat_optional comp n child splits program) (Grown (length program))
  unfolding repeat_optional
  repeat_optional-Grown zero child splits program b =
      Grown-set_all_arg2 (length program) (length program) splits program (omega arith)
        (Grown-refl program b)
  repeat_optional-Grown (suc n) child splits program b =
      after_emit (length program) (emit_split program) _ (length program)
        (emit_split-Emitted program b)
        λ opened o.
          then_grow (length program) (comp child opened) _
            (Ensures-weaken (length program) (length opened) _ (omega (arith, o.1))
              (keeps child opened o.0))
            λ after g.
              Ensures-weaken (length program) (length after) _ g.longer
                (repeat_optional-Grown n child (splits ++ length program ∷ []) after g.bounds)

  repeat_unbounded-Grown :
      (child : ℕ) (program : Program)
      → InBounds program
      → Ensures (repeat_unbounded comp child program) (Grown (length program))
  unfolding repeat_unbounded
  repeat_unbounded-Grown child program b =
      after_emit (length program) (emit_split program) _ (length program)
        (emit_split-Emitted program b)
        λ opened o.
          then_grow (length program) (comp child opened) _
            (Ensures-weaken (length program) (length opened) _ (omega (arith, o.1))
              (keeps child opened o.0))
            λ body g.
              after_emit (length program) (emit (instruction jump (length program) 0) body) _
                (length body)
                (emit-InBounds (instruction jump (length program) 0) body g.longer g.bounds)
                λ jumped j. record {
                  bounds =
                      InBounds-set_arg2 (length program) (length jumped) jumped (omega arith) j.0;
                  longer = omega (
                    arith,
                    j.1,
                    g.longer,
                    length-set_arg2 (length program) (length jumped) jumped,
                  );
                }

  repeat_rest-Grown :
      (most : Option ℕ) (least child : ℕ) (program : Program)
      → InBounds program
      → Ensures (repeat_rest comp most least child program) (Grown (length program))
  unfolding repeat_rest
  repeat_rest-Grown none least child program b = repeat_unbounded-Grown child program b
  repeat_rest-Grown (some most) least child program b =
      repeat_optional-Grown (most - least) child [] program b

  compile_repeat-Grown :
      (children : List ℕ) (node : Node) (program : Program)
      → InBounds program
      → Ensures (compile_repeat comp children node program) (Grown (length program))
  unfolding compile_repeat
  compile_repeat-Grown [] node program b = Grown-refl program b
  compile_repeat-Grown (child ∷ children) node program b =
      then_grow (length program) (repeat_min comp node.min child program) _
        (repeat_min-Grown node.min child program b)
        λ after g.
          Ensures-weaken (length program) (length after) _ g.longer
            (repeat_rest-Grown node.max node.min child after g.bounds)

  plain_within : (n : ℕ) (op : Op) (a : ℕ) → a ≤ n → TargetsWithin n op (instruction op a 0)
  plain_within n op a h = ground arith

  emit-Grown :
      (i : Instruction) (program : Program)
      → TargetsWithin (length program) i.op i
      → InBounds program
      → Ensures (emit i program) (Grown (length program))
  emit-Grown i program t b = emitted_grown (emit i program) (emit-InBounds i program t b)
    where
      emitted_grown :
          (r : Result Program)
          → Ensures r (Emitted (length program))
          → Ensures r (Grown (length program))
      emitted_grown (ok p) e = record { bounds = e.0; longer = omega (arith, e.1) }
      emitted_grown (err x) e = tt

  compile_kind-Grown :
      (kind : Kind) (node : Node) (program : Program)
      → InBounds program
      → Ensures (compile_kind comp kind node program) (Grown (length program))
  unfolding compile_kind
  compile_kind-Grown Kind.empty node program b = Grown-refl program b
  compile_kind-Grown Kind.char node program b =
      emit-Grown (instruction char node.code_point 0) program tt b
  compile_kind-Grown Kind.any node program b = emit-Grown (instruction any 0 0) program tt b
  compile_kind-Grown Kind.class node program b =
      emit-Grown (instruction class node.class_index 0) program tt b
  compile_kind-Grown Kind.assertion node program b =
      emit-Grown (instruction node.assertion 0 0) program
        (plain_within (length program) node.assertion 0 (omega arith)) b
  compile_kind-Grown Kind.concat node program b = compile_concat-Grown node.children program b
  compile_kind-Grown Kind.alternation node program b =
      compile_alternatives-Grown node.children [] program b
  compile_kind-Grown Kind.repeat node program b = compile_repeat-Grown node.children node program b

compile-Keeps : (nodes : List Node) (fuel : ℕ) → Keeps (compile nodes fuel)
unfolding compile
compile-Keeps nodes zero index program b = tt
compile-Keeps nodes (suc fuel) index program b = elim (Option-cases (get_elem? nodes index)) [
  | inl e ↦ rw (e, compile) (Grown-refl program b)
  | inr (node, e) ↦
      rw (e, compile)
        (compile_kind-Grown (compile nodes fuel) (compile-Keeps nodes fuel) node.kind node program
          b)
]

-- What a compiled program looks like: code within its bounds, and `match` behind it.
pub record IsCompiled (program : Program) : Type 0 where
  pub code : Program
  pub shape : program ≡ code ++ instruction match 0 0 ∷ []
  pub within : Within (length code) code
  pub limited : length program ≤ max_program_size

emit-ok :
    (i : Instruction) (program p : Program)
    → emit i program ≡ ok p
    → (p ≡ program ++ i ∷ []) × (length program < max_program_size)
unfolding emit
emit-ok i program p e = ground arith

compile_root-Ensures : (nodes : List Node) (root : ℕ) → Ensures (compile_root nodes root) IsCompiled
unfolding compile_root
compile_root-Ensures nodes root =
    Ensures-bind (Grown 0) IsCompiled (compile nodes (length nodes) root []) _
      (compile-Keeps nodes (length nodes) root [] (record { within = tt; limited = omega arith }))
      λ code g. finish code g (emit (instruction match 0 0) code) refl
  where
    finish :
        (code : Program)
        → Grown 0 code
        → (r : Result Program) → emit (instruction match 0 0) code ≡ r
        → Ensures r IsCompiled
    finish code g (err x) e = tt
    finish code g (ok p) e =
        let (shape, room) = emit-ok (instruction match 0 0) code p e in
        record {
          code = code;
          shape = shape;
          within = g.bounds.within;
          limited = rw shape (omega (arith, length-append code (instruction match 0 0 ∷ [])));
        }

-- Whatever the nodes are, what `compile` and the final `match` make of them is code whose jumps and
-- splits stay inside it, with `match` behind it, of at most `max_program_size` instructions.
pub compile_root-IsCompiled :
    (nodes : List Node) (root : ℕ) (program : Program)
    → compile_root nodes root ≡ ok program
    → IsCompiled program
compile_root-IsCompiled nodes root program e =
    Ensures-ok IsCompiled (compile_root nodes root) program (compile_root-Ensures nodes root) e
