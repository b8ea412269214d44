-- ===== src/Regex/Compiler/Bounds.antt =====
-- The compiled program stays inside itself and below the size limit.
use mcp_cpp_sdk.Prelude.{
  ℕ, zero, suc, ◌+◌, ◌≤◌, ◌≡◌, refl, inl, inr, List, [], ◌∷◌, ◌++◌, leb, length, length-append, All,
  All-append, Bool-cases, arith,
}
use mcp_cpp_sdk.Regex.Program.{Op, split, jump, Instruction}
use mcp_cpp_sdk.Regex.Node.{max_program_size, Ensures}
use mcp_cpp_sdk.Regex.Compiler.{Program, emit, set_arg1, set_arg2, set_all_arg1, set_all_arg2}

abbrev pub TargetsWithin : ℕ → Op → Instruction → Type 0
TargetsWithin n jump i = i.arg1 ≤ n
TargetsWithin n split i = (i.arg1 ≤ n) × (i.arg2 ≤ n)
TargetsWithin n _ i = Unit {0}

abbrev pub Within : ℕ → Program → Type 0
Within n program = All (λ i. TargetsWithin n i.op i) program

pub record InBounds (program : Program) : Type 0 where
  pub within : Within (length program) program
  pub limited : length program ≤ max_program_size

pub record Grown (n : ℕ) (program : Program) : Type 0 where
  pub bounds : InBounds program
  pub longer : n ≤ length program

TargetsWithin-mono :
    (m n : ℕ) (op : Op) (i : Instruction) → m ≤ n → TargetsWithin m op i → TargetsWithin n op i
TargetsWithin-mono m n op i h t = ground arith

pub Within-mono : (m n : ℕ) (program : Program) → m ≤ n → Within m program → Within n program
Within-mono m n [] h w = tt
Within-mono m n (i ∷ is) h w = (TargetsWithin-mono m n i.op i h w.0, Within-mono m n is h w.1)

pub length-set_arg1 :
    (at value : ℕ) (program : Program) → length (set_arg1 at value program) ≡ length program
unfolding set_arg1
length-set_arg1 at value [] = refl
length-set_arg1 zero value (i ∷ is) = refl
length-set_arg1 (suc at) value (i ∷ is) = omega (arith, length-set_arg1 at value is)

pub length-set_arg2 :
    (at value : ℕ) (program : Program) → length (set_arg2 at value program) ≡ length program
unfolding set_arg2
length-set_arg2 at value [] = refl
length-set_arg2 zero value (i ∷ is) = refl
length-set_arg2 (suc at) value (i ∷ is) = omega (arith, length-set_arg2 at value is)

retarget1 :
    (n value : ℕ) (op : Op) (i : Instruction)
    → value ≤ n
    → TargetsWithin n op i
    → TargetsWithin n op (record i { arg1 = value })
retarget1 n value op i h t = ground arith

retarget2 :
    (n value : ℕ) (op : Op) (i : Instruction)
    → value ≤ n
    → TargetsWithin n op i
    → TargetsWithin n op (record i { arg2 = value })
retarget2 n value op i h t = ground arith

Within-set_arg1 :
    (n at value : ℕ) (program : Program)
    → value ≤ n
    → Within n program
    → Within n (set_arg1 at value program)
unfolding set_arg1
Within-set_arg1 n at value [] h w = tt
Within-set_arg1 n zero value (i ∷ is) h w = (retarget1 n value i.op i h w.0, w.1)
Within-set_arg1 n (suc at) value (i ∷ is) h w = (w.0, Within-set_arg1 n at value is h w.1)

Within-set_arg2 :
    (n at value : ℕ) (program : Program)
    → value ≤ n
    → Within n program
    → Within n (set_arg2 at value program)
unfolding set_arg2
Within-set_arg2 n at value [] h w = tt
Within-set_arg2 n zero value (i ∷ is) h w = (retarget2 n value i.op i h w.0, w.1)
Within-set_arg2 n (suc at) value (i ∷ is) h w = (w.0, Within-set_arg2 n at value is h w.1)

pub InBounds-set_arg1 :
    (at value : ℕ) (program : Program)
    → value ≤ length program
    → InBounds program
    → InBounds (set_arg1 at value program)
InBounds-set_arg1 at value program h b = record {
  within =
      rw (length-set_arg1 at value program)
        (Within-set_arg1 (length program) at value program h b.within);
  limited = omega (arith, length-set_arg1 at value program, b.limited);
}

pub InBounds-set_arg2 :
    (at value : ℕ) (program : Program)
    → value ≤ length program
    → InBounds program
    → InBounds (set_arg2 at value program)
InBounds-set_arg2 at value program h b = record {
  within =
      rw (length-set_arg2 at value program)
        (Within-set_arg2 (length program) at value program h b.within);
  limited = omega (arith, length-set_arg2 at value program, b.limited);
}

pub Grown-set_all_arg1 :
    (n value : ℕ) (js : List ℕ) (program : Program)
    → value ≤ length program
    → Grown n program
    → Grown n (set_all_arg1 js value program)
unfolding set_all_arg1
Grown-set_all_arg1 n value [] program h g = g
Grown-set_all_arg1 n value (j ∷ js) program h g =
    Grown-set_all_arg1 n value js (set_arg1 j value program)
      (omega (arith, length-set_arg1 j value program))
      (record {
        bounds = InBounds-set_arg1 j value program h g.bounds;
        longer = omega (arith, length-set_arg1 j value program, g.longer);
      })

pub Grown-set_all_arg2 :
    (n value : ℕ) (js : List ℕ) (program : Program)
    → value ≤ length program
    → Grown n program
    → Grown n (set_all_arg2 js value program)
unfolding set_all_arg2
Grown-set_all_arg2 n value [] program h g = g
Grown-set_all_arg2 n value (j ∷ js) program h g =
    Grown-set_all_arg2 n value js (set_arg2 j value program)
      (omega (arith, length-set_arg2 j value program))
      (record {
        bounds = InBounds-set_arg2 j value program h g.bounds;
        longer = omega (arith, length-set_arg2 j value program, g.longer);
      })

pub emit-InBounds :
    (i : Instruction) (program : Program)
    → TargetsWithin (length program) i.op i
    → InBounds program
    → Ensures (emit i program) (λ p. InBounds p × (length p ≡ length program + 1))
unfolding emit
emit-InBounds i program t b = elim (Bool-cases (leb max_program_size (length program))) [
  | inl full ↦ rw full tt
  | inr room ↦ rw room (
    record { within = within; limited = ground (arith, length-append program (i ∷ [])) },
    length-append program (i ∷ []),
  )
]
  where
    size : length (program ++ i ∷ []) ≡ length program + 1
    size = length-append program (i ∷ [])

    within : Within (length (program ++ i ∷ [])) (program ++ i ∷ [])
    within =
        All-append _ program (i ∷ [])
          (Within-mono (length program) _ program (omega (arith, size)) b.within)
          (TargetsWithin-mono (length program) _ i.op i (omega (arith, size)) t, tt)
