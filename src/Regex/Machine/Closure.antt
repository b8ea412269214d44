-- ===== src/Regex/Machine/Closure.antt =====
-- `add_thread` of src/core/regex.cpp against reachability through zero-width instructions.
use mcp_cpp_sdk.Prelude.{
  ℕ, zero, suc, ◌+◌, ◌*◌, ◌≤◌, ◌<◌, ◌≡◌, ◌≢◌, refl, subst, ◌⊎◌, inl, inr, Bool, true, false, ◌||◌,
  Option, none, some, List, [], ◌∷◌, ◌++◌, length, length-append, get_elem?, All, All-append,
  Bool-cases, arith, ◌==◌,
}
use native.Mathlib.Decide.{ℕ_discrete}
use mcp_cpp_sdk.Regex.Program.{Op, Instruction}
use mcp_cpp_sdk.Regex.ThreadList.{ThreadList, contains, insert}
use mcp_cpp_sdk.Regex.ThreadList.Laws.{
  IsValid, missing, missing-insert, missing-le, contains-insert, insert-IsValid,
}
use mcp_cpp_sdk.Regex.Machine.{
  Position, pushed, pushes, is_match, Walk, walk_from, walk_fuel, add_thread,
}

abbrev pub In : ℕ → List ℕ → Type 0
In q [] = ⊥
In q (x ∷ xs) = (q ≡ x) ⊎ In q xs

In-append_left : (q : ℕ) (xs ys : List ℕ) → In q xs → In q (xs ++ ys)
In-append_left q (x ∷ xs) ys (inl e) = inl e
In-append_left q (x ∷ xs) ys (inr h) = inr (In-append_left q xs ys h)
In-append_left q [] ys h = absurd h

In-append_right : (q : ℕ) (xs ys : List ℕ) → In q ys → In q (xs ++ ys)
In-append_right q [] ys h = h
In-append_right q (x ∷ xs) ys h = inr (In-append_right q xs ys h)

In-append : (q : ℕ) (xs ys : List ℕ) → In q (xs ++ ys) → In q xs ⊎ In q ys
In-append q [] ys h = inr h
In-append q (x ∷ xs) ys (inl e) = inl (inl e)
In-append q (x ∷ xs) ys (inr h) = elim (In-append q xs ys h) [ inl k ↦ inl (inr k) | inr k ↦ inr k ]

-- `q` is reached from `p` through zero-width instructions, at one position of the input.
pub data Reach (program : List Instruction) (here : Position) (p : ℕ) : ℕ → Type 0 where
  start : Reach program here p p
  follow :
      {q r : ℕ} → Reach program here p q → In r (pushes program here q) → Reach program here p r

-- No instruction leads out of the program.
abbrev pub StaysInside : List Instruction → Type 0
StaysInside program =
    (here : Position) (pc : ℕ) → All (λ q. q < length program) (pushes program here pc)

length-pushed :
    (op : Op) (i : Instruction) (pc : ℕ) (here : Position) → length (pushed op i pc here) ≤ 2
length-pushed op i pc here = ground arith

length-pushes :
    (program : List Instruction) (here : Position) (pc : ℕ) → length (pushes program here pc) ≤ 2
unfolding pushes
length-pushes program here pc = split_on (get_elem? program pc)
  where
    split_on :
        (o : Option Instruction)
        → length (elim o [ none ↦ [] | some i ↦ pushed i.op i pc here ]) ≤ 2
    split_on none = omega arith
    split_on (some i) = length-pushed i.op i pc here

module _ (program : List Instruction) (here : Position) where
  abbrev FromStack : List ℕ → ℕ → Type 0
  FromStack stack q = (s : ℕ) × In s stack × Reach program here s q

  pub Reach-trans :
      {p q r : ℕ} → Reach program here p q → Reach program here q r → Reach program here p r
  Reach-trans a start = a
  Reach-trans a (follow b h) = follow (Reach-trans a b) h

  -- What the loop leaves when it starts with `stack`, `t` and `m` and ends with `w`.
  pub record Walked (stack : List ℕ) (t : ThreadList) (m : Bool) (w : Walk) : Type 0 where
    pub finished : w.stack ≡ []
    pub valid : IsValid (length program) w.list
    pub keeps : (q : ℕ) → contains t q ≡ true → contains w.list q ≡ true
    pub stacked : (q : ℕ) → In q stack → contains w.list q ≡ true
    pub closed :
        (p : ℕ)
        → contains w.list p ≡ true
        → contains t p ≡ false
        → (q : ℕ) → In q (pushes program here p)
        → contains w.list q ≡ true
    pub sound : (q : ℕ) → contains w.list q ≡ true → (contains t q ≡ true) ⊎ FromStack stack q
    pub match_kept : m ≡ true → w.matched ≡ true
    pub match_found :
        (q : ℕ)
        → contains w.list q ≡ true
        → contains t q ≡ false
        → is_match program q ≡ true
        → w.matched ≡ true
    pub match_sound :
        w.matched ≡ true
        → (m ≡ true) ⊎ ((q : ℕ) × (contains w.list q ≡ true) × (is_match program q ≡ true))

  ended :
      (t : ThreadList) (m : Bool)
      → IsValid (length program) t
      → Walked [] t m (record { stack = []; list = t; matched = m })
  ended t m v = record {
    finished = refl;
    valid = v;
    keeps = λ q h. h;
    stacked = λ q h. absurd h;
    closed = λ p h e q k. cc (h, e);
    sound = λ q h. inl h;
    match_kept = λ h. h;
    match_found = λ q h e k. cc (h, e);
    match_sound = λ h. inl h;
  }

  skipped :
      (pc : ℕ) (stack : List ℕ) (t : ThreadList) (m : Bool) (w : Walk)
      → contains t pc ≡ true
      → Walked stack t m w
      → Walked (pc ∷ stack) t m w
  skipped pc stack t m w e r = record {
    finished = r.finished;
    valid = r.valid;
    keeps = r.keeps;
    stacked = stacked;
    closed = r.closed;
    sound = λ q h. elim (r.sound q h) [ inl k ↦ inl k | inr (s, k, p) ↦ inr (s, inr k, p) ];
    match_kept = r.match_kept;
    match_found = r.match_found;
    match_sound = r.match_sound;
  }
    where
      stacked : (q : ℕ) → In q (pc ∷ stack) → contains w.list q ≡ true
      stacked q (inl same) = rw same (r.keeps pc e)
      stacked q (inr h) = r.stacked q h

  entered :
      (pc : ℕ) (stack : List ℕ) (t : ThreadList) (m : Bool) (w : Walk)
      → IsValid (length program) t
      → pc < length program
      → contains t pc ≡ false
      → Walked (pushes program here pc ++ stack) (insert t pc) (m || is_match program pc) w
      → Walked (pc ∷ stack) t m w
  entered pc stack t m w v h e r = record {
    finished = r.finished;
    valid = r.valid;
    keeps = λ q k. r.keeps q (grown q k);
    stacked = stacked;
    closed = closed;
    sound = sound;
    match_kept = λ k. r.match_kept (ground arith);
    match_found = match_found;
    match_sound = match_sound;
  }
    where
      law : (q : ℕ) → contains (insert t pc) q ≡ (q == pc || contains t q)
      law q = contains-insert pc q v h e

      grown : (q : ℕ) → contains t q ≡ true → contains (insert t pc) q ≡ true
      grown q k = ground (arith, law q)

      not_new : (q : ℕ) → q ≢ pc → contains t q ≡ false → contains (insert t pc) q ≡ false
      not_new q other f = ground (arith, law q)

      self : contains w.list pc ≡ true
      self = r.keeps pc (ground (arith, law pc))

      stacked : (q : ℕ) → In q (pc ∷ stack) → contains w.list q ≡ true
      stacked q (inl same) = rw same self
      stacked q (inr k) = r.stacked q (In-append_right q (pushes program here pc) stack k)

      closed :
          (p : ℕ)
          → contains w.list p ≡ true
          → contains t p ≡ false
          → (q : ℕ) → In q (pushes program here p)
          → contains w.list q ≡ true
      closed p k f q i = elim (ℕ_discrete p pc) [
        | yes same ↦ r.stacked q (
            In-append_left q (pushes program here pc) stack
              (subst (λ x. In q (pushes program here x)) same i))
        | no other ↦ r.closed p k (not_new p other f) q i
      ]

      sound : (q : ℕ) → contains w.list q ≡ true → (contains t q ≡ true) ⊎ FromStack (pc ∷ stack) q
      sound q k = elim (r.sound q k) [
        | inl new ↦ elim (ℕ_discrete q pc) [
          | yes same ↦ inr (pc, inl refl, rw same start)
          | no other ↦ inl (ground (arith, law q))
        ]
        | inr (s, among, path) ↦ elim (In-append s (pushes program here pc) stack among) [
          | inl out ↦ inr (pc, inl refl, Reach-trans (follow start out) path)
          | inr old ↦ inr (s, inr old, path)
        ]
      ]

      match_found :
          (q : ℕ)
          → contains w.list q ≡ true
          → contains t q ≡ false
          → is_match program q ≡ true
          → w.matched ≡ true
      match_found q k f i = elim (ℕ_discrete q pc) [
        | yes same ↦
            let hit : is_match program pc ≡ true = rw (← same) i in r.match_kept (ground arith)
        | no other ↦ r.match_found q k (not_new q other f) i
      ]

      match_sound :
          w.matched ≡ true
          → (m ≡ true) ⊎ ((q : ℕ) × (contains w.list q ≡ true) × (is_match program q ≡ true))
      match_sound k = elim (r.match_sound k) [
        | inl either ↦ elim (Bool-cases m) [
          | inl yet ↦ inl yet
          | inr none_yet ↦ inr (pc, self, ground arith)
        ]
        | inr found ↦ inr found
      ]

  module _ (inside : StaysInside program) where
    walk_from-Walked :
        (fuel : ℕ) (stack : List ℕ) (t : ThreadList) (m : Bool)
        → IsValid (length program) t
        → All (λ q. q < length program) stack
        → length stack + 2 * missing (length program) t ≤ fuel
        → Walked stack t m (walk_from program here fuel stack t m)
    unfolding walk_from
    walk_from-Walked fuel [] t m v s h = ended t m v
    walk_from-Walked zero (pc ∷ stack) t m v s h = absurd (omega arith)
    walk_from-Walked (suc fuel) (pc ∷ stack) t m v s h = elim (Bool-cases (contains t pc)) [
      | inl e ↦
          rw (e, walk_from)
            (skipped pc stack t m _ e (walk_from-Walked fuel stack t m v s.1 (omega arith)))
      | inr e ↦
          rw (e, walk_from)
            (entered pc stack t m _ v s.0 e (
              walk_from-Walked fuel (pushes program here pc ++ stack) (insert t pc)
                (m || is_match program pc) (insert-IsValid t pc v s.0 e)
                (All-append (λ q. q < length program) (pushes program here pc) stack
                  (inside here pc) s.1)
                (omega (
                  arith,
                  length-append (pushes program here pc) stack,
                  length-pushes program here pc,
                  missing-insert (length program) (length program) pc t v s.0 e s.0,
                ))))
    ]

    -- The fuel of `add_thread` is enough, and what it adds is what `start` reaches.
    pub add_thread-Walked :
        (t : ThreadList) (pc : ℕ)
        → IsValid (length program) t
        → pc < length program
        → Walked (pc ∷ []) t false (add_thread program here t pc)
    unfolding add_thread
    add_thread-Walked t pc v h =
        walk_from-Walked (walk_fuel program) (pc ∷ []) t false v (h, tt)
          (omega (arith, missing-le (length program) t))
