-- ===== src/Regex/Machine/Accepts.antt =====
-- The steps of an automaton that a program of src/core/regex.cpp is, and what one round of its
-- simulation keeps of them.
use mcp_cpp_sdk.Prelude.{
  ℕ, ◌+◌, ◌≡◌, refl, sym, subst, ◌⊎◌, inl, inr, Bool, true, false, List, [], ◌∷◌, length,
  Bool-cases, arith,
}
use mcp_cpp_sdk.Regex.Program.{Instruction, RegexProgram}
use mcp_cpp_sdk.Regex.ThreadList
use mcp_cpp_sdk.Regex.ThreadList.{ThreadList, contains, at}
use mcp_cpp_sdk.Regex.ThreadList.Laws.{IsValid, clear-IsValid, contains-clear, contains_slot}
use mcp_cpp_sdk.Regex.Machine.{
  Position, pushes, is_match, Walk, add_thread, consumes, consume_from, step_char, position_after,
}
use mcp_cpp_sdk.Regex.Machine.Closure.{In, Reach, start, follow, Reach-trans}
use mcp_cpp_sdk.Regex.Machine.Rounds.{
  IsWellFormed, IsSettled, Reach-closed, Hits, add_thread-contains, add_thread-Hits,
  add_thread-IsSettled, add_thread-keeps, add_thread_self, Consumed, consume_from-Consumed,
}

-- A run of the program from `pc` to a match, on a prefix of the input that is left.
pub data Accepts (p : RegexProgram) : Position → List ℕ → ℕ → Type 0 where
  hit :
      {here : Position} {cs : List ℕ} {pc : ℕ} → Hits p.instructions here pc → Accepts p here cs pc
  eat :
      {here : Position} {c : ℕ} {cs : List ℕ} {pc : ℕ} (q : ℕ)
      → Reach p.instructions here pc q
      → consumes p q c ≡ true
      → Accepts p (position_after c cs) cs (q + 1)
      → Accepts p here (c ∷ cs) pc

-- A run from the start of the program, at this position or a later one.
pub data Finds (p : RegexProgram) : Position → List ℕ → Type 0 where
  now : {here : Position} {cs : List ℕ} → Accepts p here cs 0 → Finds p here cs
  later :
      {here : Position} {c : ℕ} {cs : List ℕ}
      → Finds p (position_after c cs) cs
      → Finds p here (c ∷ cs)

module _ (p : RegexProgram) (wf : IsWellFormed p) where
  abbrev program : List Instruction
  program = p.instructions

  -- A thread of the list leads to a match.
  abbrev pub Hopes : Position → List ℕ → ThreadList → Type 0
  Hopes here cs t = (pc : ℕ) × (contains t pc ≡ true) × Accepts p here cs pc

  abbrev pub Later : List ℕ → Type 0
  Later [] = ⊥
  Later (c ∷ cs) = Finds p (position_after c cs) cs

  Accepts-nil : {here : Position} {pc : ℕ} → Accepts p here [] pc → Hits program here pc
  Accepts-nil (hit h) = h

  pub not-Hopes-nil :
      (here : Position) (t : ThreadList) → IsSettled program here t → ¬ Hopes here [] t
  not-Hopes-nil here t v (pc, m, a) =
      let (q, path, h) = Accepts-nil a in
      cc (v.matchless q (Reach-closed program here t v m path), h)

  -- A settled thread can only go on by a code point.
  eaten_of_Accepts :
      (here : Position) (c : ℕ) (cs : List ℕ) (t : ThreadList) (pc : ℕ)
      → IsSettled program here t
      → contains t pc ≡ true
      → Accepts p here (c ∷ cs) pc
      → (q : ℕ) × (contains t q ≡ true)
        × (consumes p q c ≡ true)
        × Accepts p (position_after c cs) cs (q + 1)
  eaten_of_Accepts here c cs t pc v m (hit (q, path, h)) =
      cc (v.matchless q (Reach-closed program here t v m path), h)
  eaten_of_Accepts here c cs t pc v m (eat q path e a) =
      (q, Reach-closed program here t v m path, e, a)

  pub Accepts-Reach :
      {here : Position} {cs : List ℕ} {s q : ℕ}
      → Reach program here s q
      → Accepts p here cs q
      → Accepts p here cs s
  Accepts-Reach path (hit (r, more, h)) = hit (r, Reach-trans program _ path more, h)
  Accepts-Reach path (eat r more e a) = eat r (Reach-trans program _ path more) e a

  -- The first instruction of an anchored program, away from the start of the input.
  module _ (anchored : p.anchored ≡ true) (here : Position) (inner : here.at_start ≡ false) where
    first_pushes : pushes program here 0 ≡ []
    unfolding pushes
    first_pushes =
        let (i, at_zero, op) = wf.anchor anchored in rw (at_zero, pushes) (rw op (rw inner refl))

    first_not_match : is_match program 0 ≡ false
    unfolding is_match
    first_not_match =
        let (i, at_zero, op) = wf.anchor anchored in rw (at_zero, is_match) (rw op refl)

    first_not_consumes : (c : ℕ) → consumes p 0 c ≡ false
    unfolding consumes
    first_not_consumes c =
        let (i, at_zero, op) = wf.anchor anchored in rw (at_zero, consumes) (rw op refl)

    dead_end : (q r : ℕ) → q ≡ 0 → In r (pushes program here q) → ⊥
    dead_end q r e k = subst (In r) first_pushes (subst (λ x. In r (pushes program here x)) e k)

    Reach-zero : {q : ℕ} → Reach program here 0 q → q ≡ 0
    Reach-zero start = refl
    Reach-zero (follow {q = q} {r = r} a k) = absurd (dead_end q r (Reach-zero a) k)

    not-Hits-first : ¬ Hits program here 0
    not-Hits-first (q, path, h) =
        cc (first_not_match, subst (λ x. is_match program x ≡ true) (Reach-zero path) h)

    pub not-Accepts-first : {cs : List ℕ} → ¬ Accepts p here cs 0
    not-Accepts-first (hit h) = not-Hits-first h
    not-Accepts-first (eat {c = c} q path e a) =
        cc (first_not_consumes c, subst (λ x. consumes p x c ≡ true) (Reach-zero path) e)

  -- What a round leaves: it finds a match, or the threads that can still reach one.
  pub record Stepped (here : Position) (c : ℕ) (cs : List ℕ) (current : ThreadList)
      (r : ThreadList × Bool) : Type 0 where
    pub found : r.1 ≡ true → Hopes here (c ∷ cs) current ⊎ Later (c ∷ cs)
    pub settled : r.1 ≡ false → IsSettled program (position_after c cs) r.0
    pub forth :
        r.1 ≡ false
        → Hopes here (c ∷ cs) current ⊎ Later (c ∷ cs)
        → Hopes (position_after c cs) cs r.0 ⊎ Later cs
    pub back :
        r.1 ≡ false
        → Hopes (position_after c cs) cs r.0 ⊎ Later cs
        → Hopes here (c ∷ cs) current ⊎ Later (c ∷ cs)

  pub clear-IsSettled :
      (here : Position) (t : ThreadList)
      → IsValid (length program) t
      → IsSettled program here (ThreadList.clear t)
  clear-IsSettled here t v = record {
    valid = clear-IsValid t v;
    closed = λ a b k i. cc (contains-clear t a, k);
    matchless = λ q k. cc (contains-clear t q, k);
  }

  Later-step : (here : Position) (c : ℕ) (cs : List ℕ) → Later cs → Later (c ∷ cs)
  Later-step here c [] h = absurd h
  Later-step here c (d ∷ cs) h = later h

  pub Later-cases :
      (here : Position) (cs : List ℕ) → Finds p here cs → Accepts p here cs 0 ⊎ Later cs
  Later-cases here cs (now a) = inl a
  Later-cases here cs (later f) = inr f

  -- The loop over the threads, in the terms of `Stepped`.
  module _ (here : Position) (c : ℕ) (cs : List ℕ) (current next : ThreadList)
      (v : IsSettled program here current) (w : IsValid (length program) next) where
    after : Position
    after = position_after c cs

    eaten : ThreadList × Bool
    eaten = consume_from p c (position_after c cs) current current.count 0 (ThreadList.clear next)

    consumed : Consumed p c (position_after c cs) current 0 (ThreadList.clear next) eaten
    unfolding eaten
    consumed =
        consume_from-Consumed p c (position_after c cs) current wf (length program) v.valid
          current.count 0 (ThreadList.clear next) (omega arith)
          (clear-IsSettled (position_after c cs) next w)

    found_eaten : eaten.1 ≡ true → Hopes here (c ∷ cs) current
    found_eaten e = let (pc, m, eats, h) = consumed.hit e in (pc, m, eat pc start eats (hit h))

    forth_eaten :
        eaten.1 ≡ false → Hopes here (c ∷ cs) current → Hopes (position_after c cs) cs eaten.0
    forth_eaten e (pc, m, a) =
        let (q, among, eats, b) = eaten_of_Accepts here c cs current pc v m a in
        let (j, used, holds) = contains_slot current q among in
        (
          q + 1,
          subst (λ x. contains eaten.0 (x + 1) ≡ true) holds
              (consumed.eaten e j (omega arith) used
                (subst (λ x. consumes p x c ≡ true) (sym holds) eats)),
          b,
        )

    back_eaten :
        eaten.1 ≡ false → Hopes (position_after c cs) cs eaten.0 → Hopes here (c ∷ cs) current
    back_eaten e (q, m, a) = elim (consumed.from e q m) [
      | inl cleared ↦ cc (contains-clear next q, cleared)
      | inr (pc, among, eats, path) ↦ (pc, among, eat pc start eats (Accepts-Reach path a))
    ]

    -- What an anchored round leaves.
    anchored_round :
        p.anchored ≡ true → eaten.1 ≡ false → Stepped here c cs current (eaten.0, false)
    anchored_round anchored e = record {
      found = λ k. cc;
      settled = λ k. consumed.settled e;
      forth = λ k. forth;
      back = λ k. back;
    }
      where
        forth :
            Hopes here (c ∷ cs) current ⊎ Later (c ∷ cs)
            → Hopes (position_after c cs) cs eaten.0 ⊎ Later cs
        forth (inl h) = inl (forth_eaten e h)
        forth (inr f) = elim (Later-cases (position_after c cs) cs f) [
          | inl a ↦ absurd (not-Accepts-first anchored (position_after c cs) refl a)
          | inr l ↦ inr l
        ]

        back :
            Hopes (position_after c cs) cs eaten.0 ⊎ Later cs
            → Hopes here (c ∷ cs) current ⊎ Later (c ∷ cs)
        back (inl h) = inl (back_eaten e h)
        back (inr l) = inr (Later-step here c cs l)

    -- The thread that starts at the next position.
    restarted : Walk
    restarted = add_thread program (position_after c cs) eaten.0 0

    -- What an unanchored round leaves.
    unanchored_round :
        eaten.1 ≡ false → Stepped here c cs current (restarted.list, restarted.matched)
    unfolding restarted
    unanchored_round e = record {
      found = λ k.
          inr
            (now (hit (add_thread-Hits program next_position wf.inside eaten.0 s 0 wf.nonempty k)));
      settled = λ k. add_thread-IsSettled program next_position wf.inside eaten.0 s 0 wf.nonempty k;
      forth = λ k. forth;
      back = λ k. back;
    }
      where
        next_position : Position
        next_position = position_after c cs

        s : IsSettled program (position_after c cs) eaten.0
        s = consumed.settled e

        forth :
            Hopes here (c ∷ cs) current ⊎ Later (c ∷ cs)
            → Hopes (position_after c cs) cs restarted.list ⊎ Later cs
        forth (inl h) =
            let (q, m, a) = forth_eaten e h in
            inl (q, add_thread-keeps program next_position wf.inside eaten.0 s 0 wf.nonempty q m, a)
        forth (inr f) = elim (Later-cases (position_after c cs) cs f) [
          | inl a ↦
              inl (0, add_thread_self program next_position wf.inside eaten.0 s 0 wf.nonempty, a)
          | inr l ↦ inr l
        ]

        back :
            Hopes (position_after c cs) cs restarted.list ⊎ Later cs
            → Hopes here (c ∷ cs) current ⊎ Later (c ∷ cs)
        back (inr l) = inr (Later-step here c cs l)
        back (inl (q, m, a)) =
            elim (add_thread-contains program next_position wf.inside eaten.0 s 0 wf.nonempty q m) [
              | inl old ↦ inl (back_eaten e (q, old, a))
              | inr path ↦ inr (now (Accepts-Reach path a))
            ]

    pub step_char-Stepped :
        Stepped here c cs current (step_char p c (position_after c cs) current next)
    unfolding step_char eaten restarted
    step_char-Stepped = elim (Bool-cases eaten.1) [
      | inl e ↦
          rw (e, step_char)
            (record {
              found = λ k. inl (found_eaten e);
              settled = λ k. cc;
              forth = λ k. cc;
              back = λ k. cc;
            })
      | inr e ↦ elim (Bool-cases p.anchored) [
        | inl a ↦ rw (e, a, step_char) (anchored_round a e)
        | inr a ↦ rw (e, a, step_char) (unanchored_round e)
      ]
    ]
