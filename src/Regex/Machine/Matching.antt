-- ===== src/Regex/Machine/Matching.antt =====
-- `Regex::search` of src/core/regex.cpp against the meaning of the program as an automaton.
use mcp_cpp_sdk.Prelude.{
  ℕ, ◌+◌, ◌-◌, ◌*◌, ◌≤◌, ◌≡◌, ◌↔◌, refl, ◌⊎◌, inl, inr, Bool, true, false, ◌&&◌, List, [], ◌∷◌,
  length, Bool-cases, Option-cases, arith, Option, some, ◌==◌, Bytes,
}
use mcp_cpp_sdk.Regex.Utf8.{decode_text}
use mcp_cpp_sdk.Regex.Program.{Instruction, RegexProgram}
use mcp_cpp_sdk.Regex.ThreadList
use mcp_cpp_sdk.Regex.ThreadList.{ThreadList, contains, at}
use mcp_cpp_sdk.Regex.ThreadList.Laws.{IsValid, sized-IsValid, contains-sized}
use mcp_cpp_sdk.Regex.Machine.{
  Position, Walk, add_thread, step_char, charge, position_after, start_position, run_from,
  search_points, search,
}
use mcp_cpp_sdk.Regex.Machine.Rounds.{
  IsWellFormed, IsSettled, Hits, add_thread-contains, add_thread-Hits, add_thread-IsSettled,
  add_thread_self,
}
use mcp_cpp_sdk.Regex.Machine.Accepts.{
  hit, Finds, now, later, Hopes, Later, not-Hopes-nil, Accepts-Reach, not-Accepts-first, Stepped,
  clear-IsSettled, Later-cases, step_char-Stepped,
}

module _ (p : RegexProgram) (wf : IsWellFormed p) where
  abbrev program : List Instruction
  program = p.instructions

  Finds-Later : (here : Position) (cs : List ℕ) → Later p wf cs → Finds p here cs
  Finds-Later here [] h = absurd h
  Finds-Later here (c ∷ cs) h = later h

  not-Finds-inner :
      p.anchored ≡ true
      → {here : Position} {cs : List ℕ} → here.at_start ≡ false
      → ¬ Finds p here cs
  not-Finds-inner a {here} inner (now b) = not-Accepts-first p wf a here inner b
  not-Finds-inner a inner (later f) = not-Finds-inner a refl f

  not-Later : p.anchored ≡ true → (cs : List ℕ) → ¬ Later p wf cs
  not-Later a [] l = l
  not-Later a (c ∷ cs) l = not-Finds-inner a refl l

  contains-none : (t : ThreadList) (pc : ℕ) → (t.count == 0) ≡ true → contains t pc ≡ false
  unfolding contains
  contains-none t pc e = ground arith

  -- An answer, where there is one, is the truth of `G`.
  abbrev Answers : Option Bool × ℕ → Type 0 → Type 0
  Answers r G = (b : Bool) → r.0 ≡ some b → (b ≡ true) ↔ G

  Answers_true : (left : ℕ) (G : Type 0) → G → Answers (some true, left) G
  Answers_true left G g b e = (λ _. g, λ _. cc)

  Answers_false : (left : ℕ) (G : Type 0) → ¬ G → Answers (some false, left) G
  Answers_false left G g b e = (λ k. cc, λ h. absurd (g h))

  run_from-Answers :
      (here : Position) (cs : List ℕ) (current next : ThreadList) (steps_left : ℕ)
      → IsSettled program here current
      → IsValid (length program) next
      → Answers (run_from p cs current next steps_left) (Hopes p wf here cs current ⊎ Later p wf cs)
  unfolding run_from
  run_from-Answers here [] current next steps_left v w = Answers_false steps_left _ nothing
    where
      nothing : ¬ (Hopes p wf here [] current ⊎ ⊥)
      nothing (inl h) = not-Hopes-nil p wf here current v h
      nothing (inr f) = f
  run_from-Answers here (c ∷ cs) current next steps_left v w =
      elim (Option-cases (charge (current.count + 1) steps_left)) [
        | inl e ↦ rw (e, run_from) (λ b k. cc)
        | inr (left, e) ↦ elim (Bool-cases round.1) [
          | inl m ↦ rw (e, m, run_from) (Answers_true left _ (stepped.found m))
          | inr m ↦ elim (Bool-cases (p.anchored && round.0.count == 0)) [
            | inl stop ↦ rw (e, m, stop, run_from) (Answers_false left _ (none_left m stop))
            | inr on ↦
                rw (e, m, on, run_from)
                  (λ b k.
                    let rest =
                      run_from-Answers (position_after c cs) cs round.0 current left
                        (stepped.settled m) v.valid b k in
                    (λ t. stepped.back m (rest.0 t), λ g. rest.1 (stepped.forth m g)))
          ]
        ]
      ]
    where
      round : ThreadList × Bool
      round = step_char p c (position_after c cs) current next

      stepped : Stepped p wf here c cs current round
      stepped = step_char-Stepped p wf here c cs current next v w

      none_left :
          round.1 ≡ false
          → (p.anchored && round.0.count == 0) ≡ true
          → ¬ (Hopes p wf here (c ∷ cs) current ⊎ Later p wf (c ∷ cs))
      none_left m stop g = elim (stepped.forth m g) [
        | inl (pc, among, a) ↦ cc (contains-none round.0 pc (ground arith), among)
        | inr l ↦ not-Later (ground arith) cs l
      ]

  charge_enough :
      (steps steps_left : ℕ)
      → steps ≤ steps_left
      → charge steps steps_left ≡ some (steps_left - steps)
  unfolding charge
  charge_enough steps steps_left h = ground arith

  count-le : (t : ThreadList) → IsValid (length program) t → t.count ≤ length program
  count-le t v = omega (arith, v.counted)

  -- Each position costs at most one step more than the program has instructions.
  run_from-IsSome :
      (here : Position) (cs : List ℕ) (current next : ThreadList) (steps_left : ℕ)
      → IsSettled program here current
      → IsValid (length program) next
      → length cs * (length program + 1) ≤ steps_left
      → (b : Bool) × ((run_from p cs current next steps_left).0 ≡ some b)
  unfolding run_from
  run_from-IsSome here [] current next steps_left v w h = (false, refl)
  run_from-IsSome here (c ∷ cs) current next steps_left v w h =
      rw (charge_enough (current.count + 1) steps_left enough, run_from)
        (elim (Bool-cases round.1) [
          | inl m ↦ rw (m, run_from) (true, refl)
          | inr m ↦ elim (Bool-cases (p.anchored && round.0.count == 0)) [
            | inl stop ↦ rw (m, stop, run_from) (false, refl)
            | inr on ↦
                rw (m, on, run_from)
                  (run_from-IsSome (position_after c cs) cs round.0 current
                    (steps_left - (current.count + 1)) (stepped.settled m) v.valid rest_enough)
          ]
        ])
    where
      round : ThreadList × Bool
      round = step_char p c (position_after c cs) current next

      stepped : Stepped p wf here c cs current round
      stepped = step_char-Stepped p wf here c cs current next v w

      total : length program + 1 + length cs * (length program + 1) ≤ steps_left
      total = grind arith

      enough : current.count + 1 ≤ steps_left
      enough = omega (arith, count-le current v.valid, total)

      rest_enough : length cs * (length program + 1) ≤ steps_left - (current.count + 1)
      rest_enough = omega (arith, count-le current v.valid, total)

  sized-IsSettled : (here : Position) → IsSettled program here (ThreadList.sized (length program))
  unfolding ThreadList.sized ThreadList.clear
  sized-IsSettled here =
      clear-IsSettled p wf here (ThreadList.sized (length program)) (sized-IsValid (length program))

  module _ (input : List ℕ) (steps_left : ℕ) where
    first_walk : Walk
    first_walk = add_thread program (start_position input) (ThreadList.sized (length program)) 0

    search_points-Answers :
        Answers (search_points p input steps_left) (Finds p (start_position input) input)
    unfolding search_points first_walk
    search_points-Answers = elim (Option-cases (charge (length program) steps_left)) [
      | inl e ↦ rw (e, search_points) (λ b k. cc)
      | inr (left, e) ↦ elim (Bool-cases first_walk.matched) [
        | inl m ↦ rw (e, m, search_points) (Answers_true left _ (now (hit (hits m))))
        | inr m ↦
            rw (e, m, search_points)
              (λ b k.
                let rest =
                  run_from-Answers here input first_walk.list (ThreadList.sized (length program))
                    left (settled m) (sized-IsValid (length program)) b k in
                (λ t. back (rest.0 t), λ f. rest.1 (forth f)))
      ]
    ]
      where
        here : Position
        here = start_position input

        empty : IsSettled program here (ThreadList.sized (length program))
        empty = sized-IsSettled here

        hits : first_walk.matched ≡ true → Hits program here 0
        hits m = add_thread-Hits program here wf.inside _ empty 0 wf.nonempty m

        settled : first_walk.matched ≡ false → IsSettled program here first_walk.list
        settled m = add_thread-IsSettled program here wf.inside _ empty 0 wf.nonempty m

        forth : Finds p here input → Hopes p wf here input first_walk.list ⊎ Later p wf input
        forth f = elim (Later-cases p wf here input f) [
          | inl a ↦ inl (0, add_thread_self program here wf.inside _ empty 0 wf.nonempty, a)
          | inr l ↦ inr l
        ]

        back : Hopes p wf here input first_walk.list ⊎ Later p wf input → Finds p here input
        back (inl (q, m, a)) =
            elim (add_thread-contains program here wf.inside _ empty 0 wf.nonempty q m) [
              | inl old ↦ cc (contains-sized (length program) q, old)
              | inr path ↦ now (Accepts-Reach p wf path a)
            ]
        back (inr l) = Finds-Later here input l

    search_points-IsSome :
        length program + length input * (length program + 1) ≤ steps_left
        → (b : Bool) × ((search_points p input steps_left).0 ≡ some b)
    unfolding search_points first_walk
    search_points-IsSome h =
        rw (charge_enough (length program) steps_left (omega arith), search_points)
          (elim (Bool-cases first_walk.matched) [
            | inl m ↦ rw (m, search_points) (true, refl)
            | inr m ↦
                rw (m, search_points)
                  (run_from-IsSome (start_position input) input first_walk.list
                    (ThreadList.sized (length program)) (steps_left - length program)
                    (add_thread-IsSettled program (start_position input) wf.inside _
                      (sized-IsSettled (start_position input)) 0 wf.nonempty m)
                    (sized-IsValid (length program)) (omega arith))
          ])

-- The answer of a search, when it has one, is right: for a program whose counters stay inside it, the
-- answer is `true` exactly if some run of the program matches at some position of the input.
pub search-Finds :
    (p : RegexProgram) (input : Bytes) (steps_left : ℕ) (b : Bool)
    → IsWellFormed p
    → (search p input steps_left).0 ≡ some b
    → (b ≡ true) ↔ Finds p (start_position (decode_text input)) (decode_text input)
unfolding search
search-Finds p input steps_left b wf e =
    search_points-Answers p wf (decode_text input) steps_left b e

-- A budget of the program's size, and of one step more than that for each code point, is always
-- enough for an answer.
pub search-IsSome :
    (p : RegexProgram) (input : Bytes) (steps_left : ℕ)
    → IsWellFormed p
    → length p.instructions + length (decode_text input) * (length p.instructions + 1) ≤ steps_left
    → (b : Bool) × ((search p input steps_left).0 ≡ some b)
unfolding search
search-IsSome p input steps_left wf h = search_points-IsSome p wf (decode_text input) steps_left h
