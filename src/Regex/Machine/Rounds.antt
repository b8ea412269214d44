-- ===== src/Regex/Machine/Rounds.antt =====
-- One round of `Regex::search` of src/core/regex.cpp: the threads behind one code point.
use mcp_cpp_sdk.Prelude.{
  ℕ, zero, suc, ◌+◌, ◌≤◌, ◌<◌, ◌≡◌, refl, subst, ◌⊎◌, inl, inr, Bool, true, false, List, [], ◌∷◌,
  length, Bool-cases, arith, some, get_elem?,
}
use native.Mathlib.Decide.{ℕ_discrete}
use mcp_cpp_sdk.Regex.Program.{Instruction, RegexProgram, input_start}
use mcp_cpp_sdk.Regex.ThreadList.{ThreadList, contains, at}
use mcp_cpp_sdk.Regex.ThreadList.Laws.{IsValid, contains-at}
use mcp_cpp_sdk.Regex.Machine.{Position, pushes, is_match, add_thread, consumes, consume_from}
use mcp_cpp_sdk.Regex.Machine.Closure.{
  In, Reach, start, follow, StaysInside, Walked, add_thread-Walked,
}

-- A program whose counters stay inside it. Anchored means that it begins with `^`.
pub record IsWellFormed (p : RegexProgram) : Type 0 where
  pub inside : StaysInside p.instructions
  pub eats_inside : (pc c : ℕ) → consumes p pc c ≡ true → pc + 1 < length p.instructions
  pub nonempty : 0 < length p.instructions
  pub anchor :
      p.anchored ≡ true
      → (i : Instruction) × (get_elem? p.instructions 0 ≡ some i) × (i.op ≡ input_start)

-- Closed under zero-width steps, and no member matches.
pub record IsSettled (program : List Instruction) (here : Position) (t : ThreadList) : Type 0 where
  pub valid : IsValid (length program) t
  pub closed : (p q : ℕ) → contains t p ≡ true → In q (pushes program here p) → contains t q ≡ true
  pub matchless : (q : ℕ) → contains t q ≡ true → is_match program q ≡ false

pub Reach-closed :
    (program : List Instruction) (here : Position) (t : ThreadList)
    → IsSettled program here t
    → {p q : ℕ} → contains t p ≡ true
    → Reach program here p q
    → contains t q ≡ true
Reach-closed program here t v h start = h
Reach-closed program here t v h (follow {q = q} {r = r} a k) =
    v.closed q r (Reach-closed program here t v h a) k

-- Where a match is reached.
abbrev pub Hits : List Instruction → Position → ℕ → Type 0
Hits program here s = (q : ℕ) × Reach program here s q × (is_match program q ≡ true)

module _ (program : List Instruction) (here : Position) (inside : StaysInside program) where
  module _ (t : ThreadList) (v : IsSettled program here t) (s : ℕ) (fits : s < length program) where
    walked : Walked program here (s ∷ []) t false (add_thread program here t s)
    walked = add_thread-Walked program here inside t s v.valid fits

    pub add_thread-contains :
        (q : ℕ)
        → contains (add_thread program here t s).list q ≡ true
        → (contains t q ≡ true) ⊎ Reach program here s q
    add_thread-contains q h = elim (walked.sound q h) [
      | inl old ↦ inl old
      | inr (x, inl same, path) ↦ inr (subst (λ y. Reach program here y q) same path)
      | inr (x, inr none_other, path) ↦ absurd none_other
    ]

    pub add_thread-Hits : (add_thread program here t s).matched ≡ true → Hits program here s
    add_thread-Hits h = elim (walked.match_sound h) [
      | inl never ↦ cc
      | inr (q, among, hit) ↦ elim (add_thread-contains q among) [
        | inl old ↦ cc (v.matchless q old, hit)
        | inr path ↦ (q, path, hit)
      ]
    ]

    pub add_thread-IsSettled :
        (add_thread program here t s).matched ≡ false
        → IsSettled program here (add_thread program here t s).list
    add_thread-IsSettled h = record { valid = walked.valid; closed = closed; matchless = matchless }
      where
        closed :
            (p q : ℕ)
            → contains (add_thread program here t s).list p ≡ true
            → In q (pushes program here p)
            → contains (add_thread program here t s).list q ≡ true
        closed p q k i = elim (Bool-cases (contains t p)) [
          | inl old ↦ walked.keeps q (v.closed p q old i)
          | inr new ↦ walked.closed p k new q i
        ]

        matchless :
            (q : ℕ)
            → contains (add_thread program here t s).list q ≡ true
            → is_match program q ≡ false
        matchless q k = elim (Bool-cases (contains t q)) [
          | inl old ↦ v.matchless q old
          | inr new ↦ elim (Bool-cases (is_match program q)) [
            | inl hit ↦ cc (walked.match_found q k new hit, h)
            | inr miss ↦ miss
          ]
        ]

    pub add_thread-keeps :
        (q : ℕ) → contains t q ≡ true → contains (add_thread program here t s).list q ≡ true
    add_thread-keeps = walked.keeps

    pub add_thread_self : contains (add_thread program here t s).list s ≡ true
    add_thread_self = walked.stacked s (inl refl)

module _ (p : RegexProgram) (c : ℕ) (after : Position) (current : ThreadList) where
  abbrev pub Sources : (ℕ → Type 0) → Type 0
  Sources P = (pc : ℕ) × (contains current pc ≡ true) × (consumes p pc c ≡ true) × P (pc + 1)

  -- What the loop over the threads from index `i` on leaves, when it starts with the list `next`.
  pub record Consumed (i : ℕ) (next : ThreadList) (r : ThreadList × Bool) : Type 0 where
    pub hit : r.1 ≡ true → Sources (Hits p.instructions after)
    pub settled : r.1 ≡ false → IsSettled p.instructions after r.0
    pub keeps : r.1 ≡ false → (q : ℕ) → contains next q ≡ true → contains r.0 q ≡ true
    pub from :
        r.1 ≡ false
        → (q : ℕ) → contains r.0 q ≡ true
        → (contains next q ≡ true) ⊎ Sources (λ s. Reach p.instructions after s q)
    pub eaten :
        r.1 ≡ false
        → (j : ℕ) → i ≤ j
        → j < current.count
        → consumes p (at current j) c ≡ true
        → contains r.0 (at current j + 1) ≡ true

  module _ (wf : IsWellFormed p) (size : ℕ) (valid : IsValid size current) where
    skipped :
        (i : ℕ) (next : ThreadList) (r : ThreadList × Bool)
        → consumes p (at current i) c ≡ false
        → Consumed (i + 1) next r
        → Consumed i next r
    skipped i next r e h = record {
      hit = h.hit;
      settled = h.settled;
      keeps = h.keeps;
      from = h.from;
      eaten = λ d j k l eats. elim (ℕ_discrete i j) [
        | yes same ↦ cc (e, eats, same)
        | no other ↦ h.eaten d j (omega arith) l eats
      ];
    }

    stepped :
        (i : ℕ) (next : ThreadList) (r : ThreadList × Bool)
        → i < current.count
        → consumes p (at current i) c ≡ true
        → IsSettled p.instructions after next
        → (add_thread p.instructions after next (at current i + 1)).matched ≡ false
        → Consumed (i + 1) (add_thread p.instructions after next (at current i + 1)).list r
        → Consumed i next r
    stepped i next r k e v miss h = record {
      hit = h.hit;
      settled = h.settled;
      keeps = λ d q old. h.keeps d q (add_thread-keeps program after wf.inside next v s fits q old);
      from = from;
      eaten = eaten;
    }
      where
        program : List Instruction
        program = p.instructions

        s : ℕ
        s = at current i + 1

        fits : s < length program
        fits = wf.eats_inside (at current i) c e

        from :
            r.1 ≡ false
            → (q : ℕ) → contains r.0 q ≡ true
            → (contains next q ≡ true) ⊎ Sources (λ x. Reach p.instructions after x q)
        from d q l = elim (h.from d q l) [
          | inl added ↦ elim (add_thread-contains program after wf.inside next v s fits q added) [
            | inl old ↦ inl old
            | inr path ↦ inr (at current i, contains-at current i valid k, e, path)
          ]
          | inr later ↦ inr later
        ]

        eaten :
            r.1 ≡ false
            → (j : ℕ) → i ≤ j
            → j < current.count
            → consumes p (at current j) c ≡ true
            → contains r.0 (at current j + 1) ≡ true
        eaten d j a b eats = elim (ℕ_discrete i j) [
          | yes same ↦
              rw (← same) (h.keeps d s (add_thread_self program after wf.inside next v s fits))
          | no other ↦ h.eaten d j (omega arith) b eats
        ]

    pub consume_from-Consumed :
        (left i : ℕ) (next : ThreadList)
        → i + left ≡ current.count
        → IsSettled p.instructions after next
        → Consumed i next (consume_from p c after current left i next)
    unfolding consume_from
    consume_from-Consumed zero i next h v = record {
      hit = λ e. cc;
      settled = λ e. v;
      keeps = λ e q k. k;
      from = λ e q k. inl k;
      eaten = λ e j a b eats. absurd (omega arith);
    }
    consume_from-Consumed (suc left) i next h v = elim (Bool-cases (consumes p (at current i) c)) [
      | inr e ↦
          rw (e, consume_from)
            (skipped i next _ e (consume_from-Consumed left (i + 1) next (omega arith) v))
      | inl e ↦
          elim (Bool-cases (add_thread p.instructions after next (at current i + 1)).matched) [
            | inl hit ↦
                rw (e, hit, consume_from)
                  (record {
                    hit = λ d. (
                      at current i,
                      contains-at current i valid (omega arith),
                      e,
                      add_thread-Hits p.instructions after wf.inside next v (at current i + 1)
                          (wf.eats_inside (at current i) c e) hit,
                    );
                    settled = λ d. cc;
                    keeps = λ d. cc;
                    from = λ d. cc;
                    eaten = λ d. cc;
                  })
            | inr miss ↦
                rw (e, miss, consume_from)
                  (stepped i next _ (omega arith) e v miss (
                    consume_from-Consumed left (i + 1) _ (omega arith) (
                      add_thread-IsSettled p.instructions after wf.inside next v (at current i + 1)
                        (wf.eats_inside (at current i) c e) miss)))
          ]
    ]
