-- ===== src/Regex/ThreadList/Laws.antt =====
-- The sparse set implements a set of program counters below its size.
use mcp_cpp_sdk.Prelude.{
  ℕ, zero, suc, ◌+◌, ◌≤◌, ◌<◌, ◌≡◌, ◌≢◌, refl, sym, ◌∙◌, inl, inr, true, false, ◌&&◌, ◌||◌, ltb,
  ◌==◌, if◌then◌else◌, get_or, set, length, length-set, length-replicate, get_or-set_self,
  get_or-set_ne, Bool-cases, arith,
}
use native.Mathlib.Decide.{ℕ_discrete}
use mcp_cpp_sdk.Regex.ThreadList.{ThreadList, sized, contains, insert, clear, at}

-- How many program counters below `n` the list lacks.
pub missing : ℕ → ThreadList → ℕ
missing zero t = 0
missing (suc n) t = (if contains t n then 0 else 1) + missing n t

pub record IsValid (size : ℕ) (t : ThreadList) : Type 0 where
  pub dense_size : length t.dense ≡ size
  pub sparse_size : length t.sparse ≡ size
  -- every slot in use points back at itself
  pub linked : (i : ℕ) → i < t.count → (at t i < size) × (get_or t.sparse (at t i) 0 ≡ i)
  pub counted : t.count + missing size t ≡ size

pub contains-clear : (t : ThreadList) (pc : ℕ) → contains (clear t) pc ≡ false
unfolding contains clear
contains-clear t pc = ground arith

pub contains-sized : (size pc : ℕ) → contains (sized size) pc ≡ false
unfolding contains sized
contains-sized size pc = ground arith

missing-clear : (n : ℕ) (t : ThreadList) → missing n (clear t) ≡ n
unfolding missing
missing-clear zero t = refl
missing-clear (suc n) t = rw (contains-clear t n) (omega (arith, missing-clear n t))

missing_pos : (n pc : ℕ) (t : ThreadList) → pc < n → contains t pc ≡ false → 0 < missing n t
unfolding missing
missing_pos zero pc t h e = elim h [ ]
missing_pos (suc n) pc t h e = elim (Bool-cases (pc == n)) [
  | inl same ↦ ground arith
  | inr other ↦ ground (arith, missing_pos n pc t)
]

count-lt :
    {size : ℕ} {t : ThreadList} (pc : ℕ)
    → IsValid size t
    → pc < size
    → contains t pc ≡ false
    → t.count < size
count-lt {size} {t} pc v h e = omega (arith, missing_pos size pc t h e, v.counted)

-- After an insertion exactly the new counter and the old ones are members.
pub contains-insert :
    {size : ℕ} {t : ThreadList} (pc q : ℕ)
    → IsValid size t
    → pc < size
    → contains t pc ≡ false
    → contains (insert t pc) q ≡ (q == pc || contains t q)
unfolding contains insert
contains-insert {size} {t} pc q v h e = elim (ℕ_discrete q pc) [
  | yes same ↦ rw (same, get_or-set_self t.sparse pc t.count 0 pc_fits, written) (ground arith)
  | no other ↦ rw (get_or-set_ne t.sparse pc q t.count 0 (λ p. other (sym p))) (elsewhere other)
]
  where
    pc_fits : pc < length t.sparse
    pc_fits = omega (arith, v.sparse_size)

    written : get_or (set t.dense t.count pc) t.count 0 ≡ pc
    written = get_or-set_self t.dense t.count pc 0 (omega (arith, count-lt pc v h e, v.dense_size))

    elsewhere :
        q ≢ pc
        → (ltb (get_or t.sparse q 0) (t.count + 1)
            && get_or (set t.dense t.count pc) (get_or t.sparse q 0) 0 == q)
          ≡ (q == pc || contains t q)
    elsewhere other = elim (ℕ_discrete (get_or t.sparse q 0) t.count) [
      | yes fresh ↦ rw (fresh, written) (ground arith)
      | no old ↦
          rw (get_or-set_ne t.dense t.count (get_or t.sparse q 0) pc 0 (λ p. old (sym p)))
            (ground arith)
    ]

missing-insert_above :
    (size n pc : ℕ) (t : ThreadList)
    → IsValid size t
    → pc < size
    → contains t pc ≡ false
    → n ≤ pc
    → missing n (insert t pc) ≡ missing n t
unfolding missing
missing-insert_above size zero pc t v h e k = refl
missing-insert_above size (suc n) pc t v h e k = ground (
  arith,
  contains-insert {size = size} {t = t} pc n v h e,
  missing-insert_above size n pc t v h e,
)

pub missing-insert :
    (size n pc : ℕ) (t : ThreadList)
    → IsValid size t
    → pc < size
    → contains t pc ≡ false
    → pc < n
    → missing n (insert t pc) + 1 ≡ missing n t
unfolding missing
missing-insert size zero pc t v h e k = elim k [ ]
missing-insert size (suc n) pc t v h e k = elim (ℕ_discrete pc n) [
  | yes same ↦ ground (
    arith,
    contains-insert {size = size} {t = t} pc n v h e,
    missing-insert_above size n pc t v h e,
  )
  | no other ↦
      ground
        (arith, contains-insert {size = size} {t = t} pc n v h e, missing-insert size n pc t v h e)
]

pub sized-IsValid : (size : ℕ) → IsValid size (sized size)
unfolding sized clear
sized-IsValid size = record {
  dense_size = length-replicate size 0;
  sparse_size = length-replicate size 0;
  linked = λ i h. elim h [ ];
  counted = omega (arith, missing-clear size (sized size));
}

pub clear-IsValid : {size : ℕ} (t : ThreadList) → IsValid size t → IsValid size (clear t)
unfolding clear
clear-IsValid {size} t v = record {
  dense_size = v.dense_size;
  sparse_size = v.sparse_size;
  linked = λ i h. elim h [ ];
  counted = omega (arith, missing-clear size t);
}

-- A slot in use holds a member.
pub contains-at :
    {size : ℕ} (t : ThreadList) (i : ℕ) → IsValid size t → i < t.count → contains t (at t i) ≡ true
unfolding contains at
contains-at t i v h = rw (v.linked i h).1 (ground arith)

pub insert-IsValid :
    {size : ℕ} (t : ThreadList) (pc : ℕ)
    → IsValid size t
    → pc < size
    → contains t pc ≡ false
    → IsValid size (insert t pc)
unfolding insert at
insert-IsValid {size} t pc v h e = record {
  dense_size = length-set t.dense t.count pc ∙ v.dense_size;
  sparse_size = length-set t.sparse pc t.count ∙ v.sparse_size;
  linked = linked;
  counted = omega (arith, missing-insert size size pc t v h e h, v.counted);
}
  where
    pc_slot : get_or (set t.sparse pc t.count) pc 0 ≡ t.count
    pc_slot = get_or-set_self t.sparse pc t.count 0 (omega (arith, v.sparse_size))

    written : get_or (set t.dense t.count pc) t.count 0 ≡ pc
    written = get_or-set_self t.dense t.count pc 0 (omega (arith, count-lt pc v h e, v.dense_size))

    old_slot : (i : ℕ) → i < t.count → get_or (set t.dense t.count pc) i 0 ≡ get_or t.dense i 0
    old_slot i k = get_or-set_ne t.dense t.count i pc 0 (λ p. omega arith)

    not_pc : (i : ℕ) → i < t.count → pc ≢ at t i
    not_pc i k p = cc (contains-at t i v k, e, p)

    linked :
        (i : ℕ)
        → i < t.count + 1
        → (at (insert t pc) i < size)
          × (get_or (set t.sparse pc t.count) (at (insert t pc) i) 0 ≡ i)
    linked i k = elim (ℕ_discrete i t.count) [
      | yes new ↦ rw (new, written) (h, pc_slot)
      | no other ↦
          let old : i < t.count = omega arith in
          rw
            (
              old_slot i old,
              get_or-set_ne t.sparse pc (get_or t.dense i 0) t.count 0 (not_pc i old),
            )
            (v.linked i old)
    ]

pub missing-le : (n : ℕ) (t : ThreadList) → missing n t ≤ n
unfolding missing
missing-le zero t = omega arith
missing-le (suc n) t = ground (arith, missing-le n t)

-- A member stands in a slot in use.
pub contains_slot :
    (t : ThreadList) (pc : ℕ) → contains t pc ≡ true → (i : ℕ) × (i < t.count) × (at t i ≡ pc)
unfolding contains at
contains_slot t pc h = (get_or t.sparse pc 0, ground arith, ground arith)
