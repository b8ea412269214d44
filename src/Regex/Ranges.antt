-- ===== src/Regex/Ranges.antt =====
-- src/core/regex.cpp: sets of code points as lists of ranges (`normalize`, `complement`,
-- `contains` and the predefined sets). A `char32_t` is a number with its wrap-around written out.
pub mod Laws
use mcp_cpp_sdk.Prelude.{
  ℕ, ◌+◌, ◌-◌, ◌%◌, ◌^◌, max, Bool, true, false, Option, none, some, List, [], ◌∷◌, leb, ltb,
  if◌then◌else◌,
}

abbrev pub max_code_point : ℕ
max_code_point = 0x10FFFF

pub record Range : Type 0 where
  pub first : ℕ
  pub last : ℕ

-- `std::sort` by `first`
pub insert_sorted : Range → List Range → List Range
insert_sorted r [] = r ∷ []
insert_sorted r (x ∷ xs) = if leb r.first x.first then r ∷ x ∷ xs else x ∷ insert_sorted r xs

pub sort : List Range → List Range
unfolding insert_sorted
sort [] = []
sort (r ∷ rs) = insert_sorted r (sort rs)

-- The loop of `normalize`, with `merged.back()` in `back`.
pub merge_from : Range → List Range → List Range
merge_from back [] = back ∷ []
merge_from back (r ∷ rs) = elim (leb r.first ((back.last + 1) % 2 ^ 32)) [
  | true ↦ merge_from (record back { last = max back.last r.last }) rs
  | false ↦ back ∷ merge_from r rs
]

pub merge : List Range → List Range
unfolding merge_from
merge [] = []
merge (r ∷ rs) = merge_from r rs

unfoldable pub normalize : List Range → List Range
unfolding sort merge
normalize ranges = merge (sort ranges)

-- The loop of `complement`, from `next` on.
pub complement_from : ℕ → List Range → List Range
complement_from next [] =
    if leb next max_code_point then record { first = next; last = max_code_point } ∷ [] else []
complement_from next (r ∷ rs) =
    let rest = complement_from ((r.last + 1) % 2 ^ 32) rs in
    if ltb next r.first then record { first = next; last = r.first - 1 } ∷ rest else rest

unfoldable pub complement : List Range → List Range
unfolding complement_from normalize
complement ranges = complement_from 0 (normalize ranges)

-- `iter != ranges.begin() && c <= std::prev(iter)->last`
pub before_holds : Option Range → ℕ → Bool
before_holds none c = false
before_holds (some r) c = leb c r.last

-- `std::upper_bound`: the first range with `c < first`; `before` is the one in front of it.
pub contains_from : Option Range → List Range → ℕ → Bool
unfolding before_holds
contains_from before [] c = before_holds before c
contains_from before (r ∷ rs) c =
    let rest = contains_from (some r) rs c in if ltb c r.first then before_holds before c else rest

unfoldable pub contains : List Range → ℕ → Bool
unfolding contains_from
contains ranges c = contains_from none ranges c

abbrev range : ℕ → ℕ → Range
range a b = record { first = a; last = b }

unfoldable pub digit_ranges : List Range
digit_ranges = range b'0' b'9' ∷ []

unfoldable pub word_ranges : List Range
word_ranges = range b'0' b'9' ∷ range b'A' b'Z' ∷ range b'_' b'_' ∷ range b'a' b'z' ∷ []

unfoldable pub space_ranges : List Range
space_ranges =
    range 0x09 0x0D
    ∷ range 0x20 0x20
    ∷ range 0xA0 0xA0
    ∷ range 0x1680 0x1680
    ∷ range 0x2000 0x200A
    ∷ range 0x2028 0x2029
    ∷ range 0x202F 0x202F
    ∷ range 0x205F 0x205F
    ∷ range 0x3000 0x3000
    ∷ range 0xFEFF 0xFEFF
    ∷ []
