-- ===== src/Regex/Ranges/Laws.antt =====
-- What the range lists of the regex engine denote.
use mcp_cpp_sdk.Prelude.{
  ℕ, ◌+◌, ◌%◌, ◌^◌, ◌≤◌, ◌<◌, ◌≡◌, refl, ap, ◌∙◌, inl, inr, Bool, false, not, ◌&&◌, ◌||◌, some,
  List, [], ◌∷◌, leb, ltb, within, arith, All, Bool-cases, ltb→lt,
}
use mcp_cpp_sdk.Regex.Ranges.{
  Range, max_code_point, insert_sorted, sort, merge_from, merge, normalize, complement_from,
  complement, contains_from, contains,
}

-- Some range of the list holds `c`.
abbrev pub any_in : List Range → ℕ → Bool
any_in [] c = false
any_in (r ∷ rs) c = within r.first r.last c || any_in rs c

abbrev pub IsRange : Range → Type 0
IsRange r = (r.first ≤ r.last) × (r.last ≤ max_code_point)

abbrev Ordered : ℕ → List Range → Type 0
Ordered lo [] = Unit {0}
Ordered lo (r ∷ rs) = (lo ≤ r.first) × IsRange r × Ordered r.first rs

-- Ascending from `lo`, with a gap between any two neighbours.
abbrev pub Gaps : ℕ → List Range → Type 0
Gaps lo [] = Unit {0}
Gaps lo (r ∷ rs) = (lo ≤ r.first) × IsRange r × Gaps (r.last + 2) rs

insert_sorted-Ordered :
    (lo : ℕ) (r : Range) (rs : List Range)
    → lo ≤ r.first
    → IsRange r
    → Ordered lo rs
    → Ordered lo (insert_sorted r rs)
unfolding insert_sorted
insert_sorted-Ordered lo r [] h v o = (h, v, tt)
insert_sorted-Ordered lo r (x ∷ xs) h v o = ground (arith, insert_sorted-Ordered x.first r xs)

any_in-insert_sorted :
    (r : Range) (rs : List Range) (c : ℕ)
    → any_in (insert_sorted r rs) c ≡ (within r.first r.last c || any_in rs c)
unfolding insert_sorted
any_in-insert_sorted r [] c = refl
any_in-insert_sorted r (x ∷ xs) c = ground (arith, any_in-insert_sorted r xs c)

sort-Ordered : (rs : List Range) → All IsRange rs → Ordered 0 (sort rs)
unfolding sort
sort-Ordered [] v = tt
sort-Ordered (r ∷ rs) v =
    insert_sorted-Ordered 0 r (sort rs) (omega arith) v.0 (sort-Ordered rs v.1)

any_in-sort : (rs : List Range) (c : ℕ) → any_in (sort rs) c ≡ any_in rs c
unfolding sort
any_in-sort [] c = refl
any_in-sort (r ∷ rs) c = ground (arith, any_in-insert_sorted r (sort rs) c, any_in-sort rs c)

Ordered-mono : (lo hi : ℕ) (rs : List Range) → lo ≤ hi → Ordered hi rs → Ordered lo rs
Ordered-mono lo hi [] h o = tt
Ordered-mono lo hi (r ∷ rs) h o = (omega arith, o.1, o.2)

merge_from-Gaps :
    (lo : ℕ) (b : Range) (rs : List Range)
    → lo ≤ b.first
    → IsRange b
    → Ordered b.first rs
    → Gaps lo (merge_from b rs)
unfolding merge_from
merge_from-Gaps lo b [] h v o = (h, v, tt)
merge_from-Gaps lo b (r ∷ rs) h v o = ground (
  arith,
  merge_from-Gaps lo (record b { last = r.last }) rs,
  merge_from-Gaps lo b rs,
  merge_from-Gaps (b.last + 2) r rs,
  Ordered-mono b.first r.first rs,
)

any_in-merge_from :
    (b : Range) (rs : List Range) (c : ℕ)
    → IsRange b
    → Ordered b.first rs
    → any_in (merge_from b rs) c ≡ (within b.first b.last c || any_in rs c)
unfolding merge_from
any_in-merge_from b [] c v o = refl
any_in-merge_from b (r ∷ rs) c v o = ground (
  arith,
  any_in-merge_from (record b { last = r.last }) rs c,
  any_in-merge_from b rs c,
  any_in-merge_from r rs c,
  Ordered-mono b.first r.first rs,
)

pub normalize-Gaps : (rs : List Range) → All IsRange rs → Gaps 0 (normalize rs)
unfolding normalize
normalize-Gaps rs v = merged (sort rs) (sort-Ordered rs v)
  where
    merged : (xs : List Range) → Ordered 0 xs → Gaps 0 (merge xs)
    merged [] o = tt
    merged (x ∷ xs) o = merge_from-Gaps 0 x xs (omega arith) o.1 o.2

pub any_in-normalize :
    (rs : List Range) (c : ℕ) → All IsRange rs → any_in (normalize rs) c ≡ any_in rs c
unfolding normalize
any_in-normalize rs c v = merged (sort rs) (sort-Ordered rs v) ∙ any_in-sort rs c
  where
    merged : (xs : List Range) → Ordered 0 xs → any_in (merge xs) c ≡ any_in xs c
    merged [] o = refl
    merged (x ∷ xs) o = any_in-merge_from x xs c o.1 o.2

any_in_below : (lo c : ℕ) (rs : List Range) → Gaps lo rs → c < lo → any_in rs c ≡ false
any_in_below lo c [] g h = refl
any_in_below lo c (r ∷ rs) g h = ground (arith, any_in_below (r.last + 2) c rs)

contains_from-some :
    (p : Range) (rs : List Range) (c : ℕ)
    → Gaps (p.last + 2) rs
    → p.first ≤ c
    → contains_from (some p) rs c ≡ (leb c p.last || any_in rs c)
unfolding contains_from
contains_from-some p [] c g h = ground arith
contains_from-some p (r ∷ rs) c g h =
    ground (arith, contains_from-some r rs c, any_in_below (r.last + 2) c rs)

pub contains-any_in : (lo : ℕ) (rs : List Range) (c : ℕ) → Gaps lo rs → contains rs c ≡ any_in rs c
unfolding contains
contains-any_in lo [] c g = refl
contains-any_in lo (r ∷ rs) c g =
    ground (arith, contains_from-some r rs c, any_in_below (r.last + 2) c rs)

no_wrap : (n : ℕ) → n ≤ max_code_point → (n + 1) % 2 ^ 32 ≡ n + 1
no_wrap n h = omega arith

Gaps-mono : (lo hi : ℕ) (rs : List Range) → lo ≤ hi → Gaps hi rs → Gaps lo rs
Gaps-mono lo hi [] h g = tt
Gaps-mono lo hi (r ∷ rs) h g = (omega arith, g.1, g.2)

any_in-complement_from :
    (next : ℕ) (rs : List Range) (c : ℕ)
    → Gaps next rs
    → c ≤ max_code_point
    → any_in (complement_from next rs) c ≡ (leb next c && not (any_in rs c))
unfolding complement_from
any_in-complement_from next [] c g h = ground arith
any_in-complement_from next (r ∷ rs) c g h =
    let rest = any_in-complement_from (r.last + 1) rs c (Gaps-mono _ _ rs (omega arith) g.2) h in
    rw (no_wrap r.last g.1.1) (elim (Bool-cases (ltb next r.first)) [
      | inl e ↦ rw e (ground (arith, rest, any_in_below (r.last + 2) c rs))
      | inr e ↦ rw e (ground (arith, rest, any_in_below (r.last + 2) c rs))
    ])

complement_from-IsRange :
    (next : ℕ) (rs : List Range) → Gaps next rs → All IsRange (complement_from next rs)
unfolding complement_from
complement_from-IsRange next [] g = ground arith
complement_from-IsRange next (r ∷ rs) g =
    let rest = complement_from-IsRange (r.last + 1) rs (Gaps-mono _ _ rs (omega arith) g.2) in
    rw (no_wrap r.last g.1.1) (elim (Bool-cases (ltb next r.first)) [
      | inl e ↦ rw e ((omega (arith, ltb→lt next r.first e), omega arith), rest)
      | inr e ↦ rw e rest
    ])

pub complement-IsRange : (rs : List Range) → All IsRange rs → All IsRange (complement rs)
unfolding complement
complement-IsRange rs v = complement_from-IsRange 0 (normalize rs) (normalize-Gaps rs v)

leb_zero : (c : ℕ) (b : Bool) → (leb 0 c && b) ≡ b
leb_zero c b = ground arith

-- The binary search in a normalized list finds a code point exactly if one of the given ranges
-- holds it, for any ranges in any order that are not reversed and lie below U+10FFFF.
pub contains-normalize :
    (rs : List Range) (c : ℕ) → All IsRange rs → contains (normalize rs) c ≡ any_in rs c
contains-normalize rs c v =
    contains-any_in 0 (normalize rs) c (normalize-Gaps rs v) ∙ any_in-normalize rs c v

-- The class that a negated set compiles to holds a code point exactly if none of the given ranges
-- does, up to U+10FFFF.
pub contains-normalize-complement :
    (rs : List Range) (c : ℕ)
    → All IsRange rs
    → c ≤ max_code_point
    → contains (normalize (complement rs)) c ≡ not (any_in rs c)
unfolding complement
contains-normalize-complement rs c v h =
    contains-normalize (complement rs) c (complement-IsRange rs v)
    ∙ any_in-complement_from 0 (normalize rs) c (normalize-Gaps rs v) h
    ∙ leb_zero c (not (any_in (normalize rs) c))
    ∙ ap not (any_in-normalize rs c v)
