-- ===== src/Prelude/Tables.antt =====
-- `std::unordered_map` with keys that are texts, as an association list.
use mathlib.Core.Path.{◌≡◌, refl, subst}
use mathlib.Core.Bool.{Bool, true, false}
use mathlib.Core.List.{List, [], ◌∷◌}
use mathlib.Core.Option.{Option, none, some}
use native.Mathlib.Omega.{arith}
use mcp_cpp_sdk.Prelude.Tests.{if◌then◌else◌}
use mcp_cpp_sdk.Prelude.Text.{Bytes, bytes_eq, bytes_eq→eq, bytes_eq_refl}

abbrev pub Table {ℓ} : Type ℓ → Type ℓ
Table V = List (Bytes × V)

-- Another key than one that agrees with `k`.
other_key :
    (j key k : Bytes) → bytes_eq j key ≡ false → bytes_eq key k ≡ true → bytes_eq j k ≡ false
other_key j key k h e = subst (λ x. bytes_eq j x ≡ false) (bytes_eq→eq key k e) h

module _ {ℓ} {V : Type ℓ} where
  -- `find`
  abbrev pub lookup : Bytes → Table V → Option V
  lookup key [] = none
  lookup key ((k, v) ∷ table) = if bytes_eq key k then some v else lookup key table

  -- `contains`
  abbrev pub has : Bytes → Table V → Bool
  has key [] = false
  has key ((k, v) ∷ table) = if bytes_eq key k then true else has key table

  -- `operator[]` and an assignment
  abbrev pub assign : Bytes → V → Table V → Table V
  assign key value [] = (key, value) ∷ []
  assign key value ((k, v) ∷ table) =
      if bytes_eq key k then (key, value) ∷ table else (k, v) ∷ assign key value table

  -- `emplace`, which keeps an entry that is there.
  abbrev pub emplace : Bytes → V → Table V → Table V
  emplace key value [] = (key, value) ∷ []
  emplace key value ((k, v) ∷ table) =
      if bytes_eq key k then (k, v) ∷ table else (k, v) ∷ emplace key value table

  -- `erase`; a table that is built by the functions of this module has a key once, and one that
  -- has it more often loses every entry of it.
  abbrev pub erase : Bytes → Table V → Table V
  erase key [] = []
  erase key ((k, v) ∷ table) =
      let rest = erase key table in if bytes_eq key k then rest else (k, v) ∷ rest

  -- A change of the value of a key, where there is one.
  abbrev pub update : Bytes → (V → V) → Table V → Table V
  update key f [] = []
  update key f ((k, v) ∷ table) =
      if bytes_eq key k then (k, f v) ∷ table else (k, v) ∷ update key f table

  pub lookup-assign_self :
      (key : Bytes) (value : V) (table : Table V) → lookup key (assign key value table) ≡ some value
  lookup-assign_self key value [] = ground (arith, bytes_eq_refl key)
  lookup-assign_self key value ((k, v) ∷ table) =
      ground (arith, bytes_eq_refl key, lookup-assign_self key value table)

  pub lookup-assign_ne :
      (j key : Bytes) (value : V) (table : Table V)
      → bytes_eq j key ≡ false
      → lookup j (assign key value table) ≡ lookup j table
  lookup-assign_ne j key value [] h = ground (arith, h)
  lookup-assign_ne j key value ((k, v) ∷ table) h =
      ground (arith, h, other_key j key k h, lookup-assign_ne j key value table h)

  pub lookup-emplace_self :
      (key : Bytes) (value : V) (table : Table V)
      → lookup key table ≡ none
      → lookup key (emplace key value table) ≡ some value
  lookup-emplace_self key value [] h = ground (arith, bytes_eq_refl key)
  lookup-emplace_self key value ((k, v) ∷ table) h =
      ground (arith, h, lookup-emplace_self key value table)

  pub lookup-emplace_ne :
      (j key : Bytes) (value : V) (table : Table V)
      → bytes_eq j key ≡ false
      → lookup j (emplace key value table) ≡ lookup j table
  lookup-emplace_ne j key value [] h = ground (arith, h)
  lookup-emplace_ne j key value ((k, v) ∷ table) h =
      ground (arith, h, other_key j key k h, lookup-emplace_ne j key value table h)

  -- An entry that is there stays.
  pub lookup-emplace_old :
      (key : Bytes) (value old : V) (table : Table V)
      → lookup key table ≡ some old
      → lookup key (emplace key value table) ≡ some old
  lookup-emplace_old key value old [] h = ground (arith, h)
  lookup-emplace_old key value old ((k, v) ∷ table) h =
      ground (arith, h, lookup-emplace_old key value old table)

  pub lookup-erase_self : (key : Bytes) (table : Table V) → lookup key (erase key table) ≡ none
  lookup-erase_self key [] = refl
  lookup-erase_self key ((k, v) ∷ table) = ground (arith, lookup-erase_self key table)

  pub lookup-erase_ne :
      (j key : Bytes) (table : Table V)
      → bytes_eq j key ≡ false
      → lookup j (erase key table) ≡ lookup j table
  lookup-erase_ne j key [] h = refl
  lookup-erase_ne j key ((k, v) ∷ table) h =
      ground (arith, h, other_key j key k h, lookup-erase_ne j key table h)

  pub lookup-update_self :
      (key : Bytes) (f : V → V) (table : Table V) (value : V)
      → lookup key table ≡ some value
      → lookup key (update key f table) ≡ some (f value)
  lookup-update_self key f [] value h = ground (arith, h)
  lookup-update_self key f ((k, v) ∷ table) value h =
      ground (arith, h, lookup-update_self key f table value)

  pub lookup-update_ne :
      (j key : Bytes) (f : V → V) (table : Table V)
      → bytes_eq j key ≡ false
      → lookup j (update key f table) ≡ lookup j table
  lookup-update_ne j key f [] h = refl
  lookup-update_ne j key f ((k, v) ∷ table) h =
      ground (arith, h, other_key j key k h, lookup-update_ne j key f table h)

  pub has-lookup :
      (key : Bytes) (table : Table V) (value : V)
      → lookup key table ≡ some value
      → has key table ≡ true
  has-lookup key [] value h = ground (arith, h)
  has-lookup key ((k, v) ∷ table) value h = ground (arith, h, has-lookup key table value)

  pub has-false : (key : Bytes) (table : Table V) → has key table ≡ false → lookup key table ≡ none
  has-false key [] h = refl
  has-false key ((k, v) ∷ table) h = ground (arith, h, has-false key table)
