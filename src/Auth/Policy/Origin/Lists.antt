-- ===== src/Auth/Policy/Origin/Lists.antt =====
-- What the lists of a policy of src/auth/metadata_policy.cpp say of an origin.
use mcp_cpp_sdk.Prelude.{
  ◌≡◌, ◌≢◌, ◌↔◌, ◌⊎◌, inl, inr, refl, ap, ◌∙◌, Bool, true, false, ◌||◌, Bool-cases, Option, none,
  some, List, [], ◌∷◌, Bytes, bytes_eq, bytes_eq_iff, bytes_eq→eq, bytes_eq_refl, arith,
}
use mcp_cpp_sdk.Auth.Policy.Address.{AddressApi}
use mcp_cpp_sdk.Auth.Policy.Origin.{
  canonicalize_origin, is_origin, contains_origin, denied_by, denies_origin,
}

module _ (api : AddressApi) where
  -- The text of an entry of a list is, in its canonical form, this origin.
  abbrev pub HasForm : Bytes → Bytes → Type 0
  HasForm origin entry = canonicalize_origin api entry ≡ some origin

  -- Every entry has a canonical form, and none has this one.
  abbrev pub DeniesNot : Bytes → List Bytes → Type 0
  DeniesNot origin [] = Unit
  DeniesNot origin (entry ∷ entries) =
      ((form : Bytes) × (HasForm form entry × (form ≢ origin))) × DeniesNot origin entries

  -- Some entry has this form.
  abbrev pub Lists : Bytes → List Bytes → Type 0
  Lists origin [] = ⊥
  Lists origin (entry ∷ entries) = HasForm origin entry ⊎ Lists origin entries

  bytes_eq-false : (xs ys : Bytes) → bytes_eq xs ys ≡ false → xs ≢ ys
  bytes_eq-false xs ys h e = ground (arith, h, (bytes_eq_iff xs ys).1 e)

  bytes_eq-ne_or : (xs ys : Bytes) → xs ≢ ys → (bytes_eq xs ys || false) ≡ false
  bytes_eq-ne_or xs ys ne = elim (Bool-cases (bytes_eq xs ys)) [
    | inl e ↦ absurd (ne (bytes_eq→eq xs ys e))
    | inr e ↦ ground (arith, e)
  ]

  denied_by-false :
      (entry : Option Bytes) (origin : Bytes) (rest : Option Bool)
      → denied_by api entry origin rest ≡ some false
      → ((form : Bytes) × ((entry ≡ some form) × (form ≢ origin))) × (rest ≡ some false)
  denied_by-false none origin rest h = ground (arith, h)
  denied_by-false (some form) origin none h = ground (arith, h)
  denied_by-false (some form) origin (some true) h = ground (arith, h)
  denied_by-false (some form) origin (some false) h =
      ((form, (refl, bytes_eq-false form origin (ground (arith, h)))), refl)

  pub denies_origin-DeniesNot :
      (entries : List Bytes) (origin : Bytes)
      → (denies_origin api entries origin ≡ some false) ↔ DeniesNot origin entries
  unfolding denies_origin
  denies_origin-DeniesNot [] origin = ((λ h. tt), (λ h. refl))
  denies_origin-DeniesNot (entry ∷ entries) origin = (
    λ h.
        let two =
          denied_by-false (canonicalize_origin api entry) origin (denies_origin api entries origin)
            h in
        (two.0, (denies_origin-DeniesNot entries origin).0 two.1),
    λ k.
        ap (λ form. denied_by api form origin (denies_origin api entries origin)) k.0.1.0
        ∙ ap (denied_by api (some k.0.0) origin) ((denies_origin-DeniesNot entries origin).1 k.1)
        ∙ ap some (bytes_eq-ne_or k.0.0 origin k.0.1.1),
  )

  is_origin-eq :
      (entry : Option Bytes) (origin : Bytes)
      → is_origin api entry origin ≡ true
      → entry ≡ some origin
  is_origin-eq none origin h = ground (arith, h)
  is_origin-eq (some form) origin h = ap some (bytes_eq→eq form origin h)

  pub contains_origin-Lists :
      (entries : List Bytes) (origin : Bytes)
      → (contains_origin api entries origin ≡ true) ↔ Lists origin entries
  unfolding contains_origin
  contains_origin-Lists [] origin = ((λ h. ground (arith, h)), (λ h. absurd h))
  contains_origin-Lists (entry ∷ entries) origin = (
    (λ h. elim (Bool-cases (is_origin api (canonicalize_origin api entry) origin)) [
      | inl e ↦ inl (is_origin-eq (canonicalize_origin api entry) origin e)
      | inr e ↦ inr ((contains_origin-Lists entries origin).0 (ground (arith, e, h)))
    ]),
    (λ k. elim k [
      | inl e ↦
          ap (λ form. is_origin api form origin || contains_origin api entries origin) e
          ∙ ap (λ b. b || contains_origin api entries origin) (bytes_eq_refl origin)
      | inr later ↦ ground (arith, (contains_origin-Lists entries origin).1 later)
    ]),
  )
