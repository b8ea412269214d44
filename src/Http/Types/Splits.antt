-- ===== src/Http/Types/Splits.antt =====
-- How src/transport/http_types.cpp splits a URL, and the URL that it puts together again.
use mcp_cpp_sdk.Prelude.{
  ℕ, ◌≡◌, refl, ap, subst, sym, Bool, false, Option, none, some, [], ◌∷◌, ◌++◌, append_assoc,
  append-nil, ◌∙◌, if◌then◌else◌, Bytes, All, Option-cases, Bool-cases, arith, inl, inr,
}
use mcp_cpp_sdk.Http.Types.{
  SplitResource, separator, split_scheme, after_prefix, take_until, drop_until, is_slash, is_empty,
  ends_path, split_rest, split_resource,
}

-- The first `://` of a text, what is in front of it and with it, and what is behind.
data Splits : Bytes → Bytes → Bytes → Type 0 where
  here : (rest : Bytes) → Splits (separator ++ rest) separator rest
  there :
      (c : ℕ) (text front rest : Bytes)
      → after_prefix separator (c ∷ text) ≡ none
      → Splits text front rest
      → Splits (c ∷ text) (c ∷ front) rest

pub after_prefix-eq : (xs text rest : Bytes) → after_prefix xs text ≡ some rest → text ≡ xs ++ rest
after_prefix-eq [] text rest h = ground (arith, h)
after_prefix-eq (x ∷ xs) [] rest h = ground (arith, h)
after_prefix-eq (x ∷ xs) (c ∷ text) rest h = ground (arith, after_prefix-eq xs text rest)

abbrev PairEq : Bytes → Bytes → Bytes → Bytes → Type 0
PairEq a b c d = ◌≡◌ {A = Option (Bytes × Bytes)} (some (a, b)) (some (c, d))

found-front : (a b c d : Bytes) → PairEq a b c d → a ≡ c
found-front a b c d h = ap (λ o. elim o [ none ↦ a | some (x, y) ↦ x ]) h

found-rest : (a b c d : Bytes) → PairEq a b c d → b ≡ d
found-rest a b c d h = ap (λ o. elim o [ none ↦ b | some (x, y) ↦ y ]) h

split_scheme-Splits :
    (text front rest : Bytes) → split_scheme text ≡ some (front, rest) → Splits text front rest
unfolding split_scheme
split_scheme-Splits [] front rest h = ground arith
split_scheme-Splits (c ∷ text) front rest h =
    elim (Option-cases (after_prefix separator (c ∷ text))) [
      | inl fails ↦ elim (Option-cases (split_scheme text)) [
        | inl stops ↦ ground (arith, fails, stops)
        | inr (found, e) ↦
            let eq : PairEq (c ∷ found.0) found.1 front rest = ground (arith, fails, e) in
            subst (λ f. Splits (c ∷ text) f rest) (found-front (c ∷ found.0) found.1 front rest eq)
              (subst (λ r. Splits (c ∷ text) (c ∷ found.0) r)
                (found-rest (c ∷ found.0) found.1 front rest eq)
                (there c text found.0 found.1 fails (split_scheme-Splits text found.0 found.1 e)))
      ]
      | inr (found, e) ↦
          let eq : PairEq separator found front rest = ground (arith, e) in
          subst (λ f. Splits (c ∷ text) f rest) (found-front separator found front rest eq)
            (subst (λ r. Splits (c ∷ text) separator r) (found-rest separator found front rest eq)
              (subst (λ t. Splits t separator found)
                (sym (after_prefix-eq separator (c ∷ text) found e)) (here found)))
    ]

-- Three characters decide whether the separator stands at the start.
after_prefix-append :
    (c : ℕ) (text front rest other : Bytes)
    → Splits text front rest
    → after_prefix separator (c ∷ text) ≡ none
    → after_prefix separator (c ∷ (front ++ other)) ≡ none
after_prefix-append c _ _ _ other (here rest) h = ground (arith, h)
after_prefix-append c _ _ _ other (there d _ _ _ e (here rest)) h = ground (arith, h)
after_prefix-append c _ _ _ other (there d _ _ _ e (there f text front rest g s)) h =
    ground (arith, h)

Splits-append :
    (text front rest other : Bytes)
    → Splits text front rest
    → split_scheme (front ++ other) ≡ some (front, other)
unfolding split_scheme
Splits-append _ _ _ other (here rest) = refl
Splits-append _ _ _ other (there c text front rest h s) =
    ground (
      arith,
      after_prefix-append c text front rest other s h,
      Splits-append text front rest other s,
    )

-- What `take_until` takes has no stop in it, and is taken again in front of another text.
abbrev Free : (ℕ → Bool) → ℕ → Type 0
Free stop c = stop c ≡ false

take_until-Free : (stop : ℕ → Bool) (text : Bytes) → All (Free stop) (take_until stop text)
unfolding take_until
take_until-Free stop [] = tt
take_until-Free stop (c ∷ text) = elim (Bool-cases (stop c)) [
  | inl e ↦ rw (e, if◌then◌else◌) tt
  | inr e ↦ rw (e, if◌then◌else◌) (e, take_until-Free stop text)
]

take_until-All {κ} :
    (Q : ℕ → Type κ) (stop : ℕ → Bool) (text : Bytes) → All Q text → All Q (take_until stop text)
unfolding take_until
take_until-All Q stop [] h = tt
take_until-All Q stop (c ∷ text) h = elim (Bool-cases (stop c)) [
  | inl e ↦ rw (e, if◌then◌else◌) tt
  | inr e ↦ rw (e, if◌then◌else◌) (h.0, take_until-All Q stop text h.1)
]

take_until-append :
    (stop : ℕ → Bool) (xs ys : Bytes)
    → All (Free stop) xs
    → take_until stop (xs ++ ys) ≡ xs ++ take_until stop ys
unfolding take_until
take_until-append stop [] ys h = refl
take_until-append stop (x ∷ xs) ys h =
    rw (h.0, if◌then◌else◌) (ap (λ t. x ∷ t) (take_until-append stop xs ys h.1))

-- The authority in front of a path is found again.
authority-again :
    (authority path : Bytes)
    → All (Free is_slash) authority
    → All (Free ends_path) authority
    → take_until is_slash (take_until ends_path (authority ++ b'/' ∷ path)) ≡ authority
unfolding take_until
authority-again authority path h h' =
    ap (take_until is_slash) (take_until-append ends_path authority (b'/' ∷ path) h')
    ∙ take_until-append is_slash authority (b'/' ∷ take_until ends_path path) h
    ∙ append-nil authority

abbrev authority_of : Bytes → Bytes
authority_of rest = take_until is_slash (take_until ends_path rest)

abbrev Reads : SplitResource → Bytes → Bytes → Type 0
Reads r scheme rest =
    (is_empty (authority_of rest) ≡ false) × (r.origin ≡ scheme ++ authority_of rest)

split_rest-Reads :
    (scheme rest : Bytes) (r : SplitResource)
    → split_rest scheme rest ≡ some r
    → Reads r scheme rest
unfolding split_rest
split_rest-Reads scheme rest r h = elim (Bool-cases (is_empty (authority_of rest))) [
  | inl e ↦ ground (arith, e, h)
  | inr e ↦ (e, ground (arith, e, h))
]

split_rest-succeeds :
    (scheme rest : Bytes)
    → is_empty (authority_of rest) ≡ false
    → (r : SplitResource) × ((split_rest scheme rest ≡ some r) × Reads r scheme rest)
unfolding split_rest
split_rest-succeeds scheme rest e = (
  record {
    origin = scheme ++ authority_of rest;
    path = drop_until is_slash (take_until ends_path rest);
  },
  (rw (split_rest, e, if◌then◌else◌) refl, (e, refl)),
)

split_resource-scheme :
    (url scheme rest : Bytes)
    → split_scheme url ≡ some (scheme, rest)
    → split_resource url ≡ split_rest scheme rest
unfolding split_resource
split_resource-scheme url scheme rest e = rw (split_resource, e) refl

-- A URL with the scheme and authority of a resource and another path has the resource's origin.
pub split_resource-again :
    (resource path : Bytes) (r : SplitResource)
    → split_resource resource ≡ some r
    → (r' : SplitResource) × ((split_resource (r.origin ++ b'/' ∷ path) ≡ some r')
        × (r'.origin ≡ r.origin))
unfolding split_resource
split_resource-again resource path r h = elim (Option-cases (split_scheme resource)) [
  | inl e ↦ ground (arith, e, h)
  | inr (found, e) ↦
      let (scheme, rest) = found in
      let authority = authority_of rest in
      let reads = split_rest-Reads scheme rest r (ground (arith, e, h)) in
      let again =
        authority-again authority path (take_until-Free is_slash (take_until ends_path rest)) (
          take_until-All (Free ends_path) is_slash (take_until ends_path rest)
            (take_until-Free ends_path rest)) in
      let (r', (reads', origin')) =
        split_rest-succeeds scheme (authority ++ b'/' ∷ path)
          (subst (λ a. is_empty a ≡ false) (sym again) reads.0) in
      let eq : r.origin ++ b'/' ∷ path ≡ scheme ++ (authority ++ b'/' ∷ path) =
        ap (λ o. o ++ b'/' ∷ path) reads.1 ∙ append_assoc scheme authority (b'/' ∷ path) in
      let again' =
        Splits-append resource scheme rest (authority ++ b'/' ∷ path)
          (split_scheme-Splits resource scheme rest e) in
      (
        r',
        (
          ap split_resource eq
              ∙ split_resource-scheme (scheme ++ (authority ++ b'/' ∷ path)) scheme
                  (authority ++ b'/' ∷ path) again'
              ∙ reads',
          origin'.1 ∙ ap (λ a. scheme ++ a) again ∙ sym reads.1,
        ),
      )
]
