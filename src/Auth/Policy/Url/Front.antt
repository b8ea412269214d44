-- ===== src/Auth/Policy/Url/Front.antt =====
-- `metadata_url_origin` of src/auth/metadata_policy.cpp is the front of its URL.
use mcp_cpp_sdk.Prelude.{
  ℕ, ◌≡◌, refl, sym, ap, ◌∙◌, Bool, ◌||◌, Option, none, some, [], ◌∷◌, ◌++◌, if-both, append_assoc,
  Bytes, codes,
}
use mcp_cpp_sdk.Http.Types.{is_empty, after_prefix, take_until}
use mcp_cpp_sdk.Http.Types.Splits.{after_prefix-eq}
use mcp_cpp_sdk.Auth.Policy.Origin.{
  ends_authority, split_at_separator, scheme_and_authority, split_url,
}
use mcp_cpp_sdk.Auth.Policy.Url.{origin_text, metadata_url_origin}

take_until-prefix :
    (stop : ℕ → Bool) (text : Bytes) → (rest : Bytes) × (text ≡ take_until stop text ++ rest)
unfolding take_until
take_until-prefix stop [] = ([], refl)
take_until-prefix stop (c ∷ text) =
    if-both (λ t. (rest : Bytes) × (c ∷ text ≡ t ++ rest)) (stop c) _ _ (λ e. (c ∷ text, refl))
      (λ e. let rest = take_until-prefix stop text in (rest.0, ap (λ zs. c ∷ zs) rest.1))

-- The text of a split at the separator.
abbrev joined : Option (Bytes × Bytes) → Bytes → Bytes
joined none text = text
joined (some (front, behind)) text = front ++ (codes "://" ++ behind)

joined-step :
    (x : ℕ) (text : Bytes) (here : Option Bytes) (later : Option (Bytes × Bytes))
    → after_prefix (codes "://") (x ∷ text) ≡ here
    → text ≡ joined later text
    → x ∷ text
      ≡ joined
          (elim here [
            | some rest ↦ some ([], rest)
            | none ↦ elim later [ none ↦ none | some (front, behind) ↦ some (x ∷ front, behind) ]
          ])
          (x ∷ text)
joined-step x text (some rest) later e h = after_prefix-eq (codes "://") (x ∷ text) rest e
joined-step x text none none e h = refl
joined-step x text none (some (front, behind)) e h = ap (λ zs. x ∷ zs) h

split_at_separator-joined : (text : Bytes) → text ≡ joined (split_at_separator text) text
unfolding split_at_separator
split_at_separator-joined [] = refl
split_at_separator-joined (x ∷ text) =
    joined-step x text (after_prefix (codes "://") (x ∷ text)) (split_at_separator text) refl
      (split_at_separator-joined text)

-- What follows the origin.
abbrev pub Continues : Bytes → Bytes → Type 0
Continues origin url = (rest : Bytes) × (url ≡ origin ++ rest)

origin_text-Continues :
    (url : Bytes) (split : Option (Bytes × Bytes))
    → url ≡ joined split url
    → Continues (origin_text (scheme_and_authority split)) url
origin_text-Continues url none h = (url, refl)
origin_text-Continues url (some (scheme, rest)) h =
    if-both (λ parts. Continues (origin_text parts) url)
      (is_empty scheme || is_empty (take_until ends_authority rest)) _ _ (λ e. (url, refl))
      (λ e.
        let behind = take_until-prefix ends_authority rest in
        (
          behind.0,
          h
              ∙ ap (λ zs. scheme ++ (codes "://" ++ zs)) behind.1
              ∙ sym (append_assoc scheme (codes "://" ++ take_until ends_authority rest) behind.0),
        ))

pub metadata_url_origin-Continues : (url : Bytes) → Continues (metadata_url_origin url) url
unfolding metadata_url_origin split_url
metadata_url_origin-Continues url =
    origin_text-Continues url (split_at_separator url) (split_at_separator-joined url)
