-- ===== src/Auth/Identity/Scope.antt =====
-- The scope that src/auth/client_identity.cpp registers with, as a server splits it.
use mcp_cpp_sdk.Prelude.{
  ℕ, ◌≡◌, ◌↔◌, ◌⊎◌, inl, inr, Bool-cases, bytes_eq, bytes_eq→eq, bytes_eq_iff, refl, sym, ap, ◌∙◌,
  true, false, Option, none, some, List, [], ◌∷◌, ◌++◌, append_assoc, append-nil, if-both, Bytes,
  All, All-append, arith,
}
use mcp_cpp_sdk.Auth.Identity.{
  ClientIdentityServerFacts, is_blank, end_word, split_from, split_scope, join_from, join_scope,
  contains, offline_access, scope_words, registration_scope,
}

abbrev IsNotBlank : ℕ → Type 0
IsNotBlank c = is_blank c ≡ false

-- A text that a split leaves in one piece.
abbrev pub IsWord : Bytes → Type 0
IsWord [] = ⊥
IsWord (c ∷ word) = All IsNotBlank (c ∷ word)

end_word-AreWords :
    (word : Bytes) (words : List Bytes)
    → All IsNotBlank word
    → All IsWord words
    → All IsWord (end_word word words)
end_word-AreWords [] words h hs = hs
end_word-AreWords (c ∷ word) words h hs = (h, hs)

split_from-AreWords : (word text : Bytes) → All IsNotBlank word → All IsWord (split_from word text)
unfolding split_from
split_from-AreWords word [] h = end_word-AreWords word [] h tt
split_from-AreWords word (c ∷ text) h =
    if-both (All IsWord) (is_blank c) _ _
      (λ e. end_word-AreWords word (split_from [] text) h (split_from-AreWords [] text tt))
      (λ e.
        split_from-AreWords (word ++ c ∷ []) text (All-append IsNotBlank word (c ∷ []) h (e, tt)))

scope_words-AreWords : (scope : Option Bytes) → All IsWord (scope_words scope)
unfolding split_scope
scope_words-AreWords none = tt
scope_words-AreWords (some scope) = split_from-AreWords [] scope tt

-- The text behind the first word of a join.
abbrev more : List Bytes → Bytes
more [] = []
more (value ∷ values) = 0x20 ∷ (value ++ more values)

join_from-more :
    (c : ℕ) (joined : Bytes) (values : List Bytes)
    → join_from (c ∷ joined) values ≡ (c ∷ joined) ++ more values
unfolding join_from
join_from-more c joined [] = sym (append-nil (c ∷ joined))
join_from-more c joined (value ∷ values) =
    join_from-more c ((joined ++ 0x20 ∷ []) ++ value) values
    ∙ ap (λ text. (c ∷ text) ++ more values) (append_assoc joined (0x20 ∷ []) value)
    ∙ append_assoc (c ∷ joined) (0x20 ∷ value) (more values)

-- A split goes over a word.
split_from-word :
    (front word rest : Bytes)
    → All IsNotBlank word
    → split_from front (word ++ rest) ≡ split_from (front ++ word) rest
unfolding split_from
split_from-word front [] rest h = ap (λ w. split_from w rest) (sym (append-nil front))
split_from-word front (c ∷ word) rest h =
    if-both (λ words. words ≡ split_from (front ++ c ∷ word) rest) (is_blank c) _ _
      (λ e. ground (arith, e, h.0))
      (λ e.
        split_from-word (front ++ c ∷ []) word rest h.1
        ∙ ap (λ w. split_from w rest) (append_assoc front (c ∷ []) word))

split_from-more :
    (c : ℕ) (word : Bytes) (values : List Bytes)
    → All IsWord values
    → split_from (c ∷ word) (more values) ≡ (c ∷ word) ∷ values
unfolding split_from
split_from-more c word [] h = refl
split_from-more c word ([] ∷ values) h = elim h.0 [ ]
split_from-more c word ((d ∷ value) ∷ values) h =
    ap (λ words. (c ∷ word) ∷ words)
      (split_from-word [] (d ∷ value) (more values) h.0 ∙ split_from-more d value values h.1)

-- Words that are joined are split again.
split_scope-join_scope :
    (values : List Bytes) → All IsWord values → split_scope (join_scope values) ≡ values
unfolding split_scope join_scope
split_scope-join_scope [] h = refl
split_scope-join_scope ([] ∷ values) h = elim h.0 [ ]
split_scope-join_scope ((c ∷ value) ∷ values) h =
    ap (split_from []) (join_from-more c value values)
    ∙ split_from-word [] (c ∷ value) (more values) h.0
    ∙ split_from-more c value values h.1

-- A text that is one of a list.
abbrev pub Among : Bytes → List Bytes → Type 0
Among word [] = ⊥
Among word (value ∷ values) = (value ≡ word) ⊎ Among word values

contains-Among :
    (values : List Bytes) (word : Bytes) → (contains values word ≡ true) ↔ Among word values
contains-Among [] word = ((λ h. ground (arith, h)), (λ h. absurd h))
contains-Among (value ∷ values) word = elim (Bool-cases (bytes_eq value word)) [
  | inl e ↦ ((λ _. inl (bytes_eq→eq value word e)), (λ _. ground (arith, e)))
  | inr e ↦ (
    (λ h. inr ((contains-Among values word).0 (ground (arith, e, h)))),
    (λ k. elim k [
      | inl same ↦ ground (arith, (bytes_eq_iff value word).1 same)
      | inr later ↦ ground (arith, (contains-Among values word).1 later)
    ]),
  )
]

-- What is registered, by what the server offers and what the configured scope has: its words as they
-- are, its words with `offline_access` behind them, or the scope as it is.
pub data Registers (scope : Option Bytes) (server : ClientIdentityServerFacts)
    (registered : Option Bytes) : Type 0 where
  asked_before :
      Among offline_access server.scopes_supported
      → Among offline_access (scope_words scope)
      → scope_words registered ≡ scope_words scope
      → Registers scope server registered
  asks :
      Among offline_access server.scopes_supported
      → ¬ Among offline_access (scope_words scope)
      → scope_words registered ≡ scope_words scope ++ offline_access ∷ []
      → Registers scope server registered
  as_configured :
      ¬ Among offline_access server.scopes_supported
      → registered ≡ scope
      → Registers scope server registered

not-Among :
    (values : List Bytes) (word : Bytes) → contains values word ≡ false → ¬ Among word values
not-Among values word e k = ground (arith, e, (contains-Among values word).1 k)

-- Where the server offers offline access, the words of the registered scope are those of the
-- configured one, with `offline_access` behind them if it is not among them; where it does not, the
-- configured scope is registered as it is.
pub registration_scope-Registers :
    (scope : Option Bytes) (server : ClientIdentityServerFacts)
    → Registers scope server (registration_scope scope server)
unfolding registration_scope
registration_scope-Registers scope server =
    let words = scope_words scope in
    let again : (more : List Bytes)
        → All IsWord more
        → scope_words (some (join_scope more)) ≡ more =
      λ more h. split_scope-join_scope more h in
    let known = scope_words-AreWords scope in
    if-both (Registers scope server) (contains server.scopes_supported offline_access) _ _
      (λ offers.
        let offered = (contains-Among server.scopes_supported offline_access).0 offers in
        if-both (λ more. Registers scope server (some (join_scope more)))
          (contains words offline_access) _ _
          (λ e.
            asked_before offered ((contains-Among words offline_access).0 e) (again words known))
          (λ e. asks offered (not-Among words offline_access e) (
            again (words ++ offline_access ∷ [])
              (All-append IsWord words (offline_access ∷ []) known (ground arith, tt)))))
      (λ e. as_configured (not-Among server.scopes_supported offline_access e) refl)
