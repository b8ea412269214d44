-- ===== src/Auth/Form/Laws.antt =====
-- Decoding a form of src/auth/challenge.cpp undoes the encoding of src/auth/oauth.cpp.
use mcp_cpp_sdk.Prelude.{
  ℕ, zero, suc, ◌/◌, ◌%◌, ◌<◌, ◌≡◌, refl, ap, sym, subst, ◌∙◌, Bool, true, false, ◌&&◌, Option,
  none, some, [], ◌∷◌, ◌++◌, append-nil, ◌==◌, if◌then◌else◌, get_or, Bytes, All, arith, Bool-cases,
  inl, inr,
}
use mcp_cpp_sdk.Auth.Form.{
  hex_digits_upper, is_unreserved, url_encode, hex_value, decode_escape, form_decode,
}

abbrev is_some : Option ℕ → ℕ → Bool
is_some none n = false
is_some (some m) n = m == n

abbrev pub all_below : ℕ → (ℕ → Bool) → Bool
all_below zero p = true
all_below (suc n) p = p n && all_below n p

and_left : (a b : Bool) → (a && b) ≡ true → a ≡ true
and_left true b h = refl
and_left false b h = h

and_right : (a b : Bool) → (a && b) ≡ true → b ≡ true
and_right true b h = h
and_right false b h = ground arith

pub all_below-holds : (n : ℕ) (p : ℕ → Bool) → all_below n p ≡ true → (k : ℕ) → k < n → p k ≡ true
all_below-holds zero p h k lt = absurd (omega arith)
all_below-holds (suc n) p h k lt = elim (Bool-cases (k == n)) [
  | inl e ↦
      let eq : n ≡ k = ground (arith, e) in
      subst (λ m. p m ≡ true) eq (and_left (p n) (all_below n p) h)
  | inr e ↦ all_below-holds n p (and_right (p n) (all_below n p) h) k (ground (arith, e, lt))
]

is_some-eq : (o : Option ℕ) (n : ℕ) → is_some o n ≡ true → o ≡ some n
is_some-eq none n h = ground arith
is_some-eq (some m) n h = ground arith

hex_value-digit : (n : ℕ) → n < 16 → hex_value (get_or hex_digits_upper n 0) ≡ some n
hex_value-digit n h =
    is_some-eq (hex_value (get_or hex_digits_upper n 0)) n
      (all_below-holds 16 (λ k. is_some (hex_value (get_or hex_digits_upper k 0)) k) refl n h)

form_decode-escape :
    (h l byte : ℕ) (text : Bytes)
    → decode_escape h l ≡ some byte
    → form_decode (b'%' ∷ h ∷ l ∷ text) ≡ byte ∷ form_decode text
unfolding form_decode
form_decode-escape h l byte text e = rw (form_decode, e) refl

form_decode-plain :
    (c : ℕ) (text : Bytes) → is_unreserved c ≡ true → form_decode (c ∷ text) ≡ c ∷ form_decode text
unfolding form_decode
form_decode-plain c [] h = ground (arith, h)
form_decode-plain c (d ∷ []) h = ground (arith, h)
form_decode-plain c (d ∷ e ∷ text) h = ground (arith, h)

decode_escape-digits :
    (c : ℕ)
    → c < 256
    → decode_escape (get_or hex_digits_upper (c / 16) 0) (get_or hex_digits_upper (c % 16) 0)
      ≡ some c
decode_escape-digits c h =
    rw
      (
        decode_escape,
        hex_value-digit (c / 16) (omega arith),
        hex_value-digit (c % 16) (omega arith),
      )
      (ap some (omega arith))

-- What is decoded in front of another text.
form_decode-url_encode_append :
    (value text : Bytes)
    → All (λ c. c < 256) value
    → form_decode (url_encode value ++ text) ≡ value ++ form_decode text
unfolding url_encode
form_decode-url_encode_append [] text h = refl
form_decode-url_encode_append (c ∷ value) text h = elim (Bool-cases (is_unreserved c)) [
  | inl plain ↦
      rw (plain, if◌then◌else◌, form_decode-plain c (url_encode value ++ text) plain)
        (ap (λ t. c ∷ t) (form_decode-url_encode_append value text h.1))
  | inr other ↦
      rw (other, if◌then◌else◌)
        (form_decode-escape _ _ c (url_encode value ++ text) (decode_escape-digits c h.0)
          ∙ ap (λ t. c ∷ t) (form_decode-url_encode_append value text h.1))
]

pub form_decode-url_encode :
    (value : Bytes) → All (λ c. c < 256) value → form_decode (url_encode value) ≡ value
unfolding form_decode
form_decode-url_encode value h =
    ap form_decode (sym (append-nil (url_encode value)))
    ∙ form_decode-url_encode_append value [] h
    ∙ append-nil value
