-- ===== src/Http/EventStore/Decimal.antt =====
-- The decimal identifiers of include/mcp/transport/http_server.hpp differ.
use mcp_cpp_sdk.Prelude.{
  ℕ, zero, suc, ◌+◌, ◌-◌, ◌*◌, ◌/◌, ◌%◌, ◌<◌, ◌≡◌, refl, ap, sym, ◌∙◌, [], ◌∷◌, ◌++◌, ltb,
  if◌then◌else◌, Bytes, Bool-cases, inl, inr, arith,
}
use mcp_cpp_sdk.Http.EventStore.{digits, to_string}

-- The number that digits stand for, behind those read so far.
abbrev value_from : ℕ → Bytes → ℕ
value_from n [] = n
value_from n (c ∷ text) = value_from (n * 10 + (c - b'0')) text

value_from-append :
    (n c : ℕ) (text : Bytes) → value_from n (text ++ c ∷ []) ≡ value_from n text * 10 + (c - b'0')
value_from-append n c [] = refl
value_from-append n c (d ∷ text) = value_from-append (n * 10 + (d - b'0')) c text

value_from-digits : (fuel n : ℕ) → n < fuel → value_from 0 (digits fuel n) ≡ n
unfolding digits
value_from-digits zero n h = absurd (omega arith)
value_from-digits (suc fuel) n h = elim (Bool-cases (ltb n 10)) [
  | inl e ↦ rw (e, if◌then◌else◌) (omega arith)
  | inr e ↦
      rw (e, if◌then◌else◌)
        (value_from-append 0 (b'0' + n % 10) (digits fuel (n / 10))
          ∙ ap (λ v. v * 10 + ((b'0' + n % 10) - b'0'))
              (value_from-digits fuel (n / 10) (ground (arith, e, h)))
          ∙ omega arith)
]

pub to_string_injective : (m n : ℕ) → to_string m ≡ to_string n → m ≡ n
unfolding to_string
to_string_injective m n h =
    sym (value_from-digits (suc m) m (omega arith))
    ∙ ap (value_from 0) h
    ∙ value_from-digits (suc n) n (omega arith)
