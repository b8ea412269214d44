-- ===== src/Regex/Node.antt =====
-- src/core/regex.cpp: the parsed pattern. Nodes live in one list and refer to each other by index.
-- `RegexError` carries the reason; `out_of_fuel` is the model's own and stands for no error.
use mcp_cpp_sdk.Prelude.{ℕ, ◌≡◌, subst, Option, none, List, []}
use mcp_cpp_sdk.Regex.Program.{Op, input_start}

pub data Kind : Type 0 where
  empty char any class concat alternation repeat assertion : Kind

pub record Node : Type 0 where
  pub kind : Kind
  pub code_point : ℕ
  pub class_index : ℕ
  pub assertion : Op
  pub children : List ℕ
  pub min : ℕ
  pub max : Option ℕ

-- `Node{}`
abbrev pub default_node : Node
default_node = record {
  kind = Kind.empty;
  code_point = 0;
  class_index = 0;
  assertion = input_start;
  children = [];
  min = 0;
  max = none;
}

abbrev pub max_repeat_count : ℕ
max_repeat_count = 10000

abbrev pub max_nesting : ℕ
max_nesting = 64

abbrev pub max_program_size : ℕ
max_program_size = 20000

pub data RegexError : Type 0 where
  unmatched_parenthesis unexpected_character repetition_count numbers_out_of_order : RegexError
  nothing_to_repeat nested_too_deep lookahead lookbehind group_name invalid_group : RegexError
  missing_parenthesis invalid_hex code_point_range invalid_unicode_braces : RegexError
  escape_at_end octal_escape invalid_control property_escape backreference : RegexError
  unknown_escape missing_bracket range_out_of_order program_too_large out_of_fuel : RegexError

pub data Result {ℓ} (A : Type ℓ) : Type ℓ where
  ok : A → Result A
  err : RegexError → Result A

infixl 5 ◌>>=◌
abbrev pub ◌>>=◌ {ℓ κ} : {A : Type ℓ} {B : Type κ} → Result A → (A → Result B) → Result B
ok a >>= f = f a
err e >>= f = err e

-- What holds of the value when there is one.
abbrev pub Ensures {ℓ κ} : {A : Type ℓ} → Result A → (A → Type κ) → Type κ
Ensures (ok a) P = P a
Ensures (err e) P = Unit

pub Ensures-bind {ℓ κ λ₁ μ} :
    {A : Type ℓ} {B : Type κ} (P : A → Type λ₁) (Q : B → Type μ) (m : Result A) (f : A → Result B)
    → Ensures m P
    → ((a : A) → P a → Ensures (f a) Q)
    → Ensures (m >>= f) Q
Ensures-bind P Q (ok a) f h k = k a h
Ensures-bind P Q (err e) f h k = tt

pub Ensures-ok {ℓ κ} :
    {A : Type ℓ} (P : A → Type κ) (m : Result A) (a : A) → Ensures m P → m ≡ ok a → P a
Ensures-ok P (ok b) a h e = subst P (cc) h
Ensures-ok P (err x) a h e = cc
