-- ===== src/Regex/Parser/State.antt =====
-- src/core/regex.cpp: the state of `Parser` and its small helpers. A method is a function of the
-- state that returns a value and the next state, or the reason of the `RegexError` that it throws;
-- the offset in the message is not modelled.
use mcp_cpp_sdk.Prelude.{
  ℕ, ◌+◌, ◌-◌, Bool, true, false, not, ◌&&◌, List, [], ◌∷◌, ◌++◌, leb, ◌==◌, if◌then◌else◌, length,
  get_or,
}
use mcp_cpp_sdk.Regex.Ranges.{Range, normalize}
use mcp_cpp_sdk.Regex.Node.{Kind, Node, default_node, RegexError, Result, ok, err}

pub record ParserState : Type 0 where
  pub text : List ℕ
  pub pos : ℕ
  pub nodes : List Node
  pub classes : List (List Range)

abbrev pub P : Type 0 → Type 0
P A = ParserState → Result (A × ParserState)

abbrev continue : {A B : Type 0} → Result (A × ParserState) → (A → P B) → Result (B × ParserState)
continue (ok (a, s)) f = f a s
continue (err e) f = err e

infixl 5 ◌>>=◌ ◌>>◌
abbrev pub ◌>>=◌ : {A B : Type 0} → P A → (A → P B) → P B
◌>>=◌ m f s = continue (m s) f

abbrev pub ◌>>◌ : {A B : Type 0} → P A → P B → P B
m >> k = m >>= λ _. k

abbrev pub pure : {A : Type 0} → A → P A
pure a s = ok (a, s)

abbrev pub fail : {A : Type 0} → RegexError → P A
fail e s = err e

abbrev pub peek : P ℕ
peek s = ok (get_or s.text s.pos 0, s)

-- `peek(1)`
abbrev pub peek_next : P ℕ
peek_next s = ok (get_or s.text (s.pos + 1) 0, s)

abbrev pub at_end : P Bool
at_end s = ok (leb (length s.text) s.pos, s)

abbrev pub accept : ℕ → P Bool
accept c s =
    if not (leb (length s.text) s.pos) && get_or s.text s.pos 0 == c
    then ok (true, record s { pos = s.pos + 1 })
    else ok (false, s)

-- `++pos_`
abbrev pub skip : P (Unit {0})
skip s = ok (tt, record s { pos = s.pos + 1 })

abbrev pub position : P ℕ
position s = ok (s.pos, s)

-- `pos_ = saved`
abbrev pub seek : ℕ → P (Unit {0})
seek saved s = ok (tt, record s { pos = saved })

-- The characters left, which bound the rounds of every loop.
abbrev pub remaining : P ℕ
remaining s = ok (length s.text - s.pos, s)

abbrev pub add : Node → P ℕ
add node s = ok (length s.nodes, record s { nodes = s.nodes ++ node ∷ [] })

abbrev pub add_class : List Range → P ℕ
add_class ranges s =
    add (record default_node { kind = Kind.class; class_index = length s.classes })
      (record s { classes = s.classes ++ normalize ranges ∷ [] })

abbrev pub add_char : ℕ → P ℕ
add_char c = add (record default_node { kind = Kind.char; code_point = c })
