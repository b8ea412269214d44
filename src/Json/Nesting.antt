-- ===== src/Json/Nesting.antt =====
-- `exceeds_json_depth` of src/detail/peer_json.hpp measures the nesting of a JSON value.
use mcp_cpp_sdk.Prelude.{
  ℕ, suc, ◌+◌, ◌-◌, ◌≤◌, ◌≡◌, refl, ap, sym, ◌∙◌, Bool, false, ◌||◌, List, [], ◌∷◌, ◌++◌,
  append_assoc, append-nil, max, ltb, ◌==◌, if◌then◌else◌, Bytes, All, arith, Bool-cases, inl, inr,
}
use mcp_cpp_sdk.Json.Syntax.{
  quote, backslash, Part, plain, escaped, parts_text, string_text, Json, scalar, string, array,
  object, Items, no_item, item, Members, no_member, member, dump, items_text, more_items,
  members_text, more_members, depth, items_depth, members_depth, IsScalarChar, IsPart, IsJson,
  AreItems, AreMembers, IsBlank, Gaps, AreGaps,
}
use mcp_cpp_sdk.Json.Depth.{
  outside, in_string, opens, closes, other, effect, exceeds_from, exceeds_json_depth,
}

module _ (max_depth : ℕ) where
  exceeds_from-other :
      (d c : ℕ) (text : Bytes)
      → effect c ≡ other
      → exceeds_from max_depth outside d (c ∷ text) ≡ exceeds_from max_depth outside d text
  unfolding exceeds_from
  exceeds_from-other d c text h = rw (exceeds_from, h) refl

  exceeds_from-scalar :
      (d : ℕ) (xs text : Bytes)
      → All IsScalarChar xs
      → exceeds_from max_depth outside d (xs ++ text) ≡ exceeds_from max_depth outside d text
  exceeds_from-scalar d [] text h = refl
  exceeds_from-scalar d (c ∷ xs) text h =
      exceeds_from-other d c (xs ++ text) (ground (arith, h.0)) ∙ exceeds_from-scalar d xs text h.1

  exceeds_from-plain :
      (d c : ℕ) (text : Bytes)
      → (c == quote || c == backslash) ≡ false
      → exceeds_from max_depth in_string d (c ∷ text) ≡ exceeds_from max_depth in_string d text
  unfolding exceeds_from
  exceeds_from-plain d c text h =
      let q : (c == 0x22) ≡ false = ground (arith, h) in
      let b : (c == 0x5C) ≡ false = ground (arith, h) in rw (exceeds_from, b, q, if◌then◌else◌) refl

  exceeds_from-parts :
      (d : ℕ) (ps : List Part) (text : Bytes)
      → All IsPart ps
      → exceeds_from max_depth in_string d (parts_text ps ++ quote ∷ text)
        ≡ exceeds_from max_depth outside d text
  unfolding exceeds_from
  exceeds_from-parts d [] text h = refl
  exceeds_from-parts d (plain c ∷ ps) text h =
      exceeds_from-plain d c (parts_text ps ++ quote ∷ text) h.0 ∙ exceeds_from-parts d ps text h.1
  exceeds_from-parts d (escaped c ∷ ps) text h = exceeds_from-parts d ps text h.1

  exceeds_from-string :
      (d : ℕ) (ps : List Part) (text : Bytes)
      → All IsPart ps
      → exceeds_from max_depth outside d (string_text ps ++ text)
        ≡ exceeds_from max_depth outside d text
  unfolding exceeds_from
  exceeds_from-string d ps text h =
      ap (exceeds_from max_depth in_string d) (append_assoc (parts_text ps) (quote ∷ []) text)
      ∙ exceeds_from-parts d ps text h

  -- What the text of a value of depth n in front of another does to the scan.
  abbrev Deepens : ℕ → Bytes → Type 0
  Deepens n xs =
      (d : ℕ) (text : Bytes)
      → d ≤ max_depth
      → exceeds_from max_depth outside d (xs ++ text)
        ≡ (ltb max_depth (d + n) || exceeds_from max_depth outside d text)

  ltb-max :
      (d m n : ℕ) (b : Bool)
      → (ltb max_depth (d + m) || (ltb max_depth (d + n) || b)) ≡ (ltb max_depth (d + max m n) || b)
  ltb-max d m n b = ground arith

  Deepens-append :
      (m n : ℕ) (xs ys : Bytes) → Deepens m xs → Deepens n ys → Deepens (max m n) (xs ++ ys)
  Deepens-append m n xs ys hx hy d text le =
      ap (exceeds_from max_depth outside d) (append_assoc xs ys text)
      ∙ hx d (ys ++ text) le
      ∙ ap (λ b. ltb max_depth (d + m) || b) (hy d text le)
      ∙ ltb-max d m n (exceeds_from max_depth outside d text)

  exceeds_from-opens :
      (d c : ℕ) (text : Bytes)
      → effect c ≡ opens
      → exceeds_from max_depth outside d (c ∷ text)
        ≡ (ltb max_depth (suc d) || exceeds_from max_depth outside (suc d) text)
  unfolding exceeds_from
  exceeds_from-opens d c text h = elim (Bool-cases (ltb max_depth (suc d))) [
    | inl e ↦ rw (exceeds_from, h, e) refl
    | inr e ↦ rw (exceeds_from, h, e) refl
  ]

  exceeds_from-closes :
      (d c : ℕ) (text : Bytes)
      → effect c ≡ closes
      → exceeds_from max_depth outside (suc d) (c ∷ text) ≡ exceeds_from max_depth outside d text
  unfolding exceeds_from
  exceeds_from-closes d c text h =
      let back : suc d - 1 ≡ d = omega arith in rw (exceeds_from, h, back) refl

  Deepens-nested :
      (n first last : ℕ) (xs : Bytes)
      → effect first ≡ opens
      → effect last ≡ closes
      → Deepens n xs
      → Deepens (suc n) (first ∷ (xs ++ last ∷ []))
  Deepens-nested n first last xs ho hc h d text le =
      let inner = exceeds_from max_depth outside d text in
      exceeds_from-opens d first ((xs ++ last ∷ []) ++ text) ho
      ∙ elim (Bool-cases (ltb max_depth (suc d))) [
        | inl e ↦ ground (arith, e)
        | inr e ↦
            let deep : exceeds_from max_depth outside (suc d) ((xs ++ last ∷ []) ++ text)
                ≡ (ltb max_depth (suc d + n) || inner) =
              ap (exceeds_from max_depth outside (suc d)) (append_assoc xs (last ∷ []) text)
              ∙ h (suc d) (last ∷ text) (ground (arith, e))
              ∙ ap (λ b. ltb max_depth (suc d + n) || b) (exceeds_from-closes d last text hc) in
            ground (arith, e, deep)
      ]

  -- What does not nest changes nothing in front.
  Deepens-flat :
      (n : ℕ) (xs ys : Bytes)
      → ((d : ℕ) (text : Bytes)
          → exceeds_from max_depth outside d (xs ++ text) ≡ exceeds_from max_depth outside d text)
      → Deepens n ys
      → Deepens n (xs ++ ys)
  Deepens-flat n xs ys hx hy d text le =
      ap (exceeds_from max_depth outside d) (append_assoc xs ys text)
      ∙ hx d (ys ++ text)
      ∙ hy d text le

  Deepens-nil : Deepens 0 []
  Deepens-nil d text le = ground (arith, le)

  Deepens-scalar : (xs : Bytes) → All IsScalarChar xs → Deepens 0 xs
  Deepens-scalar xs h d text le = exceeds_from-scalar d xs text h ∙ ground (arith, le)

  Deepens-string : (ps : List Part) → All IsPart ps → Deepens 0 (string_text ps)
  Deepens-string ps h d text le = exceeds_from-string d ps text h ∙ ground (arith, le)

  exceeds_from-blank :
      (d : ℕ) (blank text : Bytes)
      → All IsBlank blank
      → exceeds_from max_depth outside d (blank ++ text) ≡ exceeds_from max_depth outside d text
  exceeds_from-blank d [] text h = refl
  exceeds_from-blank d (c ∷ blank) text h =
      exceeds_from-other d c (blank ++ text) (ground (arith, h.0))
      ∙ exceeds_from-blank d blank text h.1

  Deepens-blank :
      (n : ℕ) (blank xs : Bytes) → All IsBlank blank → Deepens n xs → Deepens n (blank ++ xs)
  Deepens-blank n blank xs h hx =
      Deepens-flat n blank xs (λ d text. exceeds_from-blank d blank text h) hx

  -- Whitespace alone.
  Deepens-gap : (blank : Bytes) → All IsBlank blank → Deepens 0 blank
  Deepens-gap blank h d text le = exceeds_from-blank d blank text h ∙ ground (arith, le)

  -- An item with what stands behind it.
  Deepens-item :
      (m n : ℕ) (before value behind rest : Bytes)
      → All IsBlank before
      → All IsBlank behind
      → Deepens m value
      → Deepens n rest
      → Deepens (max m n) (before ++ (value ++ (behind ++ rest)))
  Deepens-item m n before value behind rest b1 b2 hv hr =
      Deepens-blank (max m n) before _ b1
        (Deepens-append m n value (behind ++ rest) hv (Deepens-blank n behind rest b2 hr))

  Deepens-member :
      (m n : ℕ) (gaps : Gaps) (key : List Part) (value rest : Bytes)
      → AreGaps gaps
      → All IsPart key
      → Deepens m value
      → Deepens n rest
      → Deepens (max m n) (
          gaps.before_key
          ++ (string_text key
              ++ (gaps.behind_key
                  ++ b':' ∷ (gaps.before_value ++ (value ++ (gaps.behind_value ++ rest))))))
  Deepens-member m n gaps key value rest (b1, (b2, (b3, b4))) h hv hr =
      Deepens-blank (max m n) gaps.before_key _ b1 (
        Deepens-flat (max m n) (string_text key) _ (λ d text. exceeds_from-string d key text h)
          (Deepens-blank (max m n) gaps.behind_key _ b2 (
            Deepens-flat (max m n) (b':' ∷ []) _ (λ d text. exceeds_from-other d b':' text refl)
              (Deepens-item m n gaps.before_value value gaps.behind_value rest b3 b4 hv hr))))

  Deepens-comma : (n : ℕ) (xs : Bytes) → Deepens n xs → Deepens n (b',' ∷ xs)
  Deepens-comma n xs h =
      Deepens-flat n (b',' ∷ []) xs (λ d text. exceeds_from-other d b',' text refl) h

  mutual
    Deepens-dump : (value : Json) → IsJson value → Deepens (depth value) (dump value)
    Deepens-dump (scalar c xs) h = Deepens-scalar (c ∷ xs) h
    Deepens-dump (string ps) h = Deepens-string ps h
    Deepens-dump (array items) h =
        Deepens-nested (items_depth items) b'[' b']' (items_text items) refl refl
          (Deepens-items items h)
    Deepens-dump (object members) h =
        Deepens-nested (members_depth members) b'{' b'}' (members_text members) refl refl
          (Deepens-members members h)

    Deepens-items :
        (items : Items) → AreItems items → Deepens (items_depth items) (items_text items)
    Deepens-items (no_item blank) h = Deepens-gap blank h
    Deepens-items (item before value behind rest) (b1, (b2, (h, hs))) =
        Deepens-item (depth value) (items_depth rest) before (dump value) behind (more_items rest)
          b1 b2 (Deepens-dump value h) (Deepens-more_items rest hs)

    Deepens-more_items :
        (items : Items) → AreItems items → Deepens (items_depth items) (more_items items)
    Deepens-more_items (no_item blank) h = Deepens-gap blank h
    Deepens-more_items (item before value behind rest) (b1, (b2, (h, hs))) =
        Deepens-comma (max (depth value) (items_depth rest)) _ (
          Deepens-item (depth value) (items_depth rest) before (dump value) behind (more_items rest)
            b1 b2 (Deepens-dump value h) (Deepens-more_items rest hs))

    Deepens-members :
        (members : Members)
        → AreMembers members
        → Deepens (members_depth members) (members_text members)
    Deepens-members (no_member blank) h = Deepens-gap blank h
    Deepens-members (member gaps key value rest) (g, (hk, (h, hs))) =
        Deepens-member (depth value) (members_depth rest) gaps key (dump value) (more_members rest)
          g hk (Deepens-dump value h) (Deepens-more_members rest hs)

    Deepens-more_members :
        (members : Members)
        → AreMembers members
        → Deepens (members_depth members) (more_members members)
    Deepens-more_members (no_member blank) h = Deepens-gap blank h
    Deepens-more_members (member gaps key value rest) (g, (hk, (h, hs))) =
        Deepens-comma (max (depth value) (members_depth rest)) _ (
          Deepens-member (depth value) (members_depth rest) gaps key (dump value)
            (more_members rest) g hk (Deepens-dump value h) (Deepens-more_members rest hs))

-- The text of a JSON value with any whitespace between its tokens, in front of it and behind it exceeds
-- a bound exactly if its arrays and objects nest deeper than the bound.
pub exceeds_json_depth-dump :
    (before behind : Bytes) (value : Json) (max_depth : ℕ)
    → All IsBlank before
    → All IsBlank behind
    → IsJson value
    → exceeds_json_depth (before ++ (dump value ++ behind)) max_depth ≡ ltb max_depth (depth value)
unfolding exceeds_json_depth exceeds_from
exceeds_json_depth-dump before behind value max_depth b1 b2 h =
    exceeds_from-blank max_depth 0 before (dump value ++ behind) b1
    ∙ Deepens-dump max_depth value h 0 behind (omega arith)
    ∙ ap (λ t. ltb max_depth (0 + depth value) || exceeds_from max_depth outside 0 t)
        (sym (append-nil behind))
    ∙ ap (λ b. ltb max_depth (0 + depth value) || b) (exceeds_from-blank max_depth 0 behind [] b2)
    ∙ ground arith
