-- ===== src/Json/Syntax.antt =====
-- The text of a JSON value, with any whitespace between its tokens, as a reference for the scanners of
-- src/detail.
use mcp_cpp_sdk.Prelude.{
  ℕ, suc, ◌≡◌, ◌||◌, Bool, true, false, not, ◌&&◌, List, [], ◌∷◌, ◌++◌, max, ◌==◌, Bytes, All,
}

abbrev pub quote : ℕ
quote = 0x22

abbrev pub backslash : ℕ
backslash = 0x5C

-- A character of a string, or a backslash and the character behind it.
pub data Part : Type 0 where
  plain escaped : ℕ → Part

abbrev pub part_text : Part → Bytes
part_text (plain c) = c ∷ []
part_text (escaped c) = backslash ∷ c ∷ []

abbrev pub parts_text : List Part → Bytes
parts_text [] = []
parts_text (p ∷ ps) = part_text p ++ parts_text ps

abbrev pub string_text : List Part → Bytes
string_text ps = quote ∷ (parts_text ps ++ quote ∷ [])

-- The whitespace around the key and the value of a member.
pub record Gaps : Type 0 where
  pub before_key : Bytes
  pub behind_key : Bytes
  pub before_value : Bytes
  pub behind_value : Bytes

abbrev pub no_gaps : Gaps
no_gaps = record { before_key = []; behind_key = []; before_value = []; behind_value = [] }

mutual
  pub data Json : Type 0 where
    scalar : ℕ → Bytes → Json
    string : List Part → Json
    array : Items → Json
    object : Members → Json

  -- The last item has whitespace behind it, an empty array has it between its brackets; a value has
  -- whitespace in front and behind.
  pub data Items : Type 0 where
    no_item : Bytes → Items
    item : Bytes → Json → Bytes → Items → Items

  pub data Members : Type 0 where
    no_member : Bytes → Members
    member : Gaps → List Part → Json → Members → Members

abbrev mutual
  pub dump : Json → Bytes
  dump (scalar c text) = c ∷ text
  dump (string ps) = string_text ps
  dump (array items) = b'[' ∷ (items_text items ++ b']' ∷ [])
  dump (object members) = b'{' ∷ (members_text members ++ b'}' ∷ [])

  pub items_text : Items → Bytes
  items_text (no_item blank) = blank
  items_text (item before value behind rest) = before ++ (dump value ++ (behind ++ more_items rest))

  pub more_items : Items → Bytes
  more_items (no_item blank) = blank
  more_items (item before value behind rest) =
      b',' ∷ (before ++ (dump value ++ (behind ++ more_items rest)))

  pub members_text : Members → Bytes
  members_text (no_member blank) = blank
  members_text (member gaps key value rest) =
      gaps.before_key
      ++ (string_text key
          ++ (gaps.behind_key
              ++ b':'
                ∷ (gaps.before_value ++ (dump value ++ (gaps.behind_value ++ more_members rest)))))

  pub more_members : Members → Bytes
  more_members (no_member blank) = blank
  more_members (member gaps key value rest) =
      b','
      ∷ (gaps.before_key
          ++ (string_text key
              ++ (gaps.behind_key
                  ++ b':'
                    ∷ (gaps.before_value
                        ++ (dump value ++ (gaps.behind_value ++ more_members rest))))))

-- How deep arrays and objects nest.
abbrev mutual
  pub depth : Json → ℕ
  depth (scalar c text) = 0
  depth (string ps) = 0
  depth (array items) = suc (items_depth items)
  depth (object members) = suc (members_depth members)

  pub items_depth : Items → ℕ
  items_depth (no_item blank) = 0
  items_depth (item before value behind rest) = max (depth value) (items_depth rest)

  pub members_depth : Members → ℕ
  members_depth (no_member blank) = 0
  members_depth (member gaps key value rest) = max (depth value) (members_depth rest)

-- The characters of a number or a literal: none that delimits a value or starts another.
abbrev pub is_scalar_char : ℕ → Bool
is_scalar_char c =
    not (
      c == b','
      || (c == b'}' || (c == b']' || (c == b' ' || (c == 0x09 || (c == 0x0D || c == 0x0A))))))
    && not (c == quote || (c == b'{' || c == b'['))

abbrev pub IsScalarChar : ℕ → Type 0
IsScalarChar c = is_scalar_char c ≡ true

abbrev pub IsPart : Part → Type 0
IsPart (plain c) = (c == quote || c == backslash) ≡ false
IsPart (escaped c) = Unit

-- A space, a tab, a line feed or a carriage return.
abbrev pub IsBlank : ℕ → Type 0
IsBlank c = (c == 0x20 || (c == 0x09 || (c == 0x0A || c == 0x0D))) ≡ true

abbrev pub AreGaps : Gaps → Type 0
AreGaps gaps =
    All IsBlank gaps.before_key
    × (All IsBlank gaps.behind_key
        × (All IsBlank gaps.before_value × All IsBlank gaps.behind_value))

-- The values whose scalars, strings and whitespace are well-formed.
abbrev mutual
  pub IsJson : Json → Type 0
  IsJson (scalar c text) = All IsScalarChar (c ∷ text)
  IsJson (string ps) = All IsPart ps
  IsJson (array items) = AreItems items
  IsJson (object members) = AreMembers members

  pub AreItems : Items → Type 0
  AreItems (no_item blank) = All IsBlank blank
  AreItems (item before value behind rest) =
      All IsBlank before × (All IsBlank behind × (IsJson value × AreItems rest))

  pub AreMembers : Members → Type 0
  AreMembers (no_member blank) = All IsBlank blank
  AreMembers (member gaps key value rest) =
      AreGaps gaps × (All IsPart key × (IsJson value × AreMembers rest))
