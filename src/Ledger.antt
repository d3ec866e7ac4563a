-- ===== src/Ledger.antt =====
-- scripts/lib/changelog-ledger.mjs: the changelog cut into blocks and items. The regular expressions
-- on links are not modelled.
pub mod Laws
pub mod Releases
use key_cloak_sdk.Common.{
  ℕ, ◌+◌, Bool, true, false, ◌&&◌, ◌||◌, not, Option, none, some, List, [], ◌∷◌, ◌++◌, Str, lit,
  leb, if◌then◌else◌, ◌==◌, starts_with, all, str_eq,
}
use key_cloak_sdk.Config.{is_space}

-- The first line with its end, and the others, behind a character.
unfoldable pub push_char : ℕ → List Str → List Str
push_char c [] = (c ∷ []) ∷ []
push_char c (l ∷ ls) = if c == 10 then (c ∷ []) ∷ l ∷ ls else (c ∷ l) ∷ ls

-- `text.split(/(?<=\n)/)`, without the empty line of an empty text, which nothing is made of.
unfoldable pub lines : Str → List Str
unfolding push_char
lines [] = []
lines (c ∷ s) = push_char c (lines s)

-- `line.replace(/\r?\n$/, '')`
unfoldable pub without_end : Str → Str
without_end [] = []
without_end (c ∷ s) =
    let rest = without_end s in
    if str_eq (c ∷ s) (10 ∷ []) || str_eq (c ∷ s) (13 ∷ 10 ∷ []) then [] else c ∷ rest

pub record Block : Type 0 where
  pub heading : Str
  pub text : Str

-- The text before the first heading, and the blocks so far, the latest first.
pub record Parts : Type 0 where
  pub head : Str
  pub blocks : List Block

-- One round of the loop of `split`.
unfoldable pub split_line : Str → Parts → Parts
unfolding without_end
split_line line parts =
    if starts_with line (lit "## ")
    then record parts {
      blocks = (record { heading = without_end line; text = line }) ∷ parts.blocks;
    }
    else elim parts.blocks [
      | [] ↦ record parts { head = parts.head ++ line }
      | b ∷ bs ↦ record parts { blocks = (record b { text = b.text ++ line }) ∷ bs }
    ]

unfoldable pub split_lines : List Str → Parts → Parts
split_lines [] parts = parts
split_lines (l ∷ ls) parts = split_lines ls (split_line l parts)

-- `split(text)`, with the blocks in reverse.
unfoldable pub split : Str → Parts
split text = split_lines (lines text) (record { head = []; blocks = [] })

abbrev pub concat : List Str → Str
concat [] = []
concat (s ∷ ss) = s ++ concat ss

-- `head + blocks.map((b) => b.text).join('')`, which `assertSplitIdentity` compares with the text.
unfoldable pub blocks_text : List Block → Str
blocks_text [] = []
blocks_text (b ∷ bs) = blocks_text bs ++ b.text

unfoldable pub joined : Parts → Str
unfolding blocks_text
joined parts = parts.head ++ blocks_text parts.blocks

-- `/^\s*$/.test(line)`
unfoldable pub is_blank : Str → Bool
is_blank line = all is_space line

unfoldable pub is_digit : ℕ → Bool
is_digit c = leb 48 c && leb c 57

unfoldable pub starts_with_gap : Str → Bool
starts_with_gap [] = false
starts_with_gap (c ∷ s) = c == 32 || c == 9

-- `\d+[.)][ \t]` behind its first digit.
unfoldable pub numbered : Str → Bool
unfolding is_digit starts_with_gap
numbered [] = false
numbered (c ∷ s) =
    let rest = numbered s in if is_digit c then rest else (c == 46 || c == 41) && starts_with_gap s

-- `ITEM_START.test(line)`
unfoldable pub is_item_start : Str → Bool
unfolding is_digit starts_with_gap numbered
is_item_start [] = false
is_item_start (c ∷ s) =
    ((c == 45 || (c == 42 || c == 43)) && starts_with_gap s) || (is_digit c && numbered s)

-- The items so far, the latest first, and the one that is open.
pub record Items : Type 0 where
  pub out : List Str
  pub open_item : Option Str

-- `flush()`
unfoldable pub flush : Items → Items
flush s = elim s.open_item [ none ↦ s | some cur ↦ record { out = cur ∷ s.out; open_item = none } ]

-- One round of the loop of `itemsOf`.
unfoldable pub item_line : Str → Items → Items
unfolding flush
item_line line s =
    if starts_with line (lit "#")
    then record { out = line ∷ (flush s).out; open_item = none }
    else if is_blank line
    then flush s
    else if is_item_start line
    then record { out = (flush s).out; open_item = some line }
    else elim s.open_item [
      | none ↦ record s { open_item = some line }
      | some cur ↦ record s { open_item = some (cur ++ line) }
    ]

unfoldable pub item_lines : List Str → Items → Items
item_lines [] s = flush s
item_lines (l ∷ ls) s = item_lines ls (item_line l s)

-- `itemsOf(blockText)`, in reverse.
unfoldable pub items_of : Str → List Str
items_of text = (item_lines (lines text) (record { out = []; open_item = none })).out
