-- ===== src/Ledger/Laws.antt =====
-- Nothing of the changelog is lost.
use key_cloak_sdk.Common.{
  ℕ, ◌≡◌, refl, sym, ap, ◌∙◌, Bool, true, false, Option, none, some, List, [], ◌∷◌, ◌++◌, Str, lit,
  arith, inl, inr, Bool-cases, if◌then◌else◌, append_assoc, append-nil, starts_with,
}
use key_cloak_sdk.Config.{is_space}
use key_cloak_sdk.Ledger.{
  lines, push_char, Block, Parts, split_line, split_lines, split, concat, blocks_text, joined,
  is_blank, is_item_start, Items, flush, item_line, item_lines, items_of,
}

push_char_lem : (c : ℕ) (ls : List Str) → concat (push_char c ls) ≡ c ∷ concat ls
unfolding push_char
push_char_lem c [] = refl
push_char_lem c (l ∷ ls) = ground arith

pub lines_lem : (text : Str) → concat (lines text) ≡ text
unfolding lines
lines_lem [] = refl
lines_lem (c ∷ s) = push_char_lem c (lines s) ∙ ap (λ t. c ∷ t) (lines_lem s)

on_blocks :
    (line head : Str) (bs : List Block) (is_heading : Bool)
    → starts_with line (lit "## ") ≡ is_heading
    → joined (split_line line (record { head = head; blocks = bs }))
      ≡ (head ++ blocks_text bs) ++ line
unfolding split_line joined blocks_text
on_blocks line head bs true h = rw h (sym (append_assoc head (blocks_text bs) line))
on_blocks line head [] false h =
    rw h (append-nil (head ++ line) ∙ ap (λ t. t ++ line) (sym (append-nil head)))
on_blocks line head (b ∷ bs) false h = rw h (
    ap (λ t. head ++ t) (sym (append_assoc (blocks_text bs) b.text line))
    ∙ sym (append_assoc head (blocks_text bs ++ b.text) line))

split_line_lem :
    (line : Str) (parts : Parts) → joined (split_line line parts) ≡ joined parts ++ line
unfolding joined
split_line_lem line parts = on_blocks line parts.head parts.blocks _ refl

split_lines_lem :
    (ls : List Str) (parts : Parts) → joined (split_lines ls parts) ≡ joined parts ++ concat ls
unfolding split_lines
split_lines_lem [] parts = sym (append-nil (joined parts))
split_lines_lem (l ∷ ls) parts =
    split_lines_lem ls (split_line l parts)
    ∙ ap (λ t. t ++ concat ls) (split_line_lem l parts)
    ∙ append_assoc (joined parts) l (concat ls)

-- The head and the blocks of the changelog, one behind the other, are its text to the byte, so
-- `assertSplitIdentity` never throws.
pub split_lem : (text : Str) → joined (split text) ≡ text
unfolding split joined blocks_text
split_lem text = split_lines_lem (lines text) (record { head = []; blocks = [] }) ∙ lines_lem text

-- The lines that are no blank lines.
abbrev pub kept_lines : List Str → List Str
kept_lines [] = []
kept_lines (l ∷ ls) = let rest = kept_lines ls in if is_blank l then rest else l ∷ rest

-- The items, the latest first, one behind the other.
abbrev pub items_text : List Str → Str
items_text [] = []
items_text (s ∷ ss) = items_text ss ++ s

abbrev open_text : Items → Str
open_text s = items_text s.out ++ elim s.open_item [ none ↦ [] | some cur ↦ cur ]

abbrev kept : Str → Str
kept line = if is_blank line then [] else line

flush_at :
    (out : List Str) (cur : Option Str)
    → items_text (flush (record { out = out; open_item = cur })).out
      ≡ open_text (record { out = out; open_item = cur })
unfolding flush
flush_at out none = sym (append-nil (items_text out))
flush_at out (some cur) = refl

flush_open :
    (out : List Str) (cur : Option Str)
    → open_text (flush (record { out = out; open_item = cur }))
      ≡ open_text (record { out = out; open_item = cur })
unfolding flush
flush_open out none = refl
flush_open out (some cur) = append-nil (items_text out ++ cur)

heading_is_kept : (line : Str) → starts_with line (lit "#") ≡ true → is_blank line ≡ false
unfolding starts_with is_blank is_space
heading_is_kept [] h = cc
heading_is_kept (c ∷ s) h = ground arith

continued :
    (line : Str) (out : List Str) (cur : Option Str)
    → open_text (elim cur as (λ _. Items) [
      | none ↦ record { out = out; open_item = some line }
      | some c ↦ record { out = out; open_item = some (c ++ line) }
    ])
      ≡ open_text (record { out = out; open_item = cur }) ++ line
continued line out none = rw (append-nil (items_text out)) refl
continued line out (some c) = sym (append_assoc (items_text out) c line)

item_line_lem : (line : Str) (s : Items) → open_text (item_line line s) ≡ open_text s ++ kept line
unfolding item_line
item_line_lem line s =
    let flushed : items_text (flush s).out ≡ open_text s = flush_at s.out s.open_item in
    elim (Bool-cases (starts_with line (lit "#"))) [
      | inl h ↦ rw (h, heading_is_kept line h) (append-nil _ ∙ ap (λ t. t ++ line) flushed)
      | inr h ↦ elim (Bool-cases (is_blank line)) [
        | inl b ↦ rw (h, b) (flush_open s.out s.open_item ∙ sym (append-nil (open_text s)))
        | inr b ↦ elim (Bool-cases (is_item_start line)) [
          | inl i ↦ rw (h, b, i) (ap (λ t. t ++ line) flushed)
          | inr i ↦ rw (h, b, i) (continued line s.out s.open_item)
        ]
      ]
    ]

kept_first :
    (l : Str) (ls : List Str) → kept l ++ concat (kept_lines ls) ≡ concat (kept_lines (l ∷ ls))
kept_first l ls = elim (Bool-cases (is_blank l)) [ inl b ↦ rw b refl | inr b ↦ rw b refl ]

item_lines_lem :
    (ls : List Str) (s : Items)
    → items_text (item_lines ls s).out ≡ open_text s ++ concat (kept_lines ls)
unfolding item_lines
item_lines_lem [] s = flush_at s.out s.open_item ∙ sym (append-nil (open_text s))
item_lines_lem (l ∷ ls) s =
    item_lines_lem ls (item_line l s)
    ∙ ap (λ t. t ++ concat (kept_lines ls)) (item_line_lem l s)
    ∙ append_assoc (open_text s) (kept l) (concat (kept_lines ls))
    ∙ ap (λ t. open_text s ++ t) (kept_first l ls)

-- The items of a block are, one behind the other, the lines of the block that are not blank: no
-- line escapes the limit on the length of an item.
pub items_lem : (text : Str) → items_text (items_of text) ≡ concat (kept_lines (lines text))
unfolding items_of
items_lem text = item_lines_lem (lines text) (record { out = []; open_item = none })
