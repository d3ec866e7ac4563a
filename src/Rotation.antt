-- ===== src/Rotation.antt =====
-- scripts/changelog-rotate.mjs: what leaves the root of the changelog. A list of releases is the
-- oldest first, where the source has the newest first. What the script reads, its end at once for a
-- root within the limit, and the volumes that it writes are not modelled.
pub mod Laws
use key_cloak_sdk.Common.{
  ℕ, zero, suc, ◌+◌, ◌*◌, Bool, true, false, ◌&&◌, ◌||◌, not, Option, none, some, List, [], ◌∷◌,
  ◌++◌, Str, lit, if◌then◌else◌, ◌==◌, ltb, leb, length, map, includes, starts_with, str_eq, filter,
  join,
}
use key_cloak_sdk.Config.{strip_end}
use key_cloak_sdk.Ledger.{lines, concat, Block}
use key_cloak_sdk.Ledger.Releases.{Release}
use key_cloak_sdk.RepoConfig.Canonical.{str_le}

-- `ROOT_MAX_BYTES`
abbrev pub root_max_bytes : ℕ
root_max_bytes = 64 * 1024

-- `INDEX_PREFIX`
unfoldable pub index_prefix : Str
index_prefix = lit "> 이전 릴리스(월별 보관본): "

-- `bytes(s)`: the length in UTF-8, of code units; half a surrogate pair counts as U+FFFD.
unfoldable pub bytes : Str → ℕ
bytes [] = 0
bytes (c ∷ []) = if ltb c 128 then 1 else if ltb c 2048 then 2 else 3
bytes (c ∷ d ∷ s) =
    let one = bytes (d ∷ s) in
    let two = bytes s in
    if leb 55296 c && (ltb c 56320 && (leb 56320 d && ltb d 57344))
    then 4 + two
    else (if ltb c 128 then 1 else if ltb c 2048 then 2 else 3) + one

-- `volumePath(month)`
unfoldable pub volume_path : Str → Str
volume_path month = lit "changelog/" ++ (month ++ lit ".md")

unfoldable pub index_entry : Str → Str
unfolding volume_path
index_entry month = lit "[" ++ (month ++ (lit "](" ++ (volume_path month ++ lit ")")))

-- `indexLine(monthsDesc)`
unfoldable pub index_line : List Str → Str
unfolding index_prefix index_entry
index_line months = index_prefix ++ (join (lit " · ") (map index_entry months) ++ lit "\n")

-- `s.replace(/\n*$/, '\n\n')`
unfoldable pub ends_of_line : Str → Bool
ends_of_line [] = true
ends_of_line (c ∷ s) = c == 10 && ends_of_line s

unfoldable pub two_ends : Str → Str
unfolding ends_of_line
two_ends [] = lit "\n\n"
two_ends (c ∷ s) = let rest = two_ends s in if ends_of_line (c ∷ s) then lit "\n\n" else c ∷ rest

unfoldable pub with_index : Str → List Str → Str
unfolding two_ends index_line
with_index head [] = head
with_index head (m ∷ ms) = two_ends head ++ (index_line (m ∷ ms) ++ lit "\n")

unfoldable pub texts_of : List Release → Str
texts_of [] = []
texts_of (r ∷ rs) = texts_of rs ++ r.block.text

-- `renderRoot(releaseTexts, monthsDesc)`
unfoldable pub render_root : Str → Str → List Release → List Str → Str
unfolding with_index texts_of index_prefix
render_root head unreleased keep months =
    with_index (concat (filter (λ l. not (starts_with l index_prefix)) (lines head))) months
    ++ (unreleased ++ texts_of keep)

-- A month among months that descend, once.
unfoldable pub insert_month : Str → List Str → List Str
insert_month m [] = m ∷ []
insert_month m (n ∷ ms) =
    let later = insert_month m ms in
    if str_eq m n then n ∷ ms else if str_le n m then m ∷ n ∷ ms else n ∷ later

-- `monthsDesc()`, for the months of the volumes and the moved releases.
unfoldable pub months_desc : List Str → List Release → List Str
unfolding insert_month
months_desc [] [] = []
months_desc [] (r ∷ rs) = insert_month r.month (months_desc [] rs)
months_desc (v ∷ vs) rs = insert_month v (months_desc vs rs)

unfoldable pub all_dated : Str → List Release → Bool
all_dated d [] = true
all_dated d (r ∷ rs) = str_eq r.date d && all_dated d rs

-- `new Set(keep.map((b) => b.date)).size > 1`
unfoldable pub has_dates : List Release → Bool
unfolding all_dated
has_dates [] = false
has_dates (r ∷ rs) = not (all_dated r.date rs)

-- `while (keep.length && keep[keep.length - 1].date === oldest) group.unshift(keep.pop())`: the group
-- and the releases that are left.
unfoldable pub pop_group : Str → List Release → List Release × List Release
pop_group oldest [] = ([], [])
pop_group oldest (r ∷ rs) =
    let (group, left) = pop_group oldest rs in
    if str_eq r.date oldest then (r ∷ group, left) else ([], r ∷ rs)

-- The kept and the moved releases.
pub record Rotated : Type 0 where
  pub keep : List Release
  pub moved : List Release

-- The body of the loop, for the kept and the moved releases.
unfoldable pub move_oldest : List Release → List Release → Rotated
unfolding pop_group
move_oldest [] moved = record { keep = []; moved = moved }
move_oldest (r ∷ rs) moved =
    let (group, left) = pop_group r.date (r ∷ rs) in record { keep = left; moved = moved ++ group }

-- `head` and `unreleased` are the parts of the root before the releases, and `volumes` the months
-- that have a volume.
module _ (head unreleased : Str) (volumes : List Str) where
  -- `bytes(next) > ROOT_MAX_BYTES`
  unfoldable pub is_too_big : Rotated → Bool
  unfolding render_root months_desc bytes
  is_too_big s =
      ltb root_max_bytes (bytes (render_root head unreleased s.keep (months_desc volumes s.moved)))

  unfoldable pub rotate_loop : ℕ → Rotated → Rotated
  unfolding is_too_big has_dates move_oldest
  rotate_loop zero s = s
  rotate_loop (suc f) s =
      let next = rotate_loop f (move_oldest s.keep s.moved) in
      if is_too_big s && has_dates s.keep then next else s

  -- The loop of the script, with a round for each release at most.
  unfoldable pub rotate : List Release → Rotated
  unfolding rotate_loop
  rotate releases = rotate_loop (length releases) (record { keep = releases; moved = [] })
