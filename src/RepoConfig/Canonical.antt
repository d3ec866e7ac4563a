-- ===== src/RepoConfig/Canonical.antt =====
-- scripts/repo-config.mjs: the normal form of a setting (SERVER_FIELDS and canonical) and the
-- comments of a definition (stripComments).
pub mod Order
pub mod Laws
use key_cloak_sdk.Common.{
  ℕ, Bool, true, false, ◌&&◌, ◌||◌, List, [], ◌∷◌, Str, lit, if◌then◌else◌, ◌==◌, ltb, includes,
  starts_with,
}
use key_cloak_sdk.Values.Json.{
  Value, undefined, null, boolean, number, string, array, object, Elements, nil, cons, Members, end,
  member,
}

-- The fields that GitHub makes and manages itself.
unfoldable pub server_fields : List Str
server_fields =
    lit "id"
    ∷ lit "node_id"
    ∷ lit "created_at"
    ∷ lit "updated_at"
    ∷ lit "source"
    ∷ lit "source_type"
    ∷ lit "_links"
    ∷ lit "current_user_can_bypass"
    ∷ []

-- The order of `Array.prototype.sort` on texts: by code units.
unfoldable pub str_le : Str → Str → Bool
str_le [] t = true
str_le (c ∷ s) [] = false
str_le (c ∷ s) (d ∷ t) = ltb c d || (c == d && str_le s t)

-- A member at its place among sorted members.
unfoldable pub insert_member : Str → Value → Members → Members
unfolding str_le
insert_member k v end = member k v end
insert_member k v (member l w ms) =
    let later = insert_member k v ms in
    if str_le k l then member k v (member l w ms) else member l w later

-- `before a b` is `JSON.stringify(a).localeCompare(JSON.stringify(b)) <= 0`.
module _ (before : Value → Value → Bool) where
  -- An element at its place among sorted elements.
  unfoldable pub insert_element : Value → Elements → Elements
  insert_element v nil = cons v nil
  insert_element v (cons w vs) =
      let later = insert_element v vs in if before v w then cons v (cons w vs) else cons w later

  -- `canonical(v)`
  unfoldable mutual
    pub canonical : Value → Value
    canonical (array vs) = array (canonical_elements vs)
    canonical (object ms) = object (canonical_members ms)
    canonical v = v

    pub canonical_elements : Elements → Elements
    canonical_elements nil = nil
    canonical_elements (cons v vs) = insert_element (canonical v) (canonical_elements vs)

    pub canonical_members : Members → Members
    canonical_members end = end
    canonical_members (member k v ms) =
        let others = canonical_members ms in
        let kept = insert_member k (canonical v) others in
        if includes server_fields k then others else kept

-- `stripComments(o)`
unfoldable mutual
  pub strip_comments : Value → Value
  strip_comments (array vs) = array (strip_elements vs)
  strip_comments (object ms) = object (strip_members ms)
  strip_comments v = v

  pub strip_elements : Elements → Elements
  strip_elements nil = nil
  strip_elements (cons v vs) = cons (strip_comments v) (strip_elements vs)

  pub strip_members : Members → Members
  strip_members end = end
  strip_members (member k v ms) =
      let others = strip_members ms in
      let kept = member k (strip_comments v) others in
      if starts_with k (lit "_") then others else kept
