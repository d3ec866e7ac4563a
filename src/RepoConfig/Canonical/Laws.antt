-- ===== src/RepoConfig/Canonical/Laws.antt =====
-- Settings that mean the same have the same normal form.
use key_cloak_sdk.Common.{◌≡◌, ◌≢◌, refl, ap, ◌∙◌, Bool, true, false, ◌⊎◌, Str, arith, includes}
use key_cloak_sdk.Values.Json.{
  Value, undefined, null, boolean, number, string, array, object, Elements, nil, cons, Members, end,
  member,
}
use key_cloak_sdk.RepoConfig.Canonical.{
  server_fields, insert_member, insert_element, canonical, canonical_elements, canonical_members,
  strip_comments, strip_elements, strip_members,
}
use key_cloak_sdk.RepoConfig.Canonical.Order.{str_le_total, str_le_trans, str_le_antisym}

-- The comparison tells the normal forms of two elements apart, or they are equal.
unfoldable pub AreTold : (Value → Value → Bool) → Value → Value → Type 0
AreTold before v w =
    (before (canonical before v) (canonical before w) ≡ false)
    ⊎ (before (canonical before w) (canonical before v) ≡ false)
    ⊎ (canonical before v ≡ canonical before w)

-- Two settings that mean the same: arrays in another order of elements that are told apart, objects
-- in another order of different keys, and fields of the server, at any depth.
module _ (before : Value → Value → Bool) where
  mutual
    pub data Same : Value → Value → Type 0 where
      unchanged : (v : Value) → Same v v
      in_array : {vs ws : Elements} → SameElements vs ws → Same (array vs) (array ws)
      in_object : {ms ns : Members} → SameMembers ms ns → Same (object ms) (object ns)

    pub data SameElements : Elements → Elements → Type 0 where
      both_nil : SameElements nil nil
      both_cons :
          {v w : Value} {vs ws : Elements}
          → Same v w
          → SameElements vs ws
          → SameElements (cons v vs) (cons w ws)
      swapped_elements :
          (v w : Value) (vs : Elements)
          → AreTold before v w
          → SameElements (cons v (cons w vs)) (cons w (cons v vs))
      then_elements :
          {us vs ws : Elements} → SameElements us vs → SameElements vs ws → SameElements us ws

    pub data SameMembers : Members → Members → Type 0 where
      both_end : SameMembers end end
      both_member :
          (k : Str) {v w : Value} {ms ns : Members}
          → Same v w
          → SameMembers ms ns
          → SameMembers (member k v ms) (member k w ns)
      swapped_members :
          {k l : Str} (v w : Value) (ms : Members)
          → k ≢ l
          → SameMembers (member k v (member l w ms)) (member l w (member k v ms))
      added :
          (k : Str) (v : Value) (ms : Members)
          → includes server_fields k ≡ true
          → SameMembers ms (member k v ms)
      dropped :
          (k : Str) (v : Value) (ms : Members)
          → includes server_fields k ≡ true
          → SameMembers (member k v ms) ms
      then_members :
          {ls ms ns : Members} → SameMembers ls ms → SameMembers ms ns → SameMembers ls ns

insert_member_swap :
    {k l : Str} (v w : Value) (ms : Members)
    → k ≢ l
    → insert_member k v (insert_member l w ms) ≡ insert_member l w (insert_member k v ms)
unfolding insert_member
insert_member_swap {k} {l} v w end d = ground (arith, str_le_total k l, str_le_antisym k l)
insert_member_swap {k} {l} v w (member j u ms) d = ground (
  arith,
  str_le_total k l,
  str_le_antisym k l,
  str_le_trans k l j,
  str_le_trans l k j,
  insert_member_swap v w ms d,
)

module _ (before : Value → Value → Bool) where
  insert_element_swap :
      (total : (a b : Value) → (before a b ≡ true) ⊎ (before b a ≡ true))
      (trans : (a b c : Value) → before a b ≡ true → before b c ≡ true → before a c ≡ true)
      (v w : Value) (vs : Elements)
      → (before v w ≡ false) ⊎ (before w v ≡ false) ⊎ (v ≡ w)
      → insert_element before v (insert_element before w vs)
        ≡ insert_element before w (insert_element before v vs)
  unfolding insert_element
  insert_element_swap total trans v w nil h = ground (arith, total v w)
  insert_element_swap total trans v w (cons u vs) h =
      ground (arith, total v w, trans v w u, trans w v u, insert_element_swap total trans v w vs h)

module _ (before : Value → Value → Bool)
    (total : (a b : Value) → (before a b ≡ true) ⊎ (before b a ≡ true))
    (trans : (a b c : Value) → before a b ≡ true → before b c ≡ true → before a c ≡ true) where
  mutual
    unfolding canonical canonical_elements canonical_members AreTold

    canonical-Same : {v w : Value} → Same before v w → canonical before v ≡ canonical before w
    canonical-Same (unchanged v) = refl
    canonical-Same (in_array s) = ap array (elements_same s)
    canonical-Same (in_object s) = ap object (members_same s)

    elements_same :
        {vs ws : Elements}
        → SameElements before vs ws
        → canonical_elements before vs ≡ canonical_elements before ws
    elements_same both_nil = refl
    elements_same (both_cons s t) = rw (canonical-Same s, elements_same t) refl
    elements_same (swapped_elements v w vs told) =
        insert_element_swap before total trans (canonical before v) (canonical before w)
          (canonical_elements before vs) told
    elements_same (then_elements s t) = elements_same s ∙ elements_same t

    members_same :
        {ms ns : Members}
        → SameMembers before ms ns
        → canonical_members before ms ≡ canonical_members before ns
    members_same both_end = refl
    members_same (both_member k s t) = rw (canonical-Same s, members_same t) refl
    members_same (swapped_members {k = k} {l = l} v w ms d) = ground (
      arith,
      insert_member_swap {k = k} {l = l} (canonical before v) (canonical before w)
          (canonical_members before ms) d,
    )
    members_same (added k v ms h) = rw h refl
    members_same (dropped k v ms h) = rw h refl
    members_same (then_members s t) = members_same s ∙ members_same t

-- Two settings that mean the same, up to the order of arrays and objects and to the fields of the
-- server at any depth, have the same normal form, where the comparison of elements is total and
-- transitive and tells apart the elements that change places, or these have equal normal forms.
pub canonical_same_lem :
    (before : Value → Value → Bool)
    → ((a b : Value) → (before a b ≡ true) ⊎ (before b a ≡ true))
    → ((a b c : Value) → before a b ≡ true → before b c ≡ true → before a c ≡ true)
    → (v w : Value) → Same before v w
    → canonical before v ≡ canonical before w
canonical_same_lem before total trans v w s = canonical-Same before total trans s

mutual
  unfolding strip_comments strip_elements strip_members

  strip_twice : (v : Value) → strip_comments (strip_comments v) ≡ strip_comments v
  strip_twice (array vs) = ap array (strip_elements_twice vs)
  strip_twice (object ms) = ap object (strip_members_twice ms)
  strip_twice undefined = refl
  strip_twice null = refl
  strip_twice (boolean b) = refl
  strip_twice (number n) = refl
  strip_twice (string s) = refl

  strip_elements_twice : (vs : Elements) → strip_elements (strip_elements vs) ≡ strip_elements vs
  strip_elements_twice nil = refl
  strip_elements_twice (cons v vs) = rw (strip_twice v, strip_elements_twice vs) refl

  strip_members_twice : (ms : Members) → strip_members (strip_members ms) ≡ strip_members ms
  strip_members_twice end = refl
  strip_members_twice (member k v ms) = ground (arith, strip_twice v, strip_members_twice ms)
