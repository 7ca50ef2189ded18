-- ===== src/Shelves/Changes.antt =====
-- What a run of changes means for a shelf.
use lumae_plugin.Prelude.{
  ◌≡◌, refl, ap, sym, ◌∙◌, false, ◌&&◌, ◌||◌, String, Option, none, some, List, [], ◌∷◌, ◌++◌, inl,
  inr, ◌==◌, eq_iff, first, any, All, All-map, All-map₂, Bool-cases, arith,
}
use lumae_plugin.Json.{Number}
use lumae_plugin.Shelves.{
  Incoming, Member, Change, add, remove, restore, has_name, is_known_by, written, add_unknown,
  is_same_period, add_member, remove_member, is_rival, restore_member, apply_change, next_position,
}
use lumae_plugin.Shelves.Periods.{
  IsApart, AreApart, put_found, put_member-AreApart, first-none, any-none, other_id,
}

has_name-append :
    (i j : String) (names : List String)
    → has_name j (names ++ i ∷ []) ≡ (has_name j names || i == j)
has_name-append i j [] = ground arith
has_name-append i j (name ∷ names) = ground (arith, has_name-append i j names)

abbrev pub with_alias : String → Member → Member
with_alias i m = record m { aliases = m.aliases ++ i ∷ [] }

pub known-with_alias :
    (i j : String) (m : Member) → is_known_by j (with_alias i m) ≡ (is_known_by j m || i == j)
unfolding is_known_by
known-with_alias i j m = ground (arith, has_name-append i j m.aliases)

-- Two names that cannot both be known, one of them the name of the unknown identifier.
new_name :
    (i j : String) (m y : Member)
    → is_known_by i y ≡ false
    → (is_known_by j m && is_known_by j y) ≡ false
    → ((is_known_by j m || i == j) && is_known_by j y) ≡ false
new_name i j m y u n = elim (Bool-cases (i == j)) [
  | inr e ↦ ground arith
  | inl e ↦
      let unknown : is_known_by j y ≡ false =
        ap (λ k. is_known_by k y) (sym ((eq_iff i j).0 e)) ∙ u in
      ground arith
]

alias-IsApart :
    (i : String) (m y : Member) → is_known_by i y ≡ false → IsApart m y → IsApart (with_alias i m) y
alias-IsApart i m y u a = record {
  names = λ j. rw (known-with_alias i j m) (new_name i j m y u (a.names j));
  periods = a.periods;
}

abbrev pub closed_at : Option Number → Member → Member
closed_at at m = record m { deleted_at = at }

pub known-closed_at :
    (at : Option Number) (i : String) (m : Member)
    → is_known_by i (closed_at at m) ≡ is_known_by i m
unfolding is_known_by
known-closed_at at i m = refl

removed-IsApart : (at : Number) (m y : Member) → IsApart m y → IsApart (closed_at (some at) m) y
removed-IsApart at m y a = record {
  names = λ j. rw (known-closed_at (some at) j m) (a.names j);
  periods = refl;
}

restored-IsApart :
    (m y : Member) → is_rival m y ≡ false → IsApart m y → IsApart (closed_at none m) y
restored-IsApart m y r a = record {
  names = λ j. rw (known-closed_at none j m) (a.names j);
  periods = let o = other_id m y a in ground arith;
}

abbrev pub fresh : Incoming → List Member → Member
fresh incoming members = record {
  incoming = incoming;
  position = next_position incoming.kind members;
  aliases = [];
  deleted_at = none;
}

fresh-IsApart :
    (incoming : Incoming) (members : List Member) (y : Member)
    → is_known_by incoming.id y ≡ false
    → is_same_period incoming y ≡ false
    → IsApart (fresh incoming members) y
fresh-IsApart incoming members y u s = record {
  names = λ j. elim (Bool-cases (incoming.id == j)) [
    | inl e ↦
        let unknown : is_known_by j y ≡ false =
          ap (λ k. is_known_by k y) (sym ((eq_iff incoming.id j).0 e)) ∙ u in
        ground arith
    | inr e ↦ unfold is_known_by in ground arith
  ];
  periods = ground arith;
}

add_unknown-AreApart :
    (found : Option Member) (incoming : Incoming) (members : List Member)
    → first (is_known_by incoming.id) members ≡ none
    → first (is_same_period incoming) members ≡ found
    → AreApart members
    → AreApart (add_unknown found incoming members).1
unfolding add_unknown written
add_unknown-AreApart (some m) incoming members u f a =
    put_found m (with_alias incoming.id m) _ members a f refl
      (All-map (λ y k. alias-IsApart incoming.id m y k) members (first-none _ members u))
add_unknown-AreApart none incoming members u f a =
    put_member-AreApart (fresh incoming members) members
      (All-map₂ (λ y k s. inr (fresh-IsApart incoming members y k s)) members
        (first-none _ members u) (first-none _ members f))
      a

add_member-AreApart :
    (found : Option Member) (incoming : Incoming) (members : List Member)
    → first (is_known_by incoming.id) members ≡ found
    → AreApart members
    → AreApart (add_member found incoming members).1
unfolding add_member
add_member-AreApart (some m) incoming members f a = a
add_member-AreApart none incoming members f a = add_unknown-AreApart _ incoming members f refl a

remove_member-AreApart :
    (i : String) (found : Option Member) (at : Number) (members : List Member)
    → first (is_known_by i) members ≡ found
    → AreApart members
    → AreApart (remove_member found at members).1
unfolding remove_member written
remove_member-AreApart i none at members f a = a
remove_member-AreApart i (some m) at members f a =
    put_found m (closed_at (some at) m) _ members a f refl (all members)
  where
    all : (ys : List Member) → All (λ y. IsApart m y → IsApart (closed_at (some at) m) y) ys
    all [] = tt
    all (y ∷ ys) = (removed-IsApart at m y, all ys)

restore_member-AreApart :
    (i : String) (found : Option Member) (members : List Member)
    → first (is_known_by i) members ≡ found
    → AreApart members
    → AreApart (restore_member found members).1
unfolding restore_member written
restore_member-AreApart i none members f a = a
restore_member-AreApart i (some m) members f a = elim (Bool-cases (any (is_rival m) members)) [
  | inl e ↦ rw e (put_found m m _ members a f refl (all members))
  | inr e ↦ rw e (
      put_found m (closed_at none m) _ members a f refl
        (All-map (λ y r. restored-IsApart m y r) members (any-none _ members e)))
]
  where
    all : (ys : List Member) → All (λ y. IsApart m y → IsApart m y) ys
    all [] = tt
    all (y ∷ ys) = ((λ b. b), all ys)

-- Every add, remove and restore, whatever its answer, keeps a shelf on which no identifier names two
-- members, by id or by alias, and no two live members have one kind and entity.
pub apply_change-AreApart :
    (c : Change) (members : List Member) → AreApart members → AreApart (apply_change c members).1
unfolding apply_change
apply_change-AreApart (add incoming) members a = add_member-AreApart _ incoming members refl a
apply_change-AreApart (remove i at) members a = remove_member-AreApart i _ at members refl a
apply_change-AreApart (restore i) members a = restore_member-AreApart i _ members refl a
