-- ===== src/Shelves/Replays.antt =====
-- A replayed add, at once or after any other changes, changes nothing.
use lumae_plugin.Prelude.{
  ◌≡◌, refl, ◌∙◌, Bool, true, false, String, Option, none, some, List, [], ◌∷◌, inl, inr, ◌⊎◌, ◌==◌,
  first, any, All, All-map, Bool-cases, arith,
}
use lumae_plugin.Json.{Number}
use lumae_plugin.Shelves.{
  Incoming, Member, Change, add, remove, restore, is_known_by, put_member, written, add_unknown,
  is_same_period, add_member, remove_member, is_rival, restore_member, apply_change,
}
use lumae_plugin.Shelves.Periods.{
  IsApart, AreApart, others-IsApart, first-none, other_id, eq_refl, known_by_id,
}
use lumae_plugin.Shelves.Changes.{
  with_alias, closed_at, fresh, known-with_alias, known-closed_at, apply_change-AreApart,
}

abbrev pub is_name : String → List Member → Bool
is_name i members = any (is_known_by i) members

put_knows :
    (i : String) (n : Member) (xs : List Member)
    → is_known_by i n ≡ true
    → is_name i (put_member n xs) ≡ true
unfolding put_member
put_knows i n [] k = rw k refl
put_knows i n (x ∷ xs) k = elim (Bool-cases (x.incoming.id == n.incoming.id)) [
  | inl e ↦ rw e (rw k refl)
  | inr e ↦ rw e (let rest = put_knows i n xs k in ground arith)
]

-- A put keeps an identifier that its member knows if the row it replaces knew it.
put_keeps :
    (i : String) (n : Member) (xs : List Member)
    → All
        (λ y.
          (y.incoming.id == n.incoming.id) ≡ true → is_known_by i y ≡ true → is_known_by i n ≡ true)
        xs
    → is_name i xs ≡ true
    → is_name i (put_member n xs) ≡ true
unfolding put_member
put_keeps i n [] c k = absurd cc
put_keeps i n (x ∷ xs) c k = elim (Bool-cases (x.incoming.id == n.incoming.id)) [
  | inl e ↦ rw e (elim (Bool-cases (is_known_by i x)) [
    | inl f ↦ (let new = c.0 e f in ground arith)
    | inr f ↦ (let old = rw f at k in ground arith)
  ])
  | inr e ↦ rw e (elim (Bool-cases (is_known_by i x)) [
    | inl f ↦ ground arith
    | inr f ↦ (let rest = put_keeps i n xs c.1 (rw f at k) in ground arith)
  ])
]

put_found_keeps :
    (i : String) (m n : Member) (p : Member → Bool) (xs : List Member)
    → AreApart xs
    → first p xs ≡ some m
    → n.incoming ≡ m.incoming
    → (is_known_by i m ≡ true → is_known_by i n ≡ true)
    → is_name i xs ≡ true
    → is_name i (put_member n xs) ≡ true
put_found_keeps i m n p xs a h same keeps =
    put_keeps i n xs (All-map beside xs (others-IsApart p xs m a h))
  where
    beside :
        (y : Member)
        → (y ≡ m) ⊎ IsApart m y
        → (y.incoming.id == n.incoming.id) ≡ true
        → is_known_by i y ≡ true
        → is_known_by i n ≡ true
    beside y (inl e) s k = keeps (rw e at k)
    beside y (inr b) s k = (let no = other_id m y b in let yes = rw same at s in absurd cc)

module _ (i : String) where
  add_unknown_keeps :
      (found : Option Member) (incoming : Incoming) (members : List Member)
      → first (is_known_by incoming.id) members ≡ none
      → first (is_same_period incoming) members ≡ found
      → AreApart members
      → is_name i members ≡ true
      → is_name i (add_unknown found incoming members).1 ≡ true
  unfolding add_unknown written
  add_unknown_keeps (some m) incoming members u f a =
      put_found_keeps i m (with_alias incoming.id m) _ members a f refl
        (λ k. rw (known-with_alias incoming.id i m, k) refl)
  add_unknown_keeps none incoming members u f a =
      put_keeps i (fresh incoming members) members
        (All-map unheard members (first-none _ members u))
    where
      unheard :
          (y : Member)
          → is_known_by incoming.id y ≡ false
          → (y.incoming.id == incoming.id) ≡ true
          → is_known_by i y ≡ true
          → is_known_by i (fresh incoming members) ≡ true
      unheard y n s k = (let yes = known_by_id incoming.id y s in absurd cc)

  add_member_keeps :
      (found : Option Member) (incoming : Incoming) (members : List Member)
      → first (is_known_by incoming.id) members ≡ found
      → AreApart members
      → is_name i members ≡ true
      → is_name i (add_member found incoming members).1 ≡ true
  unfolding add_member
  add_member_keeps (some m) incoming members f a k = k
  add_member_keeps none incoming members f a k = add_unknown_keeps _ incoming members f refl a k

  remove_member_keeps :
      (j : String) (found : Option Member) (at : Number) (members : List Member)
      → first (is_known_by j) members ≡ found
      → AreApart members
      → is_name i members ≡ true
      → is_name i (remove_member found at members).1 ≡ true
  unfolding remove_member written
  remove_member_keeps j none at members f a k = k
  remove_member_keeps j (some m) at members f a k =
      put_found_keeps i m (closed_at (some at) m) _ members a f refl
        (λ n. known-closed_at (some at) i m ∙ n) k

  restore_member_keeps :
      (j : String) (found : Option Member) (members : List Member)
      → first (is_known_by j) members ≡ found
      → AreApart members
      → is_name i members ≡ true
      → is_name i (restore_member found members).1 ≡ true
  unfolding restore_member written
  restore_member_keeps j none members f a k = k
  restore_member_keeps j (some m) members f a k = elim (Bool-cases (any (is_rival m) members)) [
    | inl e ↦ rw e (put_found_keeps i m m _ members a f refl (λ n. n) k)
    | inr e ↦ rw e (
        put_found_keeps i m (closed_at none m) _ members a f refl
          (λ n. known-closed_at none i m ∙ n) k)
  ]

  apply_change_keeps :
      (c : Change) (members : List Member)
      → AreApart members
      → is_name i members ≡ true
      → is_name i (apply_change c members).1 ≡ true
  unfolding apply_change
  apply_change_keeps (add incoming) members a k = add_member_keeps _ incoming members refl a k
  apply_change_keeps (remove j at) members a k = remove_member_keeps j _ at members refl a k
  apply_change_keeps (restore j) members a k = restore_member_keeps j _ members refl a k

pub apply_changes : List Change → List Member → List Member
apply_changes [] members = members
apply_changes (c ∷ cs) members = apply_changes cs (apply_change c members).1

apply_changes_keeps :
    (i : String) (cs : List Change) (members : List Member)
    → AreApart members
    → is_name i members ≡ true
    → is_name i (apply_changes cs members) ≡ true
unfolding apply_changes
apply_changes_keeps i [] members a k = k
apply_changes_keeps i (c ∷ cs) members a k =
    apply_changes_keeps i cs _ (apply_change-AreApart c members a)
      (apply_change_keeps i c members a k)

first_any :
    (i : String) (xs : List Member) (m : Member)
    → first (is_known_by i) xs ≡ some m
    → is_name i xs ≡ true
first_any i [] m h = absurd cc
first_any i (x ∷ xs) m h = elim (Bool-cases (is_known_by i x)) [
  | inl e ↦ rw e refl
  | inr e ↦ (let rest = first_any i xs m (rw e at h) in ground arith)
]

any_first :
    (i : String) (xs : List Member)
    → is_name i xs ≡ true
    → (m : Member) × (first (is_known_by i) xs ≡ some m)
any_first i [] h = absurd cc
any_first i (x ∷ xs) h = elim (Bool-cases (is_known_by i x)) [
  | inl e ↦ (x, rw e refl)
  | inr e ↦ (let rest = any_first i xs (rw e at h) in (rest.0, rw e rest.1))
]

add_unknown_knows :
    (found : Option Member) (incoming : Incoming) (members : List Member)
    → is_name incoming.id (add_unknown found incoming members).1 ≡ true
unfolding add_unknown written
add_unknown_knows (some m) incoming members =
    put_knows incoming.id (with_alias incoming.id m) members (
      let k = known-with_alias incoming.id incoming.id m in
      let e = eq_refl incoming.id in ground arith)
add_unknown_knows none incoming members =
    put_knows incoming.id (fresh incoming members) members
      (known_by_id incoming.id _ (eq_refl incoming.id))

add_member_knows :
    (found : Option Member) (incoming : Incoming) (members : List Member)
    → first (is_known_by incoming.id) members ≡ found
    → is_name incoming.id (add_member found incoming members).1 ≡ true
unfolding add_member
add_member_knows (some m) incoming members f = first_any incoming.id members m f
add_member_knows none incoming members f = add_unknown_knows _ incoming members

known_add :
    (incoming : Incoming) (members : List Member)
    → is_name incoming.id members ≡ true
    → (apply_change (add incoming) members).1 ≡ members
unfolding apply_change add_member
known_add incoming members k = let found = any_first incoming.id members k in rw found.1 refl

-- An add that comes again, at once or after any other changes of the shelf, changes nothing: it
-- brings back no member that was removed since, and adds no second one.
pub replayed_add :
    (incoming : Incoming) (cs : List Change) (members : List Member)
    → AreApart members
    → (apply_change (add incoming) (apply_changes cs (apply_change (add incoming) members).1)).1
      ≡ apply_changes cs (apply_change (add incoming) members).1
replayed_add incoming cs members a = known_add incoming _ (
    apply_changes_keeps incoming.id cs _ (apply_change-AreApart (add incoming) members a)
      (unfold apply_change in add_member_knows _ incoming members refl))
