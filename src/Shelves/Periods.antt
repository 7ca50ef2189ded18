-- ===== src/Shelves/Periods.antt =====
-- Each identifier names one member, and a key has one live member at most.
use lumae_plugin.Prelude.{
  eq_comm, ◌≡◌, refl, sym, ◌∙◌, Bool, true, false, ◌&&◌, String, none, some, List, [], ◌∷◌, inl,
  inr, ◌⊎◌, ◌==◌, eq_iff, first, any, All, All-map, All-map₂, Bool-cases, arith,
}
use lumae_plugin.Shelves.{
  Kind, album, artist, same_kind, Incoming, Member, is_live, same_key, is_known_by, put_member,
}

-- No identifier names both, and they are not two live members of one key.
pub record IsApart (x y : Member) : Type 0 where
  pub names : (i : String) → (is_known_by i x && is_known_by i y) ≡ false
  pub periods : (is_live x && (is_live y && same_key y.incoming x.incoming)) ≡ false

abbrev pub AreApart : List Member → Type 0
AreApart [] = Unit
AreApart (x ∷ xs) = All (IsApart x) xs × AreApart xs

pub eq_refl : (a : String) → (a == a) ≡ true
eq_refl a = (eq_iff a a).1 refl

same_kind_comm : (a b : Kind) → same_kind a b ≡ same_kind b a
same_kind_comm album album = refl
same_kind_comm album artist = refl
same_kind_comm artist album = refl
same_kind_comm artist artist = refl

same_key_comm : (a b : Incoming) → same_key a b ≡ same_key b a
unfolding same_key
same_key_comm a b = rw (same_kind_comm a.kind b.kind, eq_comm a.entity_id b.entity_id) refl

IsApart-sym : (x y : Member) → IsApart x y → IsApart y x
IsApart-sym x y a = record {
  names = λ i. (let n = a.names i in ground arith);
  periods = (let p = a.periods in let c = same_key_comm x.incoming y.incoming in ground (arith, c));
}

pub known_by_id : (i : String) (m : Member) → (m.incoming.id == i) ≡ true → is_known_by i m ≡ true
unfolding is_known_by
known_by_id i m e = rw e refl

-- A member that is apart from another has another id.
pub other_id : (x y : Member) → IsApart x y → (y.incoming.id == x.incoming.id) ≡ false
other_id x y a = elim (Bool-cases (y.incoming.id == x.incoming.id)) [
  | inr e ↦ e
  | inl e ↦
      let own = known_by_id x.incoming.id x (eq_refl x.incoming.id) in
      let other = known_by_id x.incoming.id y e in
      let never = a.names x.incoming.id in absurd (ground arith)
]

some_injective : {a b : Member} → some a ≡ some b → a ≡ b
some_injective k = cc

pub first_all :
    (P : Member → Type 0) (p : Member → Bool) (xs : List Member) (m : Member)
    → first p xs ≡ some m
    → All P xs
    → P m
first_all P p [] m h a = absurd cc
first_all P p (x ∷ xs) m h a = elim (Bool-cases (p x)) [
  | inl e ↦ let same : x ≡ m = some_injective (rw e at h) in (rw same at a.0)
  | inr e ↦ first_all P p xs m (rw e at h) a.1
]

pub first-none :
    (p : Member → Bool) (xs : List Member) → first p xs ≡ none → All (λ y. p y ≡ false) xs
first-none p [] h = tt
first-none p (x ∷ xs) h = elim (Bool-cases (p x)) [
  | inl e ↦ absurd (let k = rw e at h in cc)
  | inr e ↦ (e, first-none p xs (rw e at h))
]

pub any-none : (p : Member → Bool) (xs : List Member) → any p xs ≡ false → All (λ y. p y ≡ false) xs
any-none p [] h = tt
any-none p (x ∷ xs) h = elim (Bool-cases (p x)) [
  | inl e ↦ absurd (let k = rw e at h in cc)
  | inr e ↦ (e, any-none p xs (rw e at h))
]

-- Every member is the one found, or apart from it.
pub others-IsApart :
    (p : Member → Bool) (xs : List Member) (m : Member)
    → AreApart xs
    → first p xs ≡ some m
    → All (λ y. (y ≡ m) ⊎ IsApart m y) xs
others-IsApart p [] m a h = tt
others-IsApart p (x ∷ xs) m a h = elim (Bool-cases (p x)) [
  | inl e ↦
      let same : x ≡ m = some_injective (rw e at h) in
      (inl same, All-map (λ y b. inr (rw same at b)) xs a.0)
  | inr e ↦ (
    inr (IsApart-sym x m (first_all (IsApart x) p xs m (rw e at h) a.0)),
    others-IsApart p xs m a.1 (rw e at h),
  )
]

pub put_member-All :
    (P : Member → Type 0) (m : Member) (xs : List Member) → P m → All P xs → All P (put_member m xs)
unfolding put_member
put_member-All P m [] n a = (n, tt)
put_member-All P m (x ∷ xs) n a = elim (Bool-cases (x.incoming.id == m.incoming.id)) [
  | inl e ↦ rw e (n, a.1)
  | inr e ↦ rw e (a.0, put_member-All P m xs n a.1)
]

-- What may stand beside a member that is put: the row of its id, or a member apart from it.
abbrev pub MayStand : Member → Member → Type 0
MayStand m y = ((y.incoming.id == m.incoming.id) ≡ true) ⊎ IsApart m y

standing :
    (m x y : Member)
    → (x.incoming.id == m.incoming.id) ≡ true
    → IsApart x y
    → MayStand m y
    → IsApart m y
standing m x y e a (inr b) = b
standing m x y e a (inl f) =
    let same : x.incoming.id ≡ y.incoming.id = (eq_iff _ _).0 e ∙ sym ((eq_iff _ _).0 f) in
    let yes = (eq_iff y.incoming.id x.incoming.id).1 (sym same) in
    let no = other_id x y a in absurd cc

pub put_member-AreApart :
    (m : Member) (xs : List Member) → All (MayStand m) xs → AreApart xs → AreApart (put_member m xs)
unfolding put_member
put_member-AreApart m [] c a = (tt, tt)
put_member-AreApart m (x ∷ xs) c a = elim (Bool-cases (x.incoming.id == m.incoming.id)) [
  | inl e ↦ rw e (All-map₂ (λ y b d. standing m x y e b d) xs a.0 c.1, a.1)
  | inr e ↦
      rw e (put_member-All (IsApart x) m xs (beside e c.0) a.0, put_member-AreApart m xs c.1 a.1)
]
  where
    beside : {m x : Member} → (x.incoming.id == m.incoming.id) ≡ false → MayStand m x → IsApart x m
    beside {m} {x} e (inr b) = IsApart-sym m x b
    beside {m} {x} e (inl f) = absurd cc

-- A member found, put again with its own id, when it is apart from what it was apart from.
pub put_found :
    (m n : Member) (p : Member → Bool) (xs : List Member)
    → AreApart xs
    → first p xs ≡ some m
    → n.incoming ≡ m.incoming
    → All (λ y. IsApart m y → IsApart n y) xs
    → AreApart (put_member n xs)
put_found m n p xs a h same keeps =
    put_member-AreApart n xs (All-map₂ (λ y o k. beside y o k) xs (others-IsApart p xs m a h) keeps)
      a
  where
    beside : (y : Member) → (y ≡ m) ⊎ IsApart m y → (IsApart m y → IsApart n y) → MayStand n y
    beside y (inl e) k = inl (rw (e, same) (eq_refl m.incoming.id))
    beside y (inr b) k = inr (k b)
