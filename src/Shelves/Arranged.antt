-- ===== src/Shelves/Arranged.antt =====
-- What an arrangement lists.
use lumae_plugin.Prelude.{
  eq_comm, ℕ, ◌+◌, ◌≡◌, refl, ap, ◌∙◌, Bool, true, false, not, String, List, [], ◌∷◌, ◌++◌, inl,
  inr, map, if◌then◌else◌, ◌==◌, eq_iff, keep, ltb, All, Bool-cases, arith,
}
use lumae_plugin.Shelves.{Member, has_name}
use lumae_plugin.Shelves.Periods.{IsApart, AreApart, other_id}
use lumae_plugin.Shelves.Orders.{
  alias_of, or_else, distinct, stands_before, insert_member, sorted, is_id, ids_of, listed,
  arranged,
}

abbrev pub one_when : Bool → ℕ
one_when true = 1
one_when false = 0

-- How often an identifier is listed.
abbrev pub times : String → List String → ℕ
times i [] = 0
times i (x ∷ xs) = one_when (x == i) + times i xs

times-append : (i : String) (xs ys : List String) → times i (xs ++ ys) ≡ times i xs + times i ys
times-append i [] ys = omega arith
times-append i (x ∷ xs) ys = omega (arith, times-append i xs ys)

times-keep :
    (p : String → Bool) (i : String) (xs : List String)
    → times i (keep p xs) ≡ (if p i then times i xs else 0)
times-keep p i [] = ground arith
times-keep p i (x ∷ xs) = elim (Bool-cases (x == i)) [
  | inl e ↦ let same = ap p ((eq_iff x i).0 e) in ground (arith, times-keep p i xs)
  | inr e ↦ ground (arith, times-keep p i xs)
]

times-distinct : (i : String) (xs : List String) → times i (distinct xs) ≡ one_when (has_name i xs)
unfolding distinct
times-distinct i [] = refl
times-distinct i (x ∷ xs) =
    let rest = times-distinct i xs in
    let kept = times-keep (λ y. not (y == x)) i (distinct xs) in
    let c = eq_comm x i in ground (arith, rest, kept, c)

times-has_name : (i : String) (xs : List String) → has_name i xs ≡ ltb 0 (times i xs)
times-has_name i [] = refl
times-has_name i (x ∷ xs) = ground (arith, times-has_name i xs)

times-others :
    (i : String) (xs : List String) (members : List Member)
    → times i (ids_of (keep (λ m. not (has_name m.incoming.id xs)) members))
      ≡ (if has_name i xs then 0 else times i (ids_of members))
times-others i xs [] = ground arith
times-others i xs (m ∷ members) = elim (Bool-cases (m.incoming.id == i)) [
  | inl e ↦
      let same = ap (λ j. has_name j xs) ((eq_iff m.incoming.id i).0 e) in
      ground (arith, times-others i xs members)
  | inr e ↦ ground (arith, times-others i xs members)
]

times-insert_member :
    (i : String) (m : Member) (members : List Member)
    → times i (ids_of (insert_member m members))
      ≡ one_when (m.incoming.id == i) + times i (ids_of members)
unfolding insert_member
times-insert_member i m [] = refl
times-insert_member i m (x ∷ members) = elim (Bool-cases (stands_before m x)) [
  | inl e ↦ rw e refl
  | inr e ↦ rw e (omega (arith, times-insert_member i m members))
]

times-sorted :
    (i : String) (members : List Member)
    → times i (ids_of (sorted members)) ≡ times i (ids_of members)
unfolding sorted
times-sorted i [] = refl
times-sorted i (m ∷ members) =
    omega (arith, times-insert_member i m (sorted members), times-sorted i members)

keep-All :
    (P : Member → Type 0) (p : Member → Bool) (xs : List Member) → All P xs → All P (keep p xs)
keep-All P p [] a = tt
keep-All P p (x ∷ xs) a = elim (Bool-cases (p x)) [
  | inl e ↦ rw e (a.0, keep-All P p xs a.1)
  | inr e ↦ rw e (keep-All P p xs a.1)
]

pub keep-AreApart : (p : Member → Bool) (xs : List Member) → AreApart xs → AreApart (keep p xs)
keep-AreApart p [] a = tt
keep-AreApart p (x ∷ xs) a = elim (Bool-cases (p x)) [
  | inl e ↦ rw e (keep-All (IsApart x) p xs a.0, keep-AreApart p xs a.1)
  | inr e ↦ rw e (keep-AreApart p xs a.1)
]

no_other :
    (i : String) (x : Member) (xs : List Member)
    → (x.incoming.id == i) ≡ true
    → All (IsApart x) xs
    → times i (ids_of xs) ≡ 0
no_other i x [] e a = refl
no_other i x (y ∷ ys) e a =
    let differs = other_id x y a.0 in
    let same = ap (λ j. y.incoming.id == j) ((eq_iff x.incoming.id i).0 e) in
    ground (arith, no_other i x ys e a.1)

times-ids_of :
    (i : String) (xs : List Member) → AreApart xs → times i (ids_of xs) ≡ one_when (is_id xs i)
times-ids_of i [] a = refl
times-ids_of i (x ∷ xs) a = elim (Bool-cases (x.incoming.id == i)) [
  | inl e ↦ let none_more = no_other i x xs e a.0 in ground arith
  | inr e ↦ ground (arith, times-ids_of i xs a.1)
]

times-listed :
    (i : String) (ids : List String) (live : List Member)
    → times i (listed ids live) ≡ (
        if is_id live i
        then one_when (has_name i (map (λ j. or_else j (alias_of j live)) ids))
        else 0)
unfolding listed
times-listed i ids live =
    times-keep (is_id live) i (distinct (map (λ j. or_else j (alias_of j live)) ids))
    ∙ ap (λ n. if is_id live i then n else 0)
        (times-distinct i (map (λ j. or_else j (alias_of j live)) ids))

pub times-arranged :
    (i : String) (ids : List String) (live : List Member)
    → AreApart live
    → times i (arranged ids live) ≡ one_when (is_id live i)
unfolding arranged
times-arranged i ids live a =
    let l = times-listed i ids live in
    let h = times-has_name i (listed ids live) in
    let o = times-others i (listed ids live) (sorted live) in
    let s = times-sorted i live in
    let t = times-ids_of i live a in
    rw
      (
        times-append i (listed ids live)
            (ids_of (keep (λ m. not (has_name m.incoming.id (listed ids live))) (sorted live))),
        o,
      )
      (ground (arith, l, h, s, t))
