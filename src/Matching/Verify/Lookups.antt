-- ===== src/Matching/Verify/Lookups.antt =====
-- Reads and writes of the recordings, and what the tests of plugins/LumaeAnalysis/credits_matching.py
-- mean.
use lumae_plugin.Prelude.{
  ltb, suc, ◌-◌, ◌+◌, leb, ◌&&◌, ◌||◌, ℕ, ◌*◌, ◌≤◌, ◌≡◌, ◌≢◌, ◌⊎◌, inl, inr, refl, sym, ap, ◌∙◌,
  Bool, true, false, String, Option, none, some, List, [], ◌∷◌, ◌==◌, eq_iff, eq_apart, Has, any,
  map, if◌then◌else◌, Bool-cases, and_split, arith,
}
use lumae_plugin.Matching.{
  Duration, no_duration, unreadable, millis, ReleaseTrack, duration_matches, is_absent, distance,
  LocalTrack, Recording, all_among,
}
use lumae_plugin.Matching.Verify.{
  Recordings, is_some, is_false, put, lookup, number_differs, or_number, counted, is_true, too_few,
}

-- A read after a write.
pub lookup-put :
    (i j : String) (r : Recording) (rows : Recordings)
    → lookup j (put i r rows) ≡ (if i == j then some r else lookup j rows)
unfolding lookup put
lookup-put i j r [] = refl
lookup-put i j r (row ∷ rows) = elim (Bool-cases (row.0 == i)) [
  | inl e ↦
      let same : row.0 ≡ i = (eq_iff row.0 i).0 e in rw (e, ap (λ z. z == j) same) (ground arith)
  | inr e ↦ elim (Bool-cases (row.0 == j)) [
    | inl f ↦ rw (e, lookup-put i j r rows, f, eq_apart row.0 i j e f) refl
    | inr f ↦ rw (e, lookup-put i j r rows, f) refl
  ]
]

pub lookup-put_inv :
    (i j : String) (r c : Recording) (rows : Recordings)
    → lookup j (put i r rows) ≡ some c
    → ((i ≡ j) × (r ≡ c)) ⊎ (lookup j rows ≡ some c)
lookup-put_inv i j r c rows h =
    let read = sym (lookup-put i j r rows) ∙ h in
    elim (Bool-cases (i == j)) [
      | inl e ↦ (let same = rw e at read in inl ((eq_iff i j).0 e, cc))
      | inr e ↦ inr (rw e at read)
    ]

pub lookup-put_same :
    (i j : String) (r : Recording) (rows : Recordings) → i ≡ j → lookup j (put i r rows) ≡ some r
lookup-put_same i j r rows e = lookup-put i j r rows ∙ rw ((eq_iff i j).1 e) refl

pub lookup-put_keeps :
    (i j : String) (r c : Recording) (rows : Recordings)
    → lookup j rows ≡ some c
    → (c' : Recording) × (lookup j (put i r rows) ≡ some c')
lookup-put_keeps i j r c rows h = elim (Bool-cases (i == j)) [
  | inl e ↦ (r, lookup-put i j r rows ∙ rw e refl)
  | inr e ↦ (c, lookup-put i j r rows ∙ rw e h)
]

pub nothing : (i : String) (c : Recording) → lookup i [] ≢ some c
unfolding lookup
nothing i c h = cc

pub lookup-Has :
    (row : String × Recording) (rows : Recordings)
    → Has row rows
    → (c : Recording) × (lookup row.0 rows ≡ some c)
unfolding lookup
lookup-Has row [] m = elim m [ ]
lookup-Has row (r ∷ rows) m = elim (Bool-cases (r.0 == row.0)) [
  | inl e ↦ (r.1, rw e refl)
  | inr e ↦ elim m [
    | inl same ↦ absurd (let yes = (eq_iff r.0 row.0).1 (ap (λ z. z.0) (sym same)) in cc)
    | inr more ↦ (let (c, at) = lookup-Has row rows more in (c, rw e at))
  ]
]

pub any_eq-Has : (x : String) (ys : List String) → any (λ y. x == y) ys ≡ true → Has x ys
any_eq-Has x [] h = absurd cc
any_eq-Has x (y ∷ ys) h = elim (Bool-cases (x == y)) [
  | inl e ↦ inl ((eq_iff x y).0 e)
  | inr e ↦ inr (any_eq-Has x ys (rw e at h))
]

pub all_among-Has :
    (xs ys : List String) → all_among xs ys ≡ true → (x : String) → Has x xs → Has x ys
unfolding all_among
all_among-Has [] ys h z m = elim m [ ]
all_among-Has (x ∷ xs) ys h z (inl same) =
    let (k, rest) = and_split _ _ h in rw (same) (any_eq-Has x ys k)
all_among-Has (x ∷ xs) ys h z (inr more) =
    let (k, rest) = and_split _ _ h in all_among-Has xs ys rest z more

pub differs_not :
    (number other : Option ℕ) (default n : ℕ)
    → number_differs number other default ≡ false
    → number ≡ some n
    → n ≡ or_number other default
unfolding number_differs
differs_not none other default n h e = absurd cc
differs_not (some k) other default n h e = ground arith

pub false_not : (d : Option Bool) → is_false d ≡ false → d ≢ some false
unfolding is_false
false_not d h e = let no = rw e at h in absurd cc

pub is_some-some : {A : Type 0} (o : Option A) → is_some o ≡ true → (a : A) × (o ≡ some a)
unfolding is_some
is_some-some none h = absurd cc
is_some-some (some a) h = (a, refl)

pub counted≤1 : (d : Option Bool) → counted d ≤ 1
unfolding counted is_true
counted≤1 none = omega arith
counted≤1 (some true) = omega arith
counted≤1 (some false) = omega arith

pub too_few_not :
    (tracks n : ℕ) → too_few tracks n ≡ false → (2 ≤ tracks) × (2 ≤ n) × (7 * tracks ≤ 10 * n)
unfolding too_few
too_few_not tracks n h = (ground arith, ground arith, ground arith)

abbrev pub ids_of : List LocalTrack → List String
ids_of ls = map (λ l. l.id) ls

-- Two known durations within three seconds, or within two hundredths of the first.
abbrev pub is_close : Duration → Duration → Bool
is_close (millis a) (millis b) =
    ltb 0 a && (ltb 0 b && (leb ((a - b) + (b - a)) 3000 || leb (50 * ((a - b) + (b - a))) a))
is_close a b = false

-- How many tracks of the two lists, place by place, have close durations.
abbrev pub close_tracks : List LocalTrack → List ReleaseTrack → ℕ
close_tracks (l ∷ ls) (r ∷ rs) =
    let rest = close_tracks ls rs in if is_close l.duration r.duration then suc rest else rest
close_tracks _ _ = 0

pub counted-is_close :
    (a b : Duration) → counted (duration_matches a b) ≡ (if is_close a b then 1 else 0)
unfolding counted is_true duration_matches is_absent distance
counted-is_close (millis a) (millis b) = ground arith
counted-is_close no_duration b = refl
counted-is_close unreadable no_duration = refl
counted-is_close unreadable unreadable = refl
counted-is_close unreadable (millis b) = ground arith
counted-is_close (millis a) no_duration = ground arith
counted-is_close (millis a) unreadable = ground arith
