-- ===== src/Matching/Choose/Editions.antt =====
-- What `choose_release` of plugins/LumaeAnalysis/credits_matching.py chooses among the releases.
use lumae_plugin.Prelude.{
  ◌≡◌, ◌⊎◌, inl, inr, refl, sym, ap, true, String, Option, none, some, List, [], ◌∷◌, eq_iff, Has,
  Bool-cases, and_split,
}
use lumae_plugin.Matching.{Recording}
use lumae_plugin.Matching.Verify.{Recordings, lookup}
use lumae_plugin.Matching.Verify.Lookups.{lookup-put_inv, nothing}
use lumae_plugin.Matching.Choose.{
  Edition, same_id, joined, put_values, values_at, all_have, agreed, put_agreed, shared,
  shared_recordings,
}

-- Whether every edition has this id's recording, with this MBID.
abbrev pub AllAgree : String → Recording → List Edition → Type 0
AllAgree i c [] = Unit
AllAgree i c (e ∷ es) =
    ((c' : Recording) × ((lookup i e.1.recordings ≡ some c') × (c'.id ≡ c.id))) × AllAgree i c es

-- Every edition has a recording for each of these ids.
abbrev pub AllComplete : List String → List Edition → Type 0
AllComplete ids [] = Unit
AllComplete ids (e ∷ es) =
    ((i : String) → Has i ids → (c : Recording) × (lookup i e.1.recordings ≡ some c))
    × AllComplete ids es

pub same_id-eq : (a b : Option String) → same_id a b ≡ true → a ≡ b
unfolding same_id
same_id-eq none none h = refl
same_id-eq none (some b) h = absurd cc
same_id-eq (some a) none h = absurd cc
same_id-eq (some a) (some b) h = ap (λ z. some z) ((eq_iff a b).0 h)

joined_inv :
    (o : Option Recording) (os : Option (List Recording)) (rs : List Recording)
    → joined o os ≡ some rs
    → (c : Recording) × ((rest : List Recording) × ((o ≡ some c)
          × ((os ≡ some rest) × (rs ≡ c ∷ rest))))
unfolding joined
joined_inv none os rs h = absurd cc
joined_inv (some c) none rs h = absurd cc
joined_inv (some c) (some rest) rs h = (c, (rest, (refl, (refl, cc))))

-- Every value of the editions has the id that they agree on.
values_at-AllAgree :
    (i : String) (c : Recording) (es : List Edition) (rs : List Recording)
    → values_at i es ≡ some rs
    → all_have c.id rs ≡ true
    → AllAgree i c es
unfolding values_at all_have
values_at-AllAgree i c [] rs h a = tt
values_at-AllAgree i c (e ∷ es) rs h a =
    let (c', (rest, (at, (more, same)))) =
      joined_inv (lookup i e.1.recordings) (values_at i es) rs h in
    let (first, others) = and_split (same_id c.id c'.id) (all_have c.id rest) (rw same at a) in
    ((c', (at, sym (same_id-eq c.id c'.id first))), values_at-AllAgree i c es rest more others)

pub values_at_returns :
    (ids : List String) (i : String) (es : List Edition)
    → Has i ids
    → AllComplete ids es
    → (rs : List Recording) × (values_at i es ≡ some rs)
unfolding values_at
values_at_returns ids i [] m a = ([], refl)
values_at_returns ids i (e ∷ es) m a =
    let (c, at) = a.0 i m in
    let (rs, rest) = values_at_returns ids i es m a.1 in
    (c ∷ rs, rw (at, rest) (unfold joined in refl))

same_id_refl : (a : Option String) → same_id a a ≡ true
unfolding same_id
same_id_refl none = refl
same_id_refl (some a) = (eq_iff a a).1 refl

agreed-AllAgree :
    (i : String) (es : List Edition) (rs : List Recording) (c : Recording)
    → values_at i es ≡ some rs
    → agreed rs ≡ some c
    → AllAgree i c es
unfolding agreed
agreed-AllAgree i es [] c e h = absurd cc
agreed-AllAgree i es (r ∷ rs) c e h = elim (Bool-cases (all_have r.id rs)) [
  | inl f ↦
      let read : some r ≡ some c = rw f at h in
      let same : r ≡ c = cc in
      rw (sym same)
        (values_at-AllAgree i r es (r ∷ rs) e (unfold all_have in (rw (same_id_refl r.id) f)))
  | inr f ↦ (let no = rw f at h in absurd cc)
]

-- What one turn of the loop writes is what all editions agree on.
put_agreed-AllAgree :
    (i j : String) (es : List Edition) (o : Option Recording) (recs : Recordings) (c : Recording)
    → ((r : Recording) → o ≡ some r → AllAgree i r es)
    → lookup j (put_agreed i o recs) ≡ some c
    → (lookup j recs ≡ some c) ⊎ AllAgree j c es
unfolding put_agreed
put_agreed-AllAgree i j es none recs c a h = inl h
put_agreed-AllAgree i j es (some r) recs c a h = elim (lookup-put_inv i j r c recs h) [
  | inl both ↦ inr (rw (sym both.0, sym both.1) (a r refl))
  | inr old ↦ inl old
]

put_values-AllAgree :
    (i : String) (es : List Edition) (os : Option (List Recording)) (recs : Option Recordings)
    → (recs' : Recordings) → values_at i es ≡ os
    → put_values i os recs ≡ some recs'
    → (before : Recordings) × ((recs ≡ some before)
        × ((j : String) (c : Recording)
            → lookup j recs' ≡ some c
            → (lookup j before ≡ some c) ⊎ AllAgree j c es))
unfolding put_values
put_values-AllAgree i es none recs recs' e h = absurd cc
put_values-AllAgree i es (some rs) none recs' e h = absurd cc
put_values-AllAgree i es (some rs) (some recs) recs' e h =
    let same : put_agreed i (agreed rs) recs ≡ recs' = cc in
    (
      recs,
      (
        refl,
        λ j c q.
            put_agreed-AllAgree i j es (agreed rs) recs c (λ r u. agreed-AllAgree i es rs r e u)
              (rw same q),
      ),
    )

shared-AllAgree :
    (rows : Recordings) (es : List Edition) (recs : Option Recordings) (recs' : Recordings)
    → shared rows es recs ≡ some recs'
    → (before : Recordings) × ((recs ≡ some before)
        × ((j : String) (c : Recording)
            → lookup j recs' ≡ some c
            → (lookup j before ≡ some c) ⊎ AllAgree j c es))
unfolding shared
shared-AllAgree [] es recs recs' h = (recs', (h, λ j c q. inl q))
shared-AllAgree (row ∷ rows) es recs recs' h =
    let (middle, (at, later)) = shared-AllAgree rows es _ recs' h in
    let (before, (start, now)) = put_values-AllAgree row.0 es _ recs middle refl at in
    (before, (start, λ j c q. elim (later j c q) [ inl m ↦ now j c m | inr a ↦ inr a ]))

pub shared_recordings-AllAgree :
    (es : List Edition) (recs : Recordings)
    → shared_recordings es ≡ some recs
    → (i : String) (c : Recording) → lookup i recs ≡ some c
    → AllAgree i c es
unfolding shared_recordings
shared_recordings-AllAgree [] recs h i c q = tt
shared_recordings-AllAgree (e ∷ es) recs h i c q =
    let (before, (start, all)) = shared-AllAgree e.1.recordings (e ∷ es) (some []) recs h in
    elim (all i c q) [
      | inl m ↦ absurd (let same : before ≡ [] = cc in nothing i c (rw same at m))
      | inr a ↦ a
    ]
