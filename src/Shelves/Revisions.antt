-- ===== src/Shelves/Revisions.antt =====
-- The revision protocol of a shelf's arrangements.
use lumae_plugin.Prelude.{
  ℕ, suc, ◌≤◌, ◌≡◌, refl, ap, ◌∙◌, true, false, String, List, [], ◌∷◌, inl, inr, nat_eq, nat_eq_iff,
  Bool-cases, arith,
}
use lumae_plugin.Shelves.{Kind, album, artist, same_kind, Member}
use lumae_plugin.Shelves.Periods.{AreApart}
use lumae_plugin.Shelves.Orders.{
  Arrangement, arrangement, order_conflict, stored_order, put_order, available, is_id, arranged,
  apply_order,
}
use lumae_plugin.Shelves.Arranged.{one_when, times, times-arranged, keep-AreApart}

same_kind_refl : (k : Kind) → same_kind k k ≡ true
same_kind_refl album = refl
same_kind_refl artist = refl

abbrev next_order : Kind → List String → List Member → List Arrangement → Arrangement
next_order kind ids members orders = record {
  kind = kind;
  ids = arranged ids (available kind members);
  revision = suc (stored_order kind orders).revision;
}

order_accepted :
    (kind : Kind) (ids : List String) (base : ℕ) (members : List Member) (orders : List Arrangement)
    → nat_eq (stored_order kind orders).revision base ≡ true
    → apply_order kind ids base members orders ≡ (
      arrangement (next_order kind ids members orders),
      put_order (next_order kind ids members orders) orders,
    )
unfolding apply_order
order_accepted kind ids base members orders e = rw e refl

order_refused :
    (kind : Kind) (ids : List String) (base : ℕ) (members : List Member) (orders : List Arrangement)
    → nat_eq (stored_order kind orders).revision base ≡ false
    → apply_order kind ids base members orders ≡ (order_conflict (stored_order kind orders), orders)
unfolding apply_order
order_refused kind ids base members orders e = rw e refl

-- An accepted order was based on the stored revision, and stores the next arrangement.
accepted_is :
    (kind : Kind) (ids : List String) (base : ℕ) (members : List Member)
    (orders after : List Arrangement) (o : Arrangement)
    → apply_order kind ids base members orders ≡ (arrangement o, after)
    → ((stored_order kind orders).revision ≡ base)
      × (o ≡ next_order kind ids members orders)
      × (after ≡ put_order o orders)
accepted_is kind ids base members orders after o h =
    elim (Bool-cases (nat_eq (stored_order kind orders).revision base)) [
      | inl e ↦
          let applied = order_accepted kind ids base members orders e in
          let same : o ≡ next_order kind ids members orders = cc in
          let rest : after ≡ put_order (next_order kind ids members orders) orders = cc in
          ((nat_eq_iff _ _).0 e, same, rw same rest)
      | inr e ↦ absurd (let refused = order_refused kind ids base members orders e in cc)
    ]

stored-put_order :
    (o : Arrangement) (orders : List Arrangement) → stored_order o.kind (put_order o orders) ≡ o
unfolding stored_order put_order
stored-put_order o [] = rw (same_kind_refl o.kind) refl
stored-put_order o (x ∷ orders) = elim (Bool-cases (same_kind x.kind o.kind)) [
  | inl e ↦ rw (e, same_kind_refl o.kind) refl
  | inr e ↦ rw (e, e) (stored-put_order o orders)
]

same_kind_eq : (j k : Kind) → same_kind j k ≡ true → j ≡ k
same_kind_eq album album h = refl
same_kind_eq artist artist h = refl
same_kind_eq album artist h = absurd cc
same_kind_eq artist album h = absurd cc

same_kind_comm : (j k : Kind) → same_kind j k ≡ same_kind k j
same_kind_comm album album = refl
same_kind_comm artist artist = refl
same_kind_comm album artist = refl
same_kind_comm artist album = refl

-- The arrangements of the other kinds stay.
stored-put_order_other :
    (k : Kind) (o : Arrangement) (orders : List Arrangement)
    → same_kind k o.kind ≡ false
    → stored_order k (put_order o orders) ≡ stored_order k orders
unfolding stored_order put_order
stored-put_order_other k o [] other = rw (same_kind_comm o.kind k, other) refl
stored-put_order_other k o (x ∷ orders) other = elim (Bool-cases (same_kind x.kind o.kind)) [
  | inl e ↦
      let apart : same_kind o.kind k ≡ false = same_kind_comm o.kind k ∙ other in
      let same = same_kind_eq x.kind o.kind e in
      rw (e, apart, ap (λ z. same_kind z k) same, apart) refl
  | inr e ↦ elim (Bool-cases (same_kind x.kind k)) [
    | inl f ↦ rw (e, f) refl
    | inr f ↦ rw (e, f) (stored-put_order_other k o orders other)
  ]
]

-- On a shelf whose members are apart, an accepted order, whatever identifiers it was sent, answers
-- with an arrangement that lists every live member of its kind exactly once and nothing else, under
-- the revision after the one that it was based on. That arrangement is stored for its kind, and the
-- other kinds keep theirs.
pub apply_order-lists_each :
    (kind : Kind) (ids : List String) (base : ℕ) (members : List Member)
    (orders after : List Arrangement) (o : Arrangement)
    → AreApart members
    → apply_order kind ids base members orders ≡ (arrangement o, after)
    → ((i : String) → times i o.ids ≡ one_when (is_id (available kind members) i))
      × ((o.revision ≡ suc base)
          × ((stored_order kind after ≡ o)
              × ((k : Kind)
                  → same_kind k kind ≡ false
                  → stored_order k after ≡ stored_order k orders)))
apply_order-lists_each kind ids base members orders after o a h =
    let (based, same, rest) = accepted_is kind ids base members orders after o h in
    let kind_is : o.kind ≡ kind = ap (λ v. v.kind) same in
    (
      λ i. rw same (times-arranged i ids (available kind members) (live_apart kind members a)),
      (
        rw same (ap suc based),
        (
          rw (rest, ← kind_is) (stored-put_order o orders),
          λ k other. rw rest (stored-put_order_other k o orders (rw kind_is other)),
        ),
      ),
    )
  where
    live_apart :
        (kind : Kind) (members : List Member) → AreApart members → AreApart (available kind members)
    live_apart kind members a = unfold available in keep-AreApart _ members a

-- A request to arrange a kind.
pub record Request : Type 0 where
  pub kind : Kind
  pub ids : List String
  pub base : ℕ
  pub members : List Member

-- The arrangements after requests, each with the members of its time.
pub order_all : List Request → List Arrangement → List Arrangement
order_all [] orders = orders
order_all (q ∷ qs) orders = order_all qs (apply_order q.kind q.ids q.base q.members orders).1

-- No request lowers the revision of a kind.
revision_grows :
    (k : Kind) (q : Request) (orders : List Arrangement)
    → (stored_order k orders).revision
      ≤ (stored_order k (apply_order q.kind q.ids q.base q.members orders).1).revision
revision_grows k q orders =
    elim (Bool-cases (nat_eq (stored_order q.kind orders).revision q.base)) [
      | inr e ↦ rw (order_refused q.kind q.ids q.base q.members orders e) (omega arith)
      | inl e ↦
          let next = next_order q.kind q.ids q.members orders in
          rw (order_accepted q.kind q.ids q.base q.members orders e)
            (elim (Bool-cases (same_kind k q.kind)) [
              | inl f ↦ rw (same_kind_eq k q.kind f, stored-put_order next orders) (omega arith)
              | inr f ↦ rw (stored-put_order_other k next orders f) (omega arith)
            ])
    ]

order_all_grows :
    (k : Kind) (qs : List Request) (orders : List Arrangement)
    → (stored_order k orders).revision ≤ (stored_order k (order_all qs orders)).revision
unfolding order_all
order_all_grows k [] orders = omega arith
order_all_grows k (q ∷ qs) orders =
    let first = revision_grows k q orders in
    let rest = order_all_grows k qs (apply_order q.kind q.ids q.base q.members orders).1 in
    omega arith

-- After an accepted order and any further orders of any kinds, accepted or not, an order of the same
-- kind that is based on the same revision is refused, it changes nothing, and the refusal shows the
-- arrangement that is stored then.
pub order_no_lost_update :
    (kind : Kind) (ids ids' : List String) (base : ℕ) (members members' : List Member)
    (orders after : List Arrangement) (o : Arrangement) (qs : List Request)
    → apply_order kind ids base members orders ≡ (arrangement o, after)
    → apply_order kind ids' base members' (order_all qs after)
      ≡ (order_conflict (stored_order kind (order_all qs after)), order_all qs after)
order_no_lost_update kind ids ids' base members members' orders after o qs h =
    let (based, same, rest) = accepted_is kind ids base members orders after o h in
    let kind_is : o.kind ≡ kind = ap (λ v. v.kind) same in
    let found : stored_order kind after ≡ o = rw (rest, ← kind_is) (stored-put_order o orders) in
    let revised : o.revision ≡ suc base = (rw same (ap suc based)) in
    let now : (stored_order kind after).revision ≡ suc base = rw found revised in
    let grown = order_all_grows kind qs after in
    let stale : nat_eq (stored_order kind (order_all qs after)).revision base ≡ false =
      ground arith in
    order_refused kind ids' base members' (order_all qs after) stale
