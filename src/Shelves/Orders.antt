-- ===== src/Shelves/Orders.antt =====
-- The arrangement of a shelf (`apply_mutation` of plugins/LumaeAnalysis/shelves.py, its operation
-- order). The list of arrangements is one scope's rows of type order, one for each kind.
use Prim.Native.String.{compare}
use text.Mathlib.Text.{is_le}
use lumae_plugin.Prelude.{
  ℕ, suc, Bool, ◌&&◌, ◌||◌, not, String, Option, none, some, List, [], ◌∷◌, ◌++◌, map,
  if◌then◌else◌, ◌==◌, first, any, keep, ltb, nat_eq,
}
use lumae_plugin.Shelves.{Kind, same_kind, Member, is_live, has_name}

pub record Arrangement : Type 0 where
  pub kind : Kind
  pub ids : List String
  pub revision : ℕ

-- The arrangement stored with status 200, or "order_conflict" with 409 and the current one.
pub data OrderAnswer : Type 0 where
  arrangement : Arrangement → OrderAnswer
  order_conflict : Arrangement → OrderAnswer

abbrev pub or_first : Kind → Option Arrangement → Arrangement
or_first kind none = record { kind = kind; ids = []; revision = 0 }
or_first kind (some o) = o

unfoldable pub stored_order : Kind → List Arrangement → Arrangement
stored_order kind orders = or_first kind (first (λ o. same_kind o.kind kind) orders)

unfoldable pub put_order : Arrangement → List Arrangement → List Arrangement
put_order o [] = o ∷ []
put_order o (x ∷ orders) = if same_kind x.kind o.kind then o ∷ orders else x ∷ put_order o orders

unfoldable pub available : Kind → List Member → List Member
available kind members = keep (λ m. same_kind m.incoming.kind kind && is_live m) members

abbrev pub else_alias : Option String → Bool → String → Option String
else_alias (some id) named own = some id
else_alias none named own = if named then some own else none

-- `aliases`, where a later member overrides an earlier one.
unfoldable pub alias_of : String → List Member → Option String
alias_of i [] = none
alias_of i (m ∷ members) = else_alias (alias_of i members) (has_name i m.aliases) m.incoming.id

abbrev pub or_else : String → Option String → String
or_else i none = i
or_else i (some id) = id

-- `list(dict.fromkeys(…))`
unfoldable pub distinct : List String → List String
distinct [] = []
distinct (x ∷ xs) = x ∷ keep (λ y. not (y == x)) (distinct xs)

-- By position, then by id.
unfoldable pub stands_before : Member → Member → Bool
stands_before a b =
    ltb a.position b.position
    || (nat_eq a.position b.position && is_le (compare a.incoming.id b.incoming.id))

unfoldable pub insert_member : Member → List Member → List Member
insert_member m [] = m ∷ []
insert_member m (x ∷ members) =
    if stands_before m x then m ∷ x ∷ members else x ∷ insert_member m members

unfoldable pub sorted : List Member → List Member
unfolding insert_member
sorted [] = []
sorted (m ∷ members) = insert_member m (sorted members)

abbrev pub is_id : List Member → String → Bool
is_id members i = any (λ m. m.incoming.id == i) members

abbrev pub ids_of : List Member → List String
ids_of members = map (λ m. m.incoming.id) members

unfoldable pub listed : List String → List Member → List String
unfolding alias_of distinct
listed ids live = keep (is_id live) (distinct (map (λ i. or_else i (alias_of i live)) ids))

-- The requested members that are available, then the others.
unfoldable pub arranged : List String → List Member → List String
unfolding listed sorted
arranged ids live =
    listed ids live
    ++ ids_of (keep (λ m. not (has_name m.incoming.id (listed ids live))) (sorted live))

unfoldable pub apply_order :
    Kind → List String → ℕ → List Member → List Arrangement → OrderAnswer × List Arrangement
unfolding stored_order put_order available arranged
apply_order kind ids base members orders =
    let order = stored_order kind orders in
    if nat_eq order.revision base
    then (let value : Arrangement = record {
      kind = kind;
      ids = arranged ids (available kind members);
      revision = suc order.revision;
    } in
        (arrangement value, put_order value orders))
    else (order_conflict order, orders)
