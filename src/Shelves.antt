-- ===== src/Shelves.antt =====
-- The members of a personal shelf (`apply_mutation` of plugins/LumaeAnalysis/shelves.py, its
-- operations add, remove and restore). The list is one scope's rows of type member, with their
-- values; the query that loads them has no ORDER BY, and here they stand in the order written.
pub mod Periods
pub mod Changes
pub mod Replays
pub mod Orders
pub mod Arranged
pub mod Revisions
pub mod Evidence
pub mod Checks
use lumae_plugin.Prelude.{
  ℕ, suc, ◌≡◌, Bool, true, false, ◌&&◌, ◌||◌, not, String, Option, none, some, List, [], ◌∷◌, ◌++◌,
  max, if◌then◌else◌, ◌==◌, first, any,
}
use lumae_plugin.Json.{Number}

pub data Kind : Type 0 where
  album : Kind
  artist : Kind

abbrev pub same_kind : Kind → Kind → Bool
same_kind album album = true
same_kind artist artist = true
same_kind _ _ = false

-- `body["member"]` of an add.
pub record Incoming : Type 0 where
  pub id : String
  pub kind : Kind
  pub entity_id : String
  pub title : String
  pub artist_name : String
  pub added_at : Number
  pub artist_id : Option String
  pub cover_item_id : Option String

pub record Member : Type 0 where
  pub incoming : Incoming
  pub position : ℕ
  pub aliases : List String
  pub deleted_at : Option Number

pub data Change : Type 0 where
  add : Incoming → Change
  remove : String → Number → Change
  restore : String → Change

-- The member's record with status 200, or "unknown_membership_period" with 409.
pub data Answer : Type 0 where
  member : Member → Answer
  unknown_membership_period : Answer

abbrev pub is_live : Member → Bool
is_live m = elim m.deleted_at [ none ↦ true | some at ↦ false ]

-- `_member_key(a) == _member_key(b)`
unfoldable pub same_key : Incoming → Incoming → Bool
same_key a b = same_kind a.kind b.kind && a.entity_id == b.entity_id

-- Whether a member is known by an identifier, its own or an alias.
abbrev pub has_name : String → List String → Bool
has_name i names = any (λ name. name == i) names

unfoldable pub is_known_by : String → Member → Bool
is_known_by i m = m.incoming.id == i || has_name i m.aliases

-- `_put` of a member: the row of its id is replaced, or added.
unfoldable pub put_member : Member → List Member → List Member
put_member m [] = m ∷ []
put_member m (x ∷ members) =
    if x.incoming.id == m.incoming.id then m ∷ members else x ∷ put_member m members

-- `1 + max((m["position"] …), default=-1)`
pub next_position : Kind → List Member → ℕ
next_position kind [] = 0
next_position kind (m ∷ members) =
    let rest = next_position kind members in
    if same_kind m.incoming.kind kind then max (suc m.position) rest else rest

pub written : Member → List Member → Answer × List Member
unfolding put_member
written m members = (member m, put_member m members)

-- A live member of the incoming key takes the identifier as an alias, or a new member starts.
unfoldable pub add_unknown : Option Member → Incoming → List Member → Answer × List Member
unfolding written next_position
add_unknown (some m) incoming members =
    written (record m { aliases = m.aliases ++ incoming.id ∷ [] }) members
add_unknown none incoming members =
    written
      (record {
        incoming = incoming;
        position = next_position incoming.kind members;
        aliases = [];
        deleted_at = none;
      })
      members

abbrev pub is_same_period : Incoming → Member → Bool
is_same_period incoming m = is_live m && same_key m.incoming incoming

-- A replayed or delayed add never resurrects a deleted period.
unfoldable pub add_member : Option Member → Incoming → List Member → Answer × List Member
unfolding add_unknown
add_member (some m) incoming members = (member m, members)
add_member none incoming members =
    add_unknown (first (is_same_period incoming) members) incoming members

unfoldable pub remove_member : Option Member → Number → List Member → Answer × List Member
unfolding written
remove_member none at members = (unknown_membership_period, members)
remove_member (some m) at members = written (record m { deleted_at = some at }) members

-- Whether another live member has the same key.
abbrev pub is_rival : Member → Member → Bool
is_rival m x = not (x.incoming.id == m.incoming.id) && (is_live x && same_key x.incoming m.incoming)

unfoldable pub restore_member : Option Member → List Member → Answer × List Member
unfolding written
restore_member none members = (unknown_membership_period, members)
restore_member (some m) members =
    if any (is_rival m) members
    then written m members
    else written (record m { deleted_at = none }) members

unfoldable pub apply_change : Change → List Member → Answer × List Member
unfolding add_member remove_member restore_member
apply_change (add incoming) members =
    add_member (first (is_known_by incoming.id) members) incoming members
apply_change (remove i at) members = remove_member (first (is_known_by i) members) at members
apply_change (restore i) members = restore_member (first (is_known_by i) members) members
