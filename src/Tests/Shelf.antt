-- ===== src/Tests/Shelf.antt =====
-- A shelf of two albums, one of them added by two devices.
use lumae_plugin.Prelude.{false, String, refl, ◌≡◌, none, List, [], ◌∷◌}
use lumae_plugin.Json.{
  get, number_lt, int, pos, Json, num, str, arr, obj, nil, cons, Fields, end, field, ok,
}
use lumae_plugin.Shelves.Evidence.{Evidence, apply_evidence}
use lumae_plugin.Shelves.Checks.{evidence, validate_mutation}
use lumae_plugin.Shelves.{
  same_kind, Kind, artist, Member, is_known_by, same_key, Incoming, album, Change, add, remove,
  apply_change,
}
use lumae_plugin.Shelves.Orders.{
  Arrangement, arrangement, order_conflict, apply_order, available, is_id, stored_order, arranged,
  stands_before,
}
use lumae_plugin.Shelves.Arranged.{times, one_when}
use lumae_plugin.Shelves.Revisions.{
  Request, order_all, apply_order-lists_each, order_no_lost_update,
}
use lumae_plugin.Shelves.Periods.{AreApart}
use lumae_plugin.Shelves.Changes.{apply_change-AreApart}
use lumae_plugin.Shelves.Replays.{apply_changes, replayed_add}

abbrev first_album : Incoming
first_album = record {
  id = "m1";
  kind = album;
  entity_id = "a1";
  title = "Blue";
  artist_name = "Joni";
  added_at = int (pos 5);
  artist_id = none;
  cover_item_id = none;
}

abbrev second_device : Incoming
second_device = record {
  id = "m2";
  kind = album;
  entity_id = "a1";
  title = "Blue";
  artist_name = "Joni";
  added_at = int (pos 6);
  artist_id = none;
  cover_item_id = none;
}

abbrev other_album : Incoming
other_album = record first_album { id = "m3"; entity_id = "a2"; title = "Hejira" }

abbrev later : List Change
later = remove "m1" (int (pos 9)) ∷ add second_device ∷ []

one_album : AreApart (apply_change (add first_album) []).1
one_album = apply_change-AreApart (add first_album) [] tt

apply_change-AreApart_example :
    AreApart (apply_change (add second_device) (apply_change (add first_album) []).1).1
apply_change-AreApart_example =
    apply_change-AreApart (add second_device) (apply_change (add first_album) []).1 one_album

replayed_add_example :
    (apply_change (add first_album) (apply_changes later (apply_change (add first_album) []).1)).1
    ≡ apply_changes later (apply_change (add first_album) []).1
replayed_add_example = replayed_add first_album later [] tt

abbrev two_albums : List Member
two_albums = (apply_change (add other_album) (apply_change (add first_album) []).1).1

two_apart : AreApart two_albums
two_apart = apply_change-AreApart (add other_album) _ one_album

abbrev sent : List String
sent = "m3" ∷ "gone" ∷ []

abbrev first_order : Arrangement
first_order = record { kind = album; ids = "m3" ∷ "m1" ∷ []; revision = 1 }

ordered : apply_order album sent 0 two_albums [] ≡ (arrangement first_order, first_order ∷ [])
unfolding apply_order apply_change is_known_by same_key stored_order available arranged
    stands_before
ordered = refl

apply_order-lists_each_example :
    ((i : String) → times i first_order.ids ≡ one_when (is_id (available album two_albums) i))
    × ((first_order.revision ≡ 1)
        × ((stored_order album (first_order ∷ []) ≡ first_order)
            × ((k : Kind)
                → same_kind k album ≡ false
                → stored_order k (first_order ∷ []) ≡ stored_order k [])))
apply_order-lists_each_example =
    apply_order-lists_each album sent 0 two_albums [] (first_order ∷ []) first_order two_apart
      ordered

abbrev between : List Request
between =
    record { kind = album; ids = "m2" ∷ []; base = 1; members = two_albums }
    ∷ record { kind = artist; ids = []; base = 0; members = two_albums }
    ∷ []

order_no_lost_update_example :
    apply_order album ("m1" ∷ []) 0 two_albums (order_all between (first_order ∷ [])) ≡ (
      order_conflict (stored_order album (order_all between (first_order ∷ []))),
      order_all between (first_order ∷ []),
    )
order_no_lost_update_example =
    order_no_lost_update album sent ("m1" ∷ []) 0 two_albums two_albums [] (first_order ∷ [])
      first_order between ordered

-- A search is checked, kept, and kept again.
abbrev search : Fields
search = field "type" (str "search") (
    field "entityKind" (str "album") (
      field "id" (str "e1") (
        field "entityId" (str "a1")
          (field "at" (num (int (pos 7))) (field "visitId" (str "v1") end)))))

abbrev searched : Evidence
searched = record { id = "e1"; at = int (pos 7); sent = search }

abbrev search_body : Json
search_body = obj (
    field "id" (str "q1")
      (field "operation" (str "evidence") (field "records" (arr (cons (obj search) nil)) end)))

search_passes : validate_mutation search_body ≡ ok ("q1", evidence (searched ∷ []))
unfolding validate_mutation get
search_passes = refl

search_kept :
    apply_evidence (searched ∷ searched ∷ []) [] ≡ (searched ∷ searched ∷ [], searched ∷ [])
unfolding apply_evidence number_lt
search_kept = refl
