-- ===== src/Json/Equality.antt =====
-- Python's `==` on parsed JSON: numbers by value, a `bool` as the number that it is, lists by their
-- items, and dicts by their keys whatever the order.
use lumae_plugin.Prelude.{ℕ, suc, Bool, true, false, ◌&&◌, not, ◌==◌, nat_eq}
use lumae_plugin.Json.{
  pos, Number, int, not_finite, Json, null, bool, num, str, arr, obj, Items, nil, cons, Fields, end,
  field, get, has, number_lt,
}

unfoldable pub same_number : Number → Number → Bool
same_number not_finite b = false
same_number a not_finite = false
same_number a b = not (number_lt a b) && not (number_lt b a)

abbrev pub as_number : Bool → Number
as_number true = int (pos 1)
as_number false = int (pos 0)

abbrev pub same_bool : Bool → Bool → Bool
same_bool true b = b
same_bool false b = not b

abbrev pub field_count : Fields → ℕ
field_count end = 0
field_count (field k v rest) = suc (field_count rest)

unfoldable mutual
  unfolding same_number

  pub same_json : Json → Json → Bool
  same_json null null = true
  same_json (bool a) (bool b) = same_bool a b
  same_json (bool a) (num b) = same_number (as_number a) b
  same_json (num a) (bool b) = same_number a (as_number b)
  same_json (num a) (num b) = same_number a b
  same_json (str a) (str b) = a == b
  same_json (arr a) (arr b) = same_items a b
  same_json (obj a) (obj b) = nat_eq (field_count a) (field_count b) && has_fields a b
  same_json _ _ = false

  pub same_items : Items → Items → Bool
  same_items nil nil = true
  same_items (cons a xs) (cons b ys) = same_json a b && same_items xs ys
  same_items _ _ = false

  -- Whether every field of the first dict is in the second with an equal value.
  pub has_fields : Fields → Fields → Bool
  has_fields end b = true
  has_fields (field k v rest) b = has k b && (same_json v (get k b) && has_fields rest b)
