-- ===== src/Rekey/Return.antt =====
-- A rewrite and its way back.
use lumae_plugin.Prelude.{
  ◌≡◌, refl, ap, sym, ◌∙◌, inl, inr, true, false, String, List, [], ◌∷◌, map, ◌==◌, eq_iff,
  Bool-cases, arith,
}
use lumae_plugin.Json.{
  Json, null, bool, num, str, arr, obj, Items, nil, cons, Fields, end, field, ok,
}
use lumae_plugin.Json.Inversion.{bind-ok, unless-ok, ok_injective}
use lumae_plugin.Rekey.{is_taken, replace_exact, replace_items, replace_fields}

module _ (rename : String → String) where
  taken_renamed :
      (key : String) (taken : List String)
      → is_taken key taken ≡ true
      → is_taken (rename key) (map rename taken) ≡ true
  taken_renamed key [] h = absurd cc
  taken_renamed key (k ∷ taken) h = elim (Bool-cases (k == key)) [
    | inl e ↦
        (let same = (eq_iff (rename k) (rename key)).1 (ap rename ((eq_iff k key).0 e)) in
          ground arith)
    | inr e ↦ (let rest = taken_renamed key taken (rw e at h) in ground arith)
  ]

  free_before :
      (key : String) (taken : List String)
      → is_taken (rename key) (map rename taken) ≡ false
      → is_taken key taken ≡ false
  free_before key taken h = elim (Bool-cases (is_taken key taken)) [
    | inl e ↦ absurd (let t = taken_renamed key taken e in cc)
    | inr e ↦ e
  ]

module _ (rename back : String → String) where
  -- Every string of a value, its keys included, is renamed back to itself.
  abbrev mutual
    pub ComesBack : Json → Type 0
    ComesBack (str s) = back (rename s) ≡ s
    ComesBack (arr items) = ItemsComeBack items
    ComesBack (obj fields) = FieldsComeBack fields
    ComesBack null = Unit
    ComesBack (bool b) = Unit
    ComesBack (num n) = Unit

    pub ItemsComeBack : Items → Type 0
    ItemsComeBack nil = Unit
    ItemsComeBack (cons item items) = ComesBack item × ItemsComeBack items

    pub FieldsComeBack : Fields → Type 0
    FieldsComeBack end = Unit
    FieldsComeBack (field key item fields) =
        (back (rename key) ≡ key) × ComesBack item × FieldsComeBack fields

  mutual
    unfolding replace_exact

    value_returns :
        (v w : Json) → ComesBack v → replace_exact rename v ≡ ok w → replace_exact back w ≡ ok v
    value_returns (str s) w c h = rw (sym (ok_injective h), c) refl
    value_returns (arr items) w c h =
        let (rest, e, f) = bind-ok (replace_items rename items) _ h in
        rw (sym (ok_injective f), items_return items rest c e) refl
    value_returns (obj fields) w c h =
        let (rest, e, f) = bind-ok (replace_fields rename [] fields) _ h in
        rw (sym (ok_injective f), fields_return [] fields rest c e) refl
    value_returns null w c h = rw (sym (ok_injective h)) refl
    value_returns (bool b) w c h = rw (sym (ok_injective h)) refl
    value_returns (num n) w c h = rw (sym (ok_injective h)) refl

    items_return :
        (v w : Items)
        → ItemsComeBack v
        → replace_items rename v ≡ ok w
        → replace_items back w ≡ ok v
    items_return nil w c h = rw (sym (ok_injective h)) refl
    items_return (cons item items) w c h =
        let (new, e, f) = bind-ok (replace_exact rename item) _ h in
        let (rest, g, k) = bind-ok (replace_items rename items) _ f in
        rw (sym (ok_injective k), value_returns item new c.0 e, items_return items rest c.1 g) refl

    fields_return :
        (taken : List String) (v w : Fields)
        → FieldsComeBack v
        → replace_fields rename (map rename taken) v ≡ ok w
        → replace_fields back taken w ≡ ok v
    fields_return taken end w c h = rw (sym (ok_injective h)) refl
    fields_return taken (field key item fields) w c h =
        let (free, after) = unless-ok _ _ _ h in
        let (new, e, f) = bind-ok (replace_exact rename item) _ after in
        let (rest, g, k) =
          bind-ok (replace_fields rename (rename key ∷ map rename taken) fields) _ f in
        rw
          (
            sym (ok_injective k),
            c.0,
            free_before rename key taken free,
            value_returns item new c.1 e,
            fields_return (key ∷ taken) fields rest c.2 g,
          )
          refl

-- Every string of a value renamed, its keys included.
abbrev mutual
  pub renamed : (String → String) → Json → Json
  renamed rename (str s) = str (rename s)
  renamed rename (arr items) = arr (renamed_items rename items)
  renamed rename (obj fields) = obj (renamed_fields rename fields)
  renamed rename null = null
  renamed rename (bool b) = bool b
  renamed rename (num n) = num n

  pub renamed_items : (String → String) → Items → Items
  renamed_items rename nil = nil
  renamed_items rename (cons item items) = cons (renamed rename item) (renamed_items rename items)

  pub renamed_fields : (String → String) → Fields → Fields
  renamed_fields rename end = end
  renamed_fields rename (field key item fields) =
      field (rename key) (renamed rename item) (renamed_fields rename fields)

-- No object of a value has a key twice, or one of the keys `taken` before it.
abbrev mutual
  pub KeysDiffer : Json → Type 0
  KeysDiffer (str s) = Unit
  KeysDiffer (arr items) = ItemKeysDiffer items
  KeysDiffer (obj fields) = FieldKeysDiffer [] fields
  KeysDiffer null = Unit
  KeysDiffer (bool b) = Unit
  KeysDiffer (num n) = Unit

  pub ItemKeysDiffer : Items → Type 0
  ItemKeysDiffer nil = Unit
  ItemKeysDiffer (cons item items) = KeysDiffer item × ItemKeysDiffer items

  pub FieldKeysDiffer : List String → Fields → Type 0
  FieldKeysDiffer taken end = Unit
  FieldKeysDiffer taken (field key item fields) =
      (is_taken key taken ≡ false) × KeysDiffer item × FieldKeysDiffer (key ∷ taken) fields

module _ (rename : String → String) where
  mutual
    unfolding replace_exact

    value_renamed :
        (v w : Json) → replace_exact rename v ≡ ok w → (w ≡ renamed rename v) × KeysDiffer w
    value_renamed (str s) w h = rw (sym (ok_injective h)) (refl, tt)
    value_renamed (arr items) w h =
        let (rest, e, f) = bind-ok (replace_items rename items) _ h in
        let (same, apart) = items_renamed items rest e in
        rw (sym (ok_injective f)) (ap (λ z. arr z) same, apart)
    value_renamed (obj fields) w h =
        let (rest, e, f) = bind-ok (replace_fields rename [] fields) _ h in
        let (same, apart) = fields_renamed [] fields rest e in
        rw (sym (ok_injective f)) (ap (λ z. obj z) same, apart)
    value_renamed null w h = rw (sym (ok_injective h)) (refl, tt)
    value_renamed (bool b) w h = rw (sym (ok_injective h)) (refl, tt)
    value_renamed (num n) w h = rw (sym (ok_injective h)) (refl, tt)

    items_renamed :
        (v w : Items)
        → replace_items rename v ≡ ok w
        → (w ≡ renamed_items rename v) × ItemKeysDiffer w
    items_renamed nil w h = rw (sym (ok_injective h)) (refl, tt)
    items_renamed (cons item items) w h =
        let (new, e, f) = bind-ok (replace_exact rename item) _ h in
        let (rest, g, k) = bind-ok (replace_items rename items) _ f in
        let (same, apart) = value_renamed item new e in
        let (others, far) = items_renamed items rest g in
        let made : cons new rest ≡ w = ok_injective k in
        rw (sym made)
          (ap (λ z. cons z rest) same ∙ ap (λ z. cons (renamed rename item) z) others, (apart, far))

    fields_renamed :
        (taken : List String) (v w : Fields)
        → replace_fields rename taken v ≡ ok w
        → (w ≡ renamed_fields rename v) × FieldKeysDiffer taken w
    fields_renamed taken end w h = rw (sym (ok_injective h)) (refl, tt)
    fields_renamed taken (field key item fields) w h =
        let (free, after) = unless-ok _ _ _ h in
        let (new, e, f) = bind-ok (replace_exact rename item) _ after in
        let (rest, g, k) = bind-ok (replace_fields rename (rename key ∷ taken) fields) _ f in
        let (same, apart) = value_renamed item new e in
        let (others, far) = fields_renamed (rename key ∷ taken) fields rest g in
        let made : field (rename key) new rest ≡ w = ok_injective k in
        rw (sym made) (
          ap (λ z. field (rename key) z rest) same
              ∙ ap (λ z. field (rename key) (renamed rename item) z) others,
          (free, apart, far),
        )

    value_passes :
        (v : Json) → KeysDiffer (renamed rename v) → replace_exact rename v ≡ ok (renamed rename v)
    value_passes (str s) k = refl
    value_passes (arr items) k = rw (items_pass items k) refl
    value_passes (obj fields) k = rw (fields_pass [] fields k) refl
    value_passes null k = refl
    value_passes (bool b) k = refl
    value_passes (num n) k = refl

    items_pass :
        (v : Items)
        → ItemKeysDiffer (renamed_items rename v)
        → replace_items rename v ≡ ok (renamed_items rename v)
    items_pass nil k = refl
    items_pass (cons item items) k = rw (value_passes item k.0, items_pass items k.1) refl

    fields_pass :
        (taken : List String) (v : Fields)
        → FieldKeysDiffer taken (renamed_fields rename v)
        → replace_fields rename taken v ≡ ok (renamed_fields rename v)
    fields_pass taken end k = refl
    fields_pass taken (field key item fields) k =
        rw (k.0, value_passes item k.1, fields_pass (rename key ∷ taken) fields k.2) refl

-- `_replace_exact` makes of a stored JSON value the value with every string renamed, keys included,
-- exactly where no object of that has a key twice; otherwise it fails. Where every string of the
-- value is renamed back to itself, the way back does not fail and gives the very value.
pub replace_exact_and_back :
    (rename back : String → String) (v : Json)
    → ((w : Json)
        → replace_exact rename v ≡ ok w
        → (w ≡ renamed rename v)
          × (KeysDiffer w × (ComesBack rename back v → replace_exact back w ≡ ok v)))
      × (KeysDiffer (renamed rename v) → replace_exact rename v ≡ ok (renamed rename v))
replace_exact_and_back rename back v = (
  λ w h.
      (let (same, apart) = value_renamed rename v w h in
        (same, (apart, λ c. value_returns rename back v w c h))),
  λ k. value_passes rename v k,
)
