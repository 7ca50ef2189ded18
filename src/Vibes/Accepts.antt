-- ===== src/Vibes/Accepts.antt =====
-- What the checks of a Vibe mutation let through.
use text.Mathlib.Text.{starts_with}
use lumae_plugin.Prelude.{
  ℕ, ◌≤◌, ◌≡◌, refl, ap, ◌∙◌, eq_iff, inl, inr, Bool, true, false, String, some, arith, ◌==◌, not,
  ltb_false→le, Bool-cases,
}
use lumae_plugin.Json.{Json, null, str, obj, Fields, Result, ok, get, text_of, number}
use lumae_plugin.Json.Inversion.{bind-ok, unless-ok, ok_injective}
use lumae_plugin.Vibes.{
  Change, put, delete, Mutation, max_vibe_bytes, kind_prefix, prefix_of, has_some_prefix, is_object,
  optional_text, validate_vibe, validate_change, validate_mutation, operation_of, revision,
}

-- A document is stored only under an id with the prefix of its kind, with a recipe object, and
-- within the size limit; a deletion's time is one that the number check passes.
pub record IsDocument (canonical_size : Json → Result ℕ) (vibe_id : String) (vibe : Fields)
    : Type 0 where
  pub kind : String
  pub prefix : String
  pub kind_is : get "kind" vibe ≡ str kind
  pub prefix_is : kind_prefix kind ≡ some prefix
  pub id_fits : starts_with vibe_id prefix ≡ true
  pub name : String
  pub name_is : text_of (get "name" vibe) "vibe name" 500 ≡ ok name
  pub created_is : optional_text (get "createdAt" vibe) "created time" 64 ≡ ok tt
  pub recipe_is : is_object (get "recipe" vibe) ≡ true
  pub size : ℕ
  pub size_is : canonical_size (obj vibe) ≡ ok size
  pub size_fits : size ≤ max_vibe_bytes

abbrev pub IsSound : (Json → Result ℕ) → String → Change → Fields → Type 0
IsSound cs vibe_id (put vibe) body =
    (get "operation" body ≡ str "put") × ((get "vibe" body ≡ obj vibe) × IsDocument cs vibe_id vibe)
IsSound cs vibe_id (delete at) body =
    (get "operation" body ≡ str "delete") × (number (get "at" body) "timestamp" ≡ ok at)

module _ (canonical_size : Json → Result ℕ) where
  prefix_of-ok :
      (value : Json) (p : String)
      → prefix_of value ≡ ok p
      → (kind : String) × (value ≡ str kind) × (kind_prefix kind ≡ some p)
  unfolding prefix_of
  prefix_of-ok (str kind) p h = (kind, refl, ground arith)
  prefix_of-ok null p h = cc
  prefix_of-ok value p h = cc

  not-false : (b : Bool) → not b ≡ false → b ≡ true
  not-false b h = ground arith

  validate_vibe-IsDocument :
      (vibe_id : String) (value : Json) (vibe : Fields)
      → validate_vibe canonical_size vibe_id value ≡ ok vibe
      → (value ≡ obj vibe) × IsDocument canonical_size vibe_id vibe
  unfolding validate_vibe
  validate_vibe-IsDocument vibe_id (obj v) vibe h =
      let (p, hp, h1) = bind-ok (prefix_of (get "kind" v)) _ h in
      let (fits, h2) = unless-ok _ _ _ h1 in
      let (n, hn, h3) = bind-ok (text_of (get "name" v) "vibe name" 500) _ h2 in
      let (u, hu, h4) = bind-ok (optional_text (get "createdAt" v) "created time" 64) _ h3 in
      let (recipe, h5) = unless-ok _ _ _ h4 in
      let (size, hs, h6) = bind-ok (canonical_size (obj v)) _ h5 in
      let (small, h7) = unless-ok _ _ _ h6 in
      let (kind, k, kp) = prefix_of-ok (get "kind" v) p hp in
      let same : v ≡ vibe = ok_injective h7 in
      rw (← same) (
        refl,
        record {
          kind = kind;
          prefix = p;
          kind_is = k;
          prefix_is = kp;
          id_fits = not-false _ fits;
          name = n;
          name_is = hn;
          created_is = hu;
          recipe_is = not-false _ recipe;
          size = size;
          size_is = hs;
          size_fits = ltb_false→le max_vibe_bytes size small;
        },
      )
  validate_vibe-IsDocument vibe_id null vibe h = cc
  validate_vibe-IsDocument vibe_id _ vibe h = cc

  put_is : ("" == "put") ≡ false
  put_is = refl

  delete_is : ("" == "delete") ≡ false
  delete_is = refl

  -- A value that is no text is read as the empty operation.
  sent_operation :
      (value : Json) (operation : String)
      → operation_of value ≡ operation
      → ("" == operation) ≡ false
      → value ≡ str operation
  unfolding operation_of
  sent_operation (str s) operation h n = ap (λ z. str z) h
  sent_operation null operation h n = absurd (let yes = (eq_iff "" operation).1 h in cc)
  sent_operation _ operation h n = absurd (let yes = (eq_iff "" operation).1 h in cc)

  validate_change-IsSound :
      (operation vibe_id : String) (body : Fields) (c : Change)
      → operation_of (get "operation" body) ≡ operation
      → validate_change canonical_size operation vibe_id body ≡ ok c
      → IsSound canonical_size vibe_id c body
  unfolding validate_change
  validate_change-IsSound operation vibe_id body c o h = elim (Bool-cases (operation == "put")) [
    | inl e ↦
        let (vibe, hv, h1) =
          bind-ok (validate_vibe canonical_size vibe_id (get "vibe" body)) (λ v. ok (put v))
            (rw e at h) in
        let same : put vibe ≡ c = ok_injective h1 in
        rw (← same) (
          sent_operation _ "put" (o ∙ (eq_iff operation "put").0 e) put_is,
          validate_vibe-IsDocument vibe_id (get "vibe" body) vibe hv,
        )
    | inr e ↦ elim (Bool-cases (operation == "delete")) [
      | inl d ↦
          let (at, ha, h1) =
            bind-ok (number (get "at" body) "timestamp") (λ a. ok (delete a)) (rw (e, d) at h) in
          let same : delete at ≡ c = ok_injective h1 in
          rw (← same)
            (sent_operation _ "delete" (o ∙ (eq_iff operation "delete").0 d) delete_is, ha)
      | inr d ↦ cc (rw (e, d) at h)
    ]
  ]

  -- How a checked mutation comes from its body.
  abbrev pub IsFrom : Json → Mutation → Type 0
  IsFrom value m =
      (body : Fields) × (value ≡ obj body)
      × (text_of (get "id" body) "mutation id" 200 ≡ ok m.id)
      × (text_of (get "vibeId" body) "vibe id" 512 ≡ ok m.vibe_id)
      × (has_some_prefix m.vibe_id ≡ true)
      × (revision (get "baseRevision" body) ≡ ok m.base_revision)
      × IsSound canonical_size m.vibe_id m.change body

  -- A mutation body that passes the checks is an object; the mutation's id is the text of `id`, its
  -- Vibe id has one of the known prefixes and is the text of `vibeId`, its base revision is the
  -- integer of `baseRevision`, and its change is that of `operation`: "put" of the object in `vibe`,
  -- with the prefix of its own kind, a name, a time of creation that is a short text or null, a recipe
  -- object and at most `max_vibe_bytes` of canonical text, or "delete" with a time that the number
  -- check passes.
  pub validate_mutation-IsSound :
      (value : Json) (m : Mutation) → validate_mutation canonical_size value ≡ ok m → IsFrom value m
  unfolding validate_mutation
  validate_mutation-IsSound (obj body) m h =
      let (id, hid, h1) = bind-ok (text_of (get "id" body) "mutation id" 200) _ h in
      let (vibe_id, hv, h2) = bind-ok (text_of (get "vibeId" body) "vibe id" 512) _ h1 in
      let (known, h3) = unless-ok _ _ _ h2 in
      let (base, hb, h4) = bind-ok (revision (get "baseRevision" body)) _ h3 in
      let (c, hc, h5) =
        bind-ok (validate_change canonical_size (operation_of (get "operation" body)) vibe_id body)
          _ h4 in
      let made : Mutation = record {
        id = id;
        vibe_id = vibe_id;
        base_revision = base;
        change = c;
      } in
      let same : made ≡ m = ok_injective h5 in
      rw (← same) (
        body,
        refl,
        hid,
        hv,
        not-false _ known,
        hb,
        validate_change-IsSound (operation_of (get "operation" body)) vibe_id body c refl hc,
      )
  validate_mutation-IsSound null m h = cc
  validate_mutation-IsSound _ m h = cc
