-- ===== src/Discovery/Checks/Sound.antt =====
-- What a mutation of personal discovery that passes the checks is.
use lumae_plugin.Prelude.{
  [], ◌∷◌, ltb, ℕ, ◌≡◌, refl, sym, ◌∙◌, true, false, ◌&&◌, not, String, Option, none, some, arith,
}
use lumae_plugin.Json.{
  Json, null, bool, num, str, arr, obj, Fields, end, field, get, has, Result, ok,
}
use lumae_plugin.Json.Inversion.{bind-ok, unless-ok, ok_injective}
use lumae_plugin.Discovery.{Kind, Operation, Mutation, fields_of, identifier}
use lumae_plugin.Discovery.Mutate.{is_upsert}
use lumae_plugin.Discovery.Checks.Values.{
  envelope, keys_within, allowed_fields, is_bad_list, is_end, is_introduction, resent, kind_of,
  operation_of, revision_of, sent_fields_of, or_end, any_field,
}
use lumae_plugin.Discovery.Checks.{
  is_end, is_introduction, resent, check_values, with_canonical, validate_fields, validate_object,
  validate, with_identifiers, check_entity, with_ids,
}

module _ (uuid : String → Option String) (encoded_size : Fields → Result ℕ) where
  check_values_end : (kind : Kind) → check_values uuid encoded_size kind end ≡ ok end
  unfolding check_values with_identifiers check_entity with_ids any_field has get
  check_values_end kind = refl

  end_of : (fields : Fields) → is_end fields ≡ true → fields ≡ end
  end_of end h = refl
  end_of (field k v more) h = absurd cc

  still_end :
      (kind : Kind) (fields final : Fields)
      → is_end fields ≡ true
      → check_values uuid encoded_size kind fields ≡ ok final
      → is_end final ≡ true
  still_end kind fields final e h =
      let at_end = rw (end_of fields e) at h in
      let same = ok_injective (sym (check_values_end kind) ∙ at_end) in rw (sym same) refl

  end_sent :
      (sent : Option Fields) (final : Fields)
      → is_end final ≡ true
      → is_end (elim (resent sent final) [ none ↦ end | some fields ↦ fields ]) ≡ true
  end_sent none final h = refl
  end_sent (some s) final h = h

  validate_fields-upsert :
      (id epoch record_id : String) (kind : Kind) (operation : Operation) (base : ℕ)
      → (sent : Option Fields) (m : Mutation)
      → validate_fields uuid encoded_size id epoch record_id kind operation base sent ≡ ok m
      → (is_upsert m.operation ≡ false → is_end (fields_of m) ≡ true)
        × (is_introduction m.kind ≡ true → is_upsert m.operation ≡ true)
  unfolding validate_fields
  validate_fields-upsert id epoch record_id kind operation base sent m h =
      let (k8, h8) = unless-ok (not (keys_within (allowed_fields kind) (or_end sent))) _ _ h in
      let (size, k9, h9) = bind-ok (encoded_size (or_end sent)) _ h8 in
      let (k10, h10) = unless-ok (ltb 16000 size) _ _ h9 in
      let (fields, k11, h11) =
        bind-ok (with_canonical uuid encoded_size (has "canonicalKey" (or_end sent)) (or_end sent))
          _ h10 in
      let (k12, h12) = unless-ok (any_field (is_bad_list 2000) ("ids" ∷ []) fields) _ _ h11 in
      let (k13, h13) = unless-ok (not (is_upsert operation) && not (is_end fields)) _ _ h12 in
      let (k14, h14) = unless-ok (is_introduction kind && not (is_upsert operation)) _ _ h13 in
      let (final, k15, h15) = bind-ok (check_values uuid encoded_size kind fields) _ h14 in
      let checked : Mutation = record {
        id = id;
        epoch = epoch;
        record_id = record_id;
        kind = kind;
        operation = operation;
        base_revision = base;
        sent_fields = resent sent final;
      } in
      let same : checked ≡ m = ok_injective h15 in
      rw (sym same) (
        (λ u. end_sent sent final (still_end kind fields final (ground arith) k15)),
        (λ i. ground arith),
      )

  -- A mutation that passes the checks changes fields only as an upsert, and it is an upsert if it is
  -- about an introduction.
  pub validate-upsert :
      (body : Json) (m : Mutation)
      → validate uuid encoded_size body ≡ ok m
      → (is_upsert m.operation ≡ false → is_end (fields_of m) ≡ true)
        × (is_introduction m.kind ≡ true → is_upsert m.operation ≡ true)
  unfolding validate validate_object
  validate-upsert (obj body) m h =
      let (k0, h0) = unless-ok (not (keys_within envelope body)) _ _ h in
      let (id, k1, h1) = bind-ok (identifier uuid (get "id" body)) _ h0 in
      let (epoch, k2, h2) = bind-ok (identifier uuid (get "epoch" body)) _ h1 in
      let (record_id, k3, h3) = bind-ok (identifier uuid (get "recordId" body)) _ h2 in
      let (kind, k4, h4) = bind-ok (kind_of (get "kind" body)) _ h3 in
      let (operation, k5, h5) = bind-ok (operation_of (get "operation" body)) _ h4 in
      let (base, k6, h6) = bind-ok (revision_of (get "baseRevision" body)) _ h5 in
      let (sent, k7, h7) = bind-ok (sent_fields_of (has "fields" body) (get "fields" body)) _ h6 in
      validate_fields-upsert id epoch record_id kind operation base sent m h7
  validate-upsert null m h = absurd cc
  validate-upsert (bool b) m h = absurd cc
  validate-upsert (num n) m h = absurd cc
  validate-upsert (str s) m h = absurd cc
  validate-upsert (arr items) m h = absurd cc
