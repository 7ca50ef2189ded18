-- ===== src/Rekey.antt =====
-- The exact rewrite of provider ids in stored JSON (`_replace_exact` of
-- plugins/LumaeAnalysis/provider_identity_rekey.py). `rename` is `mapping.get(id, id)`.
pub mod Return
use lumae_plugin.Prelude.{Bool, false, ◌||◌, String, List, [], ◌∷◌, ◌==◌, any}
use lumae_plugin.Json.{
  Json, null, bool, num, str, arr, obj, Items, nil, cons, Fields, end, field, Result, ok, err,
  refused, unless, ◌>>=◌, ◌>>◌,
}

abbrev pub is_taken : String → List String → Bool
is_taken key taken = any (λ k. k == key) taken

module _ (rename : String → String) where
  unfoldable mutual
    pub replace_exact : Json → Result Json
    replace_exact (str s) = ok (str (rename s))
    replace_exact (arr items) = do rest ← replace_items items; ok (arr rest)
    replace_exact (obj fields) = do rest ← replace_fields [] fields; ok (obj rest)
    replace_exact null = ok null
    replace_exact (bool b) = ok (bool b)
    replace_exact (num n) = ok (num n)

    pub replace_items : Items → Result Items
    replace_items nil = ok nil
    replace_items (cons item items) = do
      new ← replace_exact item
      rest ← replace_items items
      ok (cons new rest)

    -- `taken` has the keys of `result`.
    pub replace_fields : List String → Fields → Result Fields
    replace_fields taken end = ok end
    replace_fields taken (field key item fields) = do
      unless (is_taken (rename key) taken) (refused "Provider-ID rewrite collides in stored JSON")
      new ← replace_exact item
      rest ← replace_fields (rename key ∷ taken) fields
      ok (field (rename key) new rest)
