-- ===== src/Tests/Renames.antt =====
-- A stored value whose ids a provider renamed.
use lumae_plugin.Prelude.{◌≡◌, refl, String, ◌==◌, if◌then◌else◌}
use lumae_plugin.Json.{Json, str, obj, end, field, arr, cons, nil, ok}
use lumae_plugin.Rekey.{replace_exact}
use lumae_plugin.Rekey.Return.{KeysDiffer, ComesBack, renamed, replace_exact_and_back}

abbrev rename : String → String
rename s = if s == "old" then "new" else s

abbrev rename_back : String → String
rename_back s = if s == "new" then "old" else s

abbrev saved_value : Json
saved_value = obj (field "old" (str "x") (field "ids" (arr (cons (str "old") nil)) end))

abbrev renamed_value : Json
renamed_value = obj (field "new" (str "x") (field "ids" (arr (cons (str "new") nil)) end))

value_run : replace_exact rename saved_value ≡ ok renamed_value
unfolding replace_exact
value_run = refl

replace_exact_and_back_example :
    ((w : Json)
      → replace_exact rename saved_value ≡ ok w
      → (w ≡ renamed rename saved_value)
        × (KeysDiffer w
            × (ComesBack rename rename_back saved_value
                → replace_exact rename_back w ≡ ok saved_value)))
    × (KeysDiffer (renamed rename saved_value)
        → replace_exact rename saved_value ≡ ok (renamed rename saved_value))
replace_exact_and_back_example = replace_exact_and_back rename rename_back saved_value
