-- ===== src/Tests/Records.antt =====
-- The change feed and the receipts at concrete inputs.
use lumae_plugin.Prelude.{ℕ, ◌≡◌, refl, some, List, [], ◌∷◌, ◌+◌, length, keep}
use lumae_plugin.Feed.{Scope, find, has_key, put_row, upsert, changes}
use lumae_plugin.Feed.Copy.{receive}
use lumae_plugin.Feed.Sync.{follow}
use lumae_plugin.Feed.History.{Event, write, fetch, empty, fresh, happen, happen-caught_up}
use lumae_plugin.Receipts.{Receipt, Store, accepted, done, acknowledge, find_receipt}
use lumae_plugin.Receipts.Replay.{Call, serve, serve_all, serve_again}
use lumae_plugin.Receipts.Retention.{Purge, purge_from, retention}
use lumae_plugin.Receipts.Retention.Survivors.{is_fresh, purge_from-Keeps}

abbrev alice : Scope
alice = record { principal = "alice"; catalog = "c" }

abbrev bob : Scope
bob = record { principal = "bob"; catalog = "c" }

-- Two writes, a page of one row, a write over the row already fetched, and one in another scope.
abbrev busy : List (Event ℕ)
busy = write alice "a" 1 ∷ write alice "b" 2 ∷ fetch 1 ∷ write alice "a" 3 ∷ write bob "a" 9 ∷ []

happen-caught_up_example :
    find alice "a"
      (follow alice 5 (happen alice busy empty fresh).0 (happen alice busy empty fresh).1).copy
    ≡ find alice "a" (happen alice busy empty fresh).0.rows
unfolding happen follow changes receive find upsert has_key put_row
happen-caught_up_example = happen-caught_up alice busy 5 refl "a"

latest :
    find alice "a" (happen alice busy empty fresh).0.rows
    ≡ some (record { scope = alice; id = "a"; value = 3; seq = 3 })
unfolding happen follow changes receive find upsert has_key put_row
latest = refl

abbrev start : Store ℕ ℕ
start = record { table = empty; receipts = [] }

abbrev add_one : Call ℕ ℕ
add_one = record {
  apply = λ t. (accepted 7, record t { last_seq = t.last_seq + 1 });
  scope = alice;
  id = "m1";
  fingerprint = "f";
  now = 5;
}

abbrev other_call : Call ℕ ℕ
other_call = record add_one { id = "m2"; fingerprint = "g" }

serve_again_example :
    serve (serve_all (serve start add_one).1 (other_call ∷ [])) add_one
    ≡ (done 7, serve_all (serve start add_one).1 (other_call ∷ []))
unfolding serve acknowledge find_receipt
serve_again_example = serve_again start add_one 7 (other_call ∷ []) refl

abbrev old_receipt : Receipt ℕ
old_receipt = record { scope = alice; id = "m0"; response = 1; fingerprint = "f"; created_at = 0 }

abbrev new_receipt : Receipt ℕ
new_receipt = record {
  scope = alice;
  id = "m9";
  response = 1;
  fingerprint = "f";
  created_at = retention;
}

abbrev receipts_held : Purge ℕ
receipts_held = record { receipts = new_receipt ∷ old_receipt ∷ []; deleted = 0 }

purge_from-Keeps_example :
    (keep (is_fresh (retention + 9)) (purge_from (retention + 9) 1 3 receipts_held).receipts
      ≡ keep (is_fresh (retention + 9)) receipts_held.receipts)
    × ((purge_from (retention + 9) 1 3 receipts_held).deleted
          + length (purge_from (retention + 9) 1 3 receipts_held).receipts
        ≡ 2)
purge_from-Keeps_example = purge_from-Keeps (retention + 9) 1 3 receipts_held

purged :
    purge_from (retention + 9) 1 3 receipts_held
    ≡ record { receipts = new_receipt ∷ []; deleted = 1 }
unfolding purge_from
purged = refl
