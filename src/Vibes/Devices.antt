-- ===== src/Vibes/Devices.antt =====
-- What the Vibes route means for the devices that follow the change feed.
use lumae_plugin.Prelude.{ℕ, inl, inr, String, nat_eq, Bool-cases}
use lumae_plugin.Json.{Json, Result, ok, err}
use lumae_plugin.Feed.{Scope, Table, find, upsert}
use lumae_plugin.Feed.Invariant.{IsFeed, upsert-IsFeed}
use lumae_plugin.Feed.Sync.{Device, IsCurrent, upsert-IsCurrent}
use lumae_plugin.Receipts.{Store}
use lumae_plugin.Receipts.Keeps.{acknowledge-keeps}
use lumae_plugin.Vibes.{
  Mutation, Vibe, Payload, Request, current_revision, apply_mutation, respond, vibe_mutation,
}

-- A mutation leaves the record table alone or makes one write.
module _ (K : Table Vibe → Type 0)
    (write : (s : Scope) (i : String) (v : Vibe) (t : Table Vibe) → K t → K (upsert s i v t)) where
  apply-keeps : (s : Scope) (m : Mutation) (t : Table Vibe) → K t → K (apply_mutation s m t).1
  unfolding apply_mutation
  apply-keeps s m t h =
      elim (Bool-cases (nat_eq (current_revision (find s m.vibe_id t.rows)) m.base_revision)) [
        | inl e ↦ rw e (write s m.vibe_id _ t h)
        | inr e ↦ rw e h
      ]

  respond-keeps :
      (canonical_size : Json → Result ℕ) (fingerprint : Json → Result String) (now : ℕ)
      (checked : Result (Scope × Mutation)) (f : Result String) (st : Store Vibe Payload)
      → K st.table
      → K (respond canonical_size fingerprint now checked f st).1.table
  unfolding respond
  respond-keeps cs fp now (err e) f st h = h
  respond-keeps cs fp now (ok (s, m)) (err e) st h = h
  respond-keeps cs fp now (ok (s, m)) (ok f) st h =
      acknowledge-keeps K (apply_mutation s m) s m.id f now st (apply-keeps s m st.table h) h

module _ (canonical_size : Json → Result ℕ) (fingerprint : Json → Result String) (now : ℕ)
    (r : Request) (st : Store Vibe Payload) where
  abbrev after : Store Vibe Payload
  after = (vibe_mutation canonical_size fingerprint now r st).1

  -- Every request to the Vibes mutation route, valid or not, new or replayed, keeps the record table
  -- a feed: one row for each key, one sequence number for each row, none above the last one given.
  vibe_mutation-IsFeed : IsFeed st.table → IsFeed after.table
  unfolding vibe_mutation
  vibe_mutation-IsFeed =
      respond-keeps IsFeed upsert-IsFeed canonical_size fingerprint now _ (fingerprint r.body) st

  -- Every request to the Vibes mutation route keeps the copy of each device that follows the feed
  -- of any scope: it still has the latest version of each record up to the device's cursor.
  pub vibe_mutation-IsCurrent :
      (s : Scope) (d : Device Vibe) → IsCurrent s st.table d → IsCurrent s after.table d
  unfolding vibe_mutation
  vibe_mutation-IsCurrent s d =
      respond-keeps (λ t. IsCurrent s t d) (λ s' i v t. upsert-IsCurrent s s' i v t d)
        canonical_size fingerprint now _ (fingerprint r.body) st
