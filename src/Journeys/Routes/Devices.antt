-- ===== src/Journeys/Routes/Devices.antt =====
-- What the Journeys route means for the devices that follow the change feed.
use lumae_plugin.Prelude.{ℕ, inl, inr, String, Bool-cases}
use lumae_plugin.Json.{Json, Result, ok, err}
use lumae_plugin.Feed.{Scope, Table, find, upsert}
use lumae_plugin.Feed.Invariant.{IsFeed, upsert-IsFeed}
use lumae_plugin.Feed.Sync.{Device, IsCurrent, upsert-IsCurrent}
use lumae_plugin.Receipts.{Store}
use lumae_plugin.Receipts.Keeps.{acknowledge-keeps}
use lumae_plugin.Journeys.{
  Mutation, Stored, Payload, current_revision, same_revision, apply_mutation,
}
use lumae_plugin.Journeys.Routes.{Request, respond, journey_mutation}

-- A mutation leaves the record table alone or makes one write.
module _ (K : Table Stored → Type 0)
    (write : (s : Scope) (i : String) (v : Stored) (t : Table Stored)
      → K t
      → K (upsert s i v t)) where
  apply-keeps : (s : Scope) (m : Mutation) (t : Table Stored) → K t → K (apply_mutation s m t).1
  unfolding apply_mutation
  apply-keeps s m t h =
      elim (Bool-cases
        (same_revision (current_revision (find s m.journey_id t.rows)) m.base_revision)) [
          | inl e ↦ rw e (write s m.journey_id _ t h)
          | inr e ↦ rw e h
        ]

  respond-keeps :
      (canonical_size : Json → Result ℕ) (fingerprint : Json → Result String) (now : ℕ)
      (checked : Result (Scope × Mutation)) (f : Result String) (st : Store Stored Payload)
      → K st.table
      → K (respond canonical_size fingerprint now checked f st).1.table
  unfolding respond
  respond-keeps cs fp now (err e) f st h = h
  respond-keeps cs fp now (ok (s, m)) (err e) st h = h
  respond-keeps cs fp now (ok (s, m)) (ok f) st h =
      acknowledge-keeps K (apply_mutation s m) s m.id f now st (apply-keeps s m st.table h) h

module _ (canonical_size : Json → Result ℕ) (fingerprint : Json → Result String) (now : ℕ)
    (r : Request) (st : Store Stored Payload) where
  abbrev after : Store Stored Payload
  after = (journey_mutation canonical_size fingerprint now r st).1

  -- Every request to the Journeys mutation route, valid or not, new or replayed, keeps the record table
  -- a feed: one row for each key, one sequence number for each row, none above the last one given.
  journey_mutation-IsFeed : IsFeed st.table → IsFeed after.table
  unfolding journey_mutation
  journey_mutation-IsFeed =
      respond-keeps IsFeed upsert-IsFeed canonical_size fingerprint now _ (fingerprint r.body) st

  -- Every request to the Journeys mutation route keeps the copy of each device that follows the feed
  -- of any scope: it still has the latest version of each record up to the device's cursor.
  pub journey_mutation-IsCurrent :
      (s : Scope) (d : Device Stored) → IsCurrent s st.table d → IsCurrent s after.table d
  unfolding journey_mutation
  journey_mutation-IsCurrent s d =
      respond-keeps (λ t. IsCurrent s t d) (λ s' i v t. upsert-IsCurrent s s' i v t d)
        canonical_size fingerprint now _ (fingerprint r.body) st
