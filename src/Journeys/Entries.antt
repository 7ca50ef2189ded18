-- ===== src/Journeys/Entries.antt =====
-- `merge_journey`: the entries are the incoming ones, each with the state that was changed last.
use lumae_plugin.Prelude.{
  ◌≡◌, ◌≢◌, refl, ◌∙◌, ◌⊎◌, inl, inr, true, false, ◌&&◌, String, Option, none, some, List, [], ◌∷◌,
  map, arith, eq_iff, Bool-cases, Option-cases, and_split,
}
use lumae_plugin.Json.{Number, number_lt_asymm}
use lumae_plugin.Journeys.{
  Entry, Journey, Place, place_fits, has_entry, later, last_entry, merge_entry, merge_entries,
  merge_over, merge_journey,
}

later_asymm : (a b : Option Number) → later a b ≡ true → later b a ≡ false
unfolding later
later_asymm none b h = cc
later_asymm (some x) none h = refl
later_asymm (some x) (some y) h = number_lt_asymm y x h

later_irrefl : (a : Option Number) → later a a ≡ false
later_irrefl a = elim (Bool-cases (later a a)) [ inl e ↦ later_asymm a a e | inr e ↦ e ]

-- The order of the entries is the incoming one's.
pub record IsNewest (old e m : Entry) : Type 0 where
  pub same_id : m.entry_id ≡ e.entry_id
  pub same_rest : m.rest ≡ e.rest
  pub either :
      ((m.state ≡ old.state) × (m.state_by ≡ old.state_by) × (m.state_at ≡ old.state_at))
      ⊎ ((m.state ≡ e.state) × (m.state_by ≡ e.state_by) × (m.state_at ≡ e.state_at))
  pub not_before_stored : m.state ≢ old.state → later old.state_at m.state_at ≡ false
  pub not_before_incoming : m.state ≢ e.state → later e.state_at m.state_at ≡ false

-- The merged entries are the incoming ones, in their order.
pub map-merge_entries :
    (stored incoming : List Entry)
    → map (λ e. e.entry_id) (merge_entries stored incoming) ≡ map (λ e. e.entry_id) incoming
unfolding merge_entries merge_entry
map-merge_entries stored [] = refl
map-merge_entries stored (e ∷ entries) = ground (arith, map-merge_entries stored entries)

merge_entry-again :
    (old : Option Entry) (e : Entry) → merge_entry old (merge_entry old e) ≡ merge_entry old e
unfolding merge_entry
merge_entry-again none e = refl
merge_entry-again (some old) e =
    ground (arith, eq_iff old.state e.state, eq_iff old.state old.state)

same_entry : (old : Option Entry) (e : Entry) → (merge_entry old e).entry_id ≡ e.entry_id
unfolding merge_entry
same_entry none e = refl
same_entry (some old) e = ground arith

-- Merging the stored entries in a second time changes nothing.
merge_entries-again :
    (stored incoming : List Entry)
    → merge_entries stored (merge_entries stored incoming) ≡ merge_entries stored incoming
unfolding merge_entries
merge_entries-again stored [] = refl
merge_entries-again stored (e ∷ entries) =
    let old = last_entry e.entry_id stored in
    rw (merge_entries-again stored entries, same_entry old e, merge_entry-again old e) refl

has_entry-merge_entries :
    (id : String) (stored incoming : List Entry)
    → has_entry id (merge_entries stored incoming) ≡ has_entry id incoming
unfolding merge_entries
has_entry-merge_entries id stored [] = refl
has_entry-merge_entries id stored (e ∷ entries) =
    rw (same_entry (last_entry e.entry_id stored) e, has_entry-merge_entries id stored entries) refl

place_fits-merge_entries :
    (p : Place) (stored incoming : List Entry)
    → place_fits p (merge_entries stored incoming) ≡ place_fits p incoming
unfolding place_fits
place_fits-merge_entries p stored incoming = elim (Option-cases p.entry_id) [
  | inl e ↦ rw e refl
  | inr (id, e) ↦ rw e (has_entry-merge_entries id stored incoming)
]

pub record IsLatest (stored incoming merged : Journey) : Type 0 where
  pub fits :
      place_fits incoming.place incoming.entries ≡ true
      → place_fits merged.place merged.entries ≡ true
  pub from_one :
      ((merged.place ≡ stored.place) × (merged.last_played_at ≡ stored.last_played_at))
      ⊎ ((merged.place ≡ incoming.place) × (merged.last_played_at ≡ incoming.last_played_at))
  pub stored_later :
      later stored.last_played_at merged.last_played_at ≡ true
      → place_fits stored.place merged.entries ≡ false
  pub incoming_later : later incoming.last_played_at merged.last_played_at ≡ false

-- The merged journey has one copy's place with its time. That place names an entry of the merged
-- journey if the incoming one named one of its own; the incoming copy was not played later; and the
-- stored copy was played later only where its place names an entry that is gone.
pub merge_journey-IsLatest :
    (stored incoming : Journey) → IsLatest stored incoming (merge_journey (some stored) incoming)
unfolding merge_journey merge_over
merge_journey-IsLatest stored incoming =
    let entries = merge_entries stored.entries incoming.entries in
    let asymm = later_asymm stored.last_played_at incoming.last_played_at in
    let none_later = later_irrefl stored.last_played_at in
    let none_later' = later_irrefl incoming.last_played_at in
    let fit = place_fits-merge_entries incoming.place stored.entries incoming.entries in
    elim (Bool-cases
      (later stored.last_played_at incoming.last_played_at && place_fits stored.place entries)) [
        | inl e ↦
            let (l, f) =
              and_split (later stored.last_played_at incoming.last_played_at)
                (place_fits stored.place entries) e in
            rw e (record {
              fits = λ _. f;
              from_one = inl (refl, refl);
              stored_later = λ h. cc;
              incoming_later = asymm l;
            })
        | inr e ↦ rw e (record {
          fits = λ h. fit ∙ h;
          from_one = inr (refl, refl);
          stored_later = λ h. ground arith;
          incoming_later = none_later';
        })
      ]
