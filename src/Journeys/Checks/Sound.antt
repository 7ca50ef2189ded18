-- ===== src/Journeys/Checks/Sound.antt =====
-- What the checks of a journey mutation let through.
use lumae_plugin.Prelude.{
  ℕ, ◌≤◌, ◌≡◌, refl, inl, inr, Bool, true, false, not, String, List, [], ◌∷◌, arith, ◌==◌, any, All,
  Bool-cases, ltb_false→le, eq_iff,
}
use lumae_plugin.Json.{
  Json, null, str, obj, Items, nil, cons, Fields, Result, ok, get, text_of, number, optional_number,
  refused,
}
use lumae_plugin.Json.Inversion.{bind-ok, unless-ok, ok_injective}
use lumae_plugin.Journeys.{
  Entry, Journey, Credit, Mutation, Change, upsert_journey, delete, has_entry,
}
use lumae_plugin.Journeys.Credits.{AreDistinct, has_credit}
use lumae_plugin.Journeys.Checks.{
  credit_from, credits_of, entry_of, entries_of, one_of, entry_states, statuses, outcomes,
  string_or_empty, journey_of, change_of, validate_mutation, max_journey_bytes, place_of, name_of,
  items_of, is_one, is_text, base_of,
}

abbrev is_in : String → List String → Bool
is_in x seen = any (λ s. s == x) seen

not-false : (b : Bool) → not b ≡ false → b ≡ true
not-false b h = ground arith

one_of-text :
    (choices : List String) (value : Json)
    → one_of choices value ≡ true
    → any (λ c. c == string_or_empty value) choices ≡ true
unfolding one_of string_or_empty
one_of-text choices (str s) h = h
one_of-text choices null h = cc
one_of-text choices _ h = cc

is_text-eq : (value : Json) (t : String) → is_text value t ≡ true → string_or_empty value ≡ t
unfolding is_text string_or_empty
is_text-eq (str s) t h = (eq_iff s t).0 h
is_text-eq null t h = cc
is_text-eq _ t h = cc

credit_from-new :
    (seen : List String) (value : Json) (c : Credit)
    → credit_from seen value ≡ ok c
    → (is_in c.occurrence_id seen ≡ false) × (any (λ o. o == c.outcome) outcomes ≡ true)
unfolding credit_from
credit_from-new seen (obj credit) c h =
    let (occurrence, ho, h1) =
      bind-ok (text_of (get "occurrenceId" credit) "occurrence id" 300) _ h in
    let (new, h2) = unless-ok _ _ _ h1 in
    let (entry, he, h3) = bind-ok (text_of (get "entryId" credit) "credit entry" 200) _ h2 in
    let (known, h4) = unless-ok _ _ _ h3 in
    let (heard, hh, h5) = bind-ok (number (get "heardSeconds" credit) "heard seconds") _ h4 in
    let same = ok_injective h5 in
    rw (← same) (new, one_of-text outcomes (get "outcome" credit) (not-false _ known))
credit_from-new seen null c h = cc
credit_from-new seen _ c h = cc

abbrev AreNew : List String → List Credit → Type 0
AreNew seen = All (λ c. is_in c.occurrence_id seen ≡ false)

split_new :
    (o : String) (seen : List String) (cs : List Credit)
    → AreNew (o ∷ seen) cs
    → AreNew seen cs × (has_credit o cs ≡ false)
split_new o seen [] a = (tt, refl)
split_new o seen (c ∷ cs) a =
    let (rest, apart) = split_new o seen cs a.1 in
    (
      (ground (arith, a.0), rest),
      ground (arith, a.0, eq_iff o c.occurrence_id, eq_iff c.occurrence_id o),
    )

credits_of-AreDistinct :
    (seen : List String) (items : Items) (cs : List Credit)
    → credits_of seen items ≡ ok cs
    → AreDistinct cs × AreNew seen cs
unfolding credits_of
credits_of-AreDistinct seen nil cs h = let same = ok_injective h in rw (← same) (tt, tt)
credits_of-AreDistinct seen (cons value items) cs h =
    let (c, hc, h1) = bind-ok (credit_from seen value) _ h in
    let (others, ho, h2) = bind-ok (credits_of (c.occurrence_id ∷ seen) items) _ h1 in
    let same = ok_injective h2 in
    let (distinct, new) = credits_of-AreDistinct (c.occurrence_id ∷ seen) items others ho in
    let (new', apart) = split_new c.occurrence_id seen others new in
    rw (← same) ((apart, distinct), ((credit_from-new seen value c hc).0, new'))

abbrev pub EntriesDiffer : List Entry → Type 0
EntriesDiffer [] = Unit
EntriesDiffer (e ∷ entries) = (has_entry e.entry_id entries ≡ false) × EntriesDiffer entries

abbrev pub StatesKnown : List Entry → Type 0
StatesKnown = All (λ e. any (λ s. s == e.state) entry_states ≡ true)

entry_of-new :
    (seen : List String) (value : Json) (e : Entry)
    → entry_of seen value ≡ ok e
    → (is_in e.entry_id seen ≡ false) × (any (λ s. s == e.state) entry_states ≡ true)
unfolding entry_of
entry_of-new seen (obj entry) e h =
    let (id, hid, h1) = bind-ok (text_of (get "entryId" entry) "entry id" 200) _ h in
    let (new, h2) = unless-ok _ _ _ h1 in
    let (known, h3) = unless-ok _ _ _ h2 in
    let (at, ha, h4) = bind-ok (optional_number (get "stateAt" entry) "entry state time") _ h3 in
    let same = ok_injective h4 in
    rw (← same) (new, one_of-text entry_states (get "state" entry) (not-false _ known))
entry_of-new seen null e h = cc
entry_of-new seen _ e h = cc

split_entries :
    (o : String) (seen : List String) (es : List Entry)
    → All (λ e. is_in e.entry_id (o ∷ seen) ≡ false) es
    → All (λ e. is_in e.entry_id seen ≡ false) es × (has_entry o es ≡ false)
split_entries o seen [] a = (tt, refl)
split_entries o seen (e ∷ es) a =
    let (rest, apart) = split_entries o seen es a.1 in
    ((ground (arith, a.0), rest), ground (arith, a.0, eq_iff o e.entry_id, eq_iff e.entry_id o))

entries_of-differ :
    (seen : List String) (items : Items) (es : List Entry)
    → entries_of seen items ≡ ok es
    → EntriesDiffer es × StatesKnown es × All (λ e. is_in e.entry_id seen ≡ false) es
unfolding entries_of
entries_of-differ seen nil es h = let same = ok_injective h in rw (← same) (tt, tt, tt)
entries_of-differ seen (cons value items) es h =
    let (e, he, h1) = bind-ok (entry_of seen value) _ h in
    let (others, ho, h2) = bind-ok (entries_of (e.entry_id ∷ seen) items) _ h1 in
    let same = ok_injective h2 in
    let (distinct, known, new) = entries_of-differ (e.entry_id ∷ seen) items others ho in
    let (new', apart) = split_entries e.entry_id seen others new in
    let (fresh, state) = entry_of-new seen value e he in
    rw (← same) ((apart, distinct), (state, known), (fresh, new'))

-- What the checks promise of a journey.
pub record IsJourney (journey_id : String) (j : Journey) : Type 0 where
  pub id_is : j.id ≡ journey_id
  pub status_known : any (λ s. s == j.status) statuses ≡ true
  pub entries_differ : EntriesDiffer j.entries
  pub states_known : StatesKnown j.entries

journey_of-IsJourney :
    (journey_id : String) (value : Json) (j : Journey)
    → journey_of journey_id value ≡ ok j
    → IsJourney journey_id j
unfolding journey_of
journey_of-IsJourney id (obj journey) j h =
    let (v, h1) =
      unless-ok (not (is_one (get "version" journey))) (refused "Invalid journey") _ h in
    let (i, h2) =
      unless-ok (not (is_text (get "id" journey) id)) (refused "Journey id does not match") _ h1 in
    let (name, hn, h3) = bind-ok (name_of (get "name" journey)) _ h2 in
    let (status, h4) =
      unless-ok (not (one_of statuses (get "status" journey))) (refused "Invalid journey status") _
        h3 in
    let (place, hp, h5) = bind-ok (place_of (get "place" journey)) _ h4 in
    let (played, hl, h6) =
      bind-ok (optional_number (get "lastPlayedAt" journey) "last played time") _ h5 in
    let (items, hi, h7) =
      bind-ok (items_of (get "entries" journey) (refused "Invalid entries")) _ h6 in
    let (entries, he, h8) = bind-ok (entries_of [] items) _ h7 in
    let same = ok_injective h8 in
    let (distinct, known, new) = entries_of-differ [] items entries he in
    rw (← same) (record {
      id_is = is_text-eq (get "id" journey) id (not-false _ i);
      status_known = one_of-text statuses (get "status" journey) (not-false _ status);
      entries_differ = distinct;
      states_known = known;
    })
journey_of-IsJourney id null j h = cc
journey_of-IsJourney id _ j h = cc

abbrev pub IsSoundChange : String → Change → Type 0
IsSoundChange journey_id (upsert_journey j credits) = IsJourney journey_id j × AreDistinct credits
IsSoundChange journey_id (delete at) = (value : Json) × (number value "timestamp" ≡ ok at)

change_of-IsSoundChange :
    (journey_id : String) (body : Fields) (c : Change)
    → change_of journey_id body ≡ ok c
    → IsSoundChange journey_id c
unfolding change_of
change_of-IsSoundChange id body c h = elim (Bool-cases (is_text (get "operation" body) "upsert")) [
  | inl e ↦
      let (j, hj, h1) = bind-ok (journey_of id (get "journey" body)) _ (rw e at h) in
      let (items, hi, h2) =
        bind-ok (items_of (get "credits" body) (refused "Invalid credits")) _ h1 in
      let (credits, hc, h3) = bind-ok (credits_of [] items) _ h2 in
      let same = ok_injective h3 in
      rw (← same) (
        journey_of-IsJourney id (get "journey" body) j hj,
        (credits_of-AreDistinct [] items credits hc).0,
      )
  | inr e ↦ elim (Bool-cases (is_text (get "operation" body) "delete")) [
    | inl d ↦
        let (at, ha, h1) =
          bind-ok (number (get "at" body) "timestamp") (λ a. ok (delete a)) (rw (e, d) at h) in
        let same = ok_injective h1 in rw (← same) (get "at" body, ha)
    | inr d ↦ cc (rw (e, d) at h)
  ]
]

-- A mutation body that passes the checks has at most `max_journey_bytes` of canonical text. If it
-- stores a journey, the journey carries the mutation's journey id and a known status, its entries
-- have different ids and known states, and its credits different occurrences; if it deletes, its
-- time passes the number check.
pub validate_mutation-IsSoundChange :
    (canonical_size : Json → Result ℕ) (value : Json) (m : Mutation)
    → validate_mutation canonical_size value ≡ ok m
    → IsSoundChange m.journey_id m.change
      × ((size : ℕ) × (canonical_size value ≡ ok size) × (size ≤ max_journey_bytes))
unfolding validate_mutation
validate_mutation-IsSoundChange cs (obj body) m h =
    let (id, hid, h1) = bind-ok (text_of (get "id" body) "mutation id" 300) _ h in
    let (journey_id, hj, h2) = bind-ok (text_of (get "journeyId" body) "journey id" 200) _ h1 in
    let (base, hb, h3) = bind-ok (base_of body) _ h2 in
    let (c, hc, h4) = bind-ok (change_of journey_id body) _ h3 in
    let (size, hs, h5) = bind-ok (cs (obj body)) _ h4 in
    let (small, h6) = unless-ok _ _ _ h5 in
    let same = ok_injective h6 in
    rw (← same) (
      change_of-IsSoundChange journey_id body c hc,
      (size, hs, ltb_false→le max_journey_bytes size small),
    )
validate_mutation-IsSoundChange cs null m h = cc
validate_mutation-IsSoundChange cs _ m h = cc
