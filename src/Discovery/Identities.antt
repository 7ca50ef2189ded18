-- ===== src/Discovery/Identities.antt =====
-- One saved record for a verified identity, whatever ids devices give their saves.
use lumae_plugin.Prelude.{
  ℕ, ◌≡◌, refl, ap, sym, ◌∙◌, inl, inr, Bool, true, false, String, Option, none, some, List, [],
  ◌∷◌, ◌==◌, eq_iff, Bool-cases, Option-cases,
}
use text.Mathlib.TextPositions.{eq_refl}
use lumae_plugin.Json.{Result, ok, err, ◌>>=◌}
use lumae_plugin.Discovery.{
  Mutation, Payload, saved, Receipt, Space, scope, Record, canonical_target,
}
use lumae_plugin.Discovery.Mutate.{
  Chosen, choose, choose_match, chosen_for, record_at, refusal, insert_canonical, settle, write,
  apply, keep_receipt, answer, in_epoch, mutate, target_of,
}
use lumae_plugin.Discovery.Again.{serve, serve_all, after_of}
use lumae_plugin.Discovery.Edits.{is_saved, refusal-saved, IsWritten, apply-IsWritten}

insert_canonical_keeps :
    (j t : String) (i : Option String) (target : String) (rows : List (String × String))
    → canonical_target j rows ≡ some t
    → canonical_target j (insert_canonical i target rows) ≡ some t
unfolding insert_canonical
insert_canonical_keeps j t none target rows h = h
insert_canonical_keeps j t (some i) target rows h = elim (Option-cases (canonical_target i rows)) [
  | inr (u, e) ↦ rw e h
  | inl e ↦ rw e (
      unfold canonical_target in
      (elim (Bool-cases (i == j)) [
        | inr f ↦ rw f h
        | inl f ↦ (let same = (eq_iff i j).0 f in let no = rw same at e in absurd cc)
      ]))
]

chosen_match : (target t : String) (o : Option Record) → (choose_match target o (some t)).target ≡ t
unfolding choose_match
chosen_match target t o = elim (Bool-cases (t == target)) [
  | inl e ↦ rw e (sym ((eq_iff t target).0 e))
  | inr e ↦ rw e refl
]

-- A known identity has its target chosen.
chosen-canonical :
    (user : String) (m : Mutation) (i t : String) (sp : Space)
    → canonical_target i sp.canonical_targets ≡ some t
    → (chosen_for user m (some i) sp).target ≡ t
unfolding choose
chosen-canonical user m i t sp h = rw h (chosen_match (target_of m sp) t _)

-- An identity that is not known chooses the record that the mutation names.
chosen_new :
    (user : String) (m : Mutation) (i : String) (sp : Space)
    → canonical_target i sp.canonical_targets ≡ none
    → (chosen_for user m (some i) sp).target ≡ target_of m sp
unfolding choose choose_match
chosen_new user m i sp h = rw h refl

inserted :
    (i t : String) (rows : List (String × String))
    → canonical_target i rows ≡ none
    → canonical_target i (insert_canonical (some i) t rows) ≡ some t
unfolding insert_canonical
inserted i t rows h = rw h (unfold canonical_target in (rw (eq_refl i) refl))

settle_keeps_canonical :
    (epoch user : String) (m : Mutation) (c : Chosen) (i : Option String) (old : Record)
    (r : Option Payload) (sp : Space) (j t : String)
    → canonical_target j sp.canonical_targets ≡ some t
    → canonical_target j (settle epoch user m c i old r sp).1.canonical_targets ≡ some t
unfolding settle write
settle_keeps_canonical epoch user m c i old (some p) sp j t h = h
settle_keeps_canonical epoch user m c i old none sp j t h =
    insert_canonical_keeps j t i c.target sp.canonical_targets h

settle_saves_canonical :
    (epoch user : String) (m : Mutation) (c : Chosen) (i : String) (old : Record)
    (r : Option Payload) (sp sp' : Space) (p : Payload)
    → refusal m c (some i) old ≡ r
    → (canonical_target i sp.canonical_targets ≡ none → c.target ≡ target_of m sp)
    → ((t : String) → canonical_target i sp.canonical_targets ≡ some t → c.target ≡ t)
    → settle epoch user m c (some i) old r sp ≡ (p, sp')
    → is_saved p ≡ true
    → canonical_target i sp'.canonical_targets ≡ some c.target
unfolding settle write
settle_saves_canonical epoch user m c i old (some q) sp sp' p d new known h s =
    absurd
      (let no = refusal-saved m c (some i) old q d in let same = ap (λ z. is_saved z.0) h in cc)
settle_saves_canonical epoch user m c i old none sp sp' p d new known h s =
    ap (λ z. canonical_target i z.1.canonical_targets) (sym h)
    ∙ elim (Option-cases (canonical_target i sp.canonical_targets)) [
      | inl e ↦ inserted i c.target sp.canonical_targets e
      | inr (t, e) ↦
          insert_canonical_keeps i c.target (some i) c.target sp.canonical_targets
            (e ∙ ap some (sym (known t e)))
    ]

apply_saves_canonical :
    (epoch user : String) (m : Mutation) (i : String) (sp sp' : Space) (p : Payload)
    → apply epoch user m (some i) sp ≡ (p, sp')
    → is_saved p ≡ true
    → canonical_target i sp'.canonical_targets ≡ some (chosen_for user m (some i) sp).target
unfolding apply
apply_saves_canonical epoch user m i sp sp' p h s =
    let c = chosen_for user m (some i) sp in
    settle_saves_canonical epoch user m c i (record_at user m.kind c.target sp) _ sp sp' p refl
      (chosen_new user m i sp) (λ t e. chosen-canonical user m i t sp e) h s

apply_keeps_canonical :
    (epoch user : String) (m : Mutation) (i : Option String) (sp : Space) (j t : String)
    → canonical_target j sp.canonical_targets ≡ some t
    → canonical_target j (apply epoch user m i sp).1.canonical_targets ≡ some t
unfolding apply
apply_keeps_canonical epoch user m i sp j t h =
    let c = chosen_for user m i sp in
    settle_keeps_canonical epoch user m c i (record_at user m.kind c.target sp) _ sp j t h

module _ (uuid : String → Option String) (fingerprint : Mutation → String) (user j t : String) where
  abbrev Leads : Space → Type 0
  Leads sp = canonical_target j sp.canonical_targets ≡ some t

  checked-Leads :
      (epoch : String) (n : Mutation) (base sp : Space) (checked : Result (Option String))
      → Leads base
      → Leads sp
      → Leads (
          after_of
            (checked >>= λ i. ok (keep_receipt n.id (fingerprint n) (apply epoch user n i sp)))
            base)
  unfolding after_of keep_receipt
  checked-Leads epoch n base sp (err e) b h = b
  checked-Leads epoch n base sp (ok i) b h = apply_keeps_canonical epoch user n i sp j t h

  answer-Leads :
      (epoch : String) (n : Mutation) (found : Option Receipt) (base sp : Space)
      → Leads base
      → Leads sp
      → Leads (after_of (answer uuid fingerprint epoch user n found sp) base)
  unfolding answer
  answer-Leads epoch n (some r) base sp b h = unfold after_of in h
  answer-Leads epoch n none base sp b h = checked-Leads epoch n base sp _ b h

  in_epoch-Leads :
      (current : Bool) (epoch : String) (n : Mutation) (base sp : Space)
      → Leads base
      → Leads sp
      → Leads (after_of (in_epoch uuid fingerprint current user n epoch sp) base)
  unfolding in_epoch
  in_epoch-Leads false epoch n base sp b h = unfold after_of in h
  in_epoch-Leads true epoch n base sp b h = answer-Leads epoch n _ base sp b h

  scope-Leads : (new_epoch : String) (sp : Space) → Leads sp → Leads (scope new_epoch sp).1
  unfolding scope
  scope-Leads new_epoch sp h = elim (Option-cases sp.epoch) [ inl e ↦ rw e h | inr (a, e) ↦ rw e h ]

  serve-Leads :
      (c : String × Mutation) (sp : Space) → Leads sp → Leads (serve uuid fingerprint user sp c)
  unfolding serve mutate
  serve-Leads (new_epoch, n) sp h =
      in_epoch-Leads (n.epoch == (scope new_epoch sp).0) (scope new_epoch sp).0 n sp
        (scope new_epoch sp).1 h (scope-Leads new_epoch sp h)

  serve_all-Leads :
      (cs : List (String × Mutation)) (sp : Space)
      → Leads sp
      → Leads (serve_all uuid fingerprint user sp cs)
  unfolding serve_all
  serve_all-Leads [] sp h = h
  serve_all-Leads (c ∷ cs) sp h = serve_all-Leads cs _ (serve-Leads c sp h)

one_target :
    (uuid : String → Option String) (fingerprint : Mutation → String) (user epoch i : String)
    (m m' : Mutation) (sp sp' : Space) (p : Payload) (cs : List (String × Mutation))
    → apply epoch user m (some i) sp ≡ (p, sp')
    → is_saved p ≡ true
    → (chosen_for user m' (some i) (serve_all uuid fingerprint user sp' cs)).target
      ≡ (chosen_for user m (some i) sp).target
one_target uuid fingerprint user epoch i m m' sp sp' p cs h s = chosen-canonical user m' i _ _ (
    serve_all-Leads uuid fingerprint user i _ cs sp'
      (apply_saves_canonical epoch user m i sp sp' p h s))

-- A save of a verified identity, and any later save of the same identity, under whatever record id
-- and after any other requests of the principal, write their records under one and the same id of
-- their kinds, and no other record.
pub one_record_for_identity :
    (uuid : String → Option String) (fingerprint : Mutation → String) (user epoch epoch' i : String)
    (m m' : Mutation) (sp sp' sp'' : Space) (cs : List (String × Mutation)) (e e' : String)
    (n n' : ℕ) (new new' : Record) (a a' : Option String)
    → apply epoch user m (some i) sp ≡ (saved e n new a, sp')
    → apply epoch' user m' (some i) (serve_all uuid fingerprint user sp' cs)
      ≡ (saved e' n' new' a', sp'')
    → let t = (chosen_for user m (some i) sp).target in
      IsWritten user m.kind t new sp sp'
      × IsWritten user m'.kind t new' (serve_all uuid fingerprint user sp' cs) sp''
one_record_for_identity uuid fingerprint user epoch epoch' i m m' sp sp' sp'' cs e e' n n' new new'
      a a' h h' =
    let same = one_target uuid fingerprint user epoch i m m' sp sp' (saved e n new a) cs h refl in
    (
      apply-IsWritten epoch user m (some i) sp sp' e n new a h,
      rw same at (
          apply-IsWritten epoch' user m' (some i) (serve_all uuid fingerprint user sp' cs) sp'' e'
            n' new' a' h'),
    )
