-- ===== src/Discovery/Again.antt =====
-- A mutation of personal discovery is applied once, however often its request is sent.
use lumae_plugin.Prelude.{
  ◌≡◌, refl, ap, sym, ◌∙◌, inl, inr, Bool, true, false, String, Option, none, some, List, [], ◌∷◌,
  ◌==◌, if◌then◌else◌, first, eq_iff, Bool-cases, Option-cases,
}
use text.Mathlib.TextPositions.{eq_refl}
use lumae_plugin.Json.{Result, ok, err, ◌>>=◌}
use lumae_plugin.Json.Inversion.{bind-ok, ok_injective}
use lumae_plugin.Discovery.{
  Mutation, Payload, mutation_id_reused, bootstrap_required, Receipt, Space, scope, is_of,
  fields_of, identity_of, Record,
}
use lumae_plugin.Discovery.Mutate.{
  apply, settle, write, keep_receipt, answer, in_epoch, mutate, Chosen, chosen_for, record_at,
}

abbrev pub is_bootstrap : Payload → Bool
is_bootstrap (bootstrap_required e) = true
is_bootstrap _ = false

settle_keeps :
    (epoch user : String) (m : Mutation) (c : Chosen) (i : Option String) (old : Record)
    (r : Option Payload) (sp : Space)
    → ((settle epoch user m c i old r sp).1.receipts ≡ sp.receipts)
      × ((settle epoch user m c i old r sp).1.epoch ≡ sp.epoch)
unfolding settle write
settle_keeps epoch user m c i old (some p) sp = (refl, refl)
settle_keeps epoch user m c i old none sp = (refl, refl)

apply_keeps :
    (epoch user : String) (m : Mutation) (i : Option String) (sp : Space)
    → ((apply epoch user m i sp).1.receipts ≡ sp.receipts)
      × ((apply epoch user m i sp).1.epoch ≡ sp.epoch)
unfolding apply
apply_keeps epoch user m i sp =
    let c = chosen_for user m i sp in
    settle_keeps epoch user m c i (record_at user m.kind c.target sp) _ sp

unfoldable pub after_of : Result (Payload × Space) → Space → Space
after_of (ok (p, sp')) sp = sp'
after_of (err e) sp = sp

module _ (uuid : String → Option String) (fingerprint : Mutation → String) (user : String) where
  -- The mutation `m` has its answer `p` on record.
  abbrev reply_of : Mutation → Receipt → Payload
  reply_of m r = if r.fingerprint == fingerprint m then r.payload else mutation_id_reused

  record IsAnswered (m : Mutation) (p : Payload) (sp : Space) : Type 0 where
    open_epoch : sp.epoch ≡ some m.epoch
    found : Receipt
    on_record : first (is_of m.id) sp.receipts ≡ some found
    replies : reply_of m found ≡ p

  -- The tables after a request: an exception rolls them back.
  unfoldable pub serve : Space → String × Mutation → Space
  unfolding after_of
  serve sp (new_epoch, m) = after_of (mutate uuid fingerprint new_epoch user m sp) sp

  unfoldable pub serve_all : Space → List (String × Mutation) → Space
  serve_all sp [] = sp
  serve_all sp (c ∷ cs) = serve_all (serve sp c) cs

  keep-IsAnswered :
      (m : Mutation) (o : Payload × Space)
      → o.1.epoch ≡ some m.epoch
      → IsAnswered m (keep_receipt m.id (fingerprint m) o).0 (keep_receipt m.id (fingerprint m) o).1
  unfolding keep_receipt
  keep-IsAnswered m (p, sp) e = record {
    open_epoch = e;
    found = record { id = m.id; fingerprint = fingerprint m; payload = p };
    on_record = rw (eq_refl m.id) refl;
    replies = rw (eq_refl (fingerprint m)) refl;
  }

  carry :
      (m : Mutation) (o o' : Payload × Space)
      → o ≡ o'
      → IsAnswered m o.0 o.1
      → IsAnswered m o'.0 o'.1
  carry m o o' e a = rw e at a

  answer-IsAnswered :
      (epoch : String) (m : Mutation) (found : Option Receipt) (sp sp' : Space) (p : Payload)
      → first (is_of m.id) sp.receipts ≡ found
      → sp.epoch ≡ some m.epoch
      → answer uuid fingerprint epoch user m found sp ≡ ok (p, sp')
      → IsAnswered m p sp'
  unfolding answer
  answer-IsAnswered epoch m (some r) sp sp' p f e h =
      let same = ok_injective h in
      let at : sp ≡ sp' = ap (λ z. z.1) same in
      record {
        open_epoch = rw at at e;
        found = r;
        on_record = rw at at f;
        replies = ap (λ z. z.0) same;
      }
  answer-IsAnswered epoch m none sp sp' p f e h =
      let (i, checked, rest) = bind-ok (identity_of uuid m.kind (fields_of m)) _ h in
      let kept =
        keep-IsAnswered m (apply epoch user m i sp) ((apply_keeps epoch user m i sp).1 ∙ e) in
      carry m _ (p, sp') (ok_injective rest) kept

  -- Another request's new receipt leaves an answer on record.
  keep_receipt_keeps :
      (n m : Mutation) (p : Payload) (sp : Space) (o : Payload × Space)
      → first (is_of n.id) sp.receipts ≡ none
      → (o.1.receipts ≡ sp.receipts) × (o.1.epoch ≡ sp.epoch)
      → IsAnswered m p sp
      → IsAnswered m p (keep_receipt n.id (fingerprint n) o).1
  unfolding keep_receipt
  keep_receipt_keeps n m p sp (q, sp') f e a = record {
    open_epoch = e.1 ∙ a.open_epoch;
    found = a.found;
    on_record = rw e.0 (elim (Bool-cases (n.id == m.id)) [
      | inr d ↦ rw d a.on_record
      | inl d ↦ absurd (
          let same = (eq_iff n.id m.id).0 d in
          let none_there = rw same at f in let r = a.on_record in cc)
    ]);
    replies = a.replies;
  }

  checked_keeps :
      (epoch : String) (n m : Mutation) (p : Payload) (sp : Space)
      (checked : Result (Option String))
      → first (is_of n.id) sp.receipts ≡ none
      → IsAnswered m p sp
      → IsAnswered m p (
          after_of
            (checked >>= λ i. ok (keep_receipt n.id (fingerprint n) (apply epoch user n i sp)))
            sp)
  unfolding after_of
  checked_keeps epoch n m p sp (err e) f a = a
  checked_keeps epoch n m p sp (ok i) f a =
      keep_receipt_keeps n m p sp (apply epoch user n i sp) f (apply_keeps epoch user n i sp) a

  answer_keeps :
      (epoch : String) (n : Mutation) (found : Option Receipt) (m : Mutation) (p : Payload)
      (sp : Space)
      → first (is_of n.id) sp.receipts ≡ found
      → IsAnswered m p sp
      → IsAnswered m p (after_of (answer uuid fingerprint epoch user n found sp) sp)
  unfolding answer
  answer_keeps epoch n (some r) m p sp f a = unfold after_of in a
  answer_keeps epoch n none m p sp f a = checked_keeps epoch n m p sp _ f a

  in_epoch_keeps :
      (current : Bool) (epoch : String) (n m : Mutation) (p : Payload) (sp : Space)
      → IsAnswered m p sp
      → IsAnswered m p (after_of (in_epoch uuid fingerprint current user n epoch sp) sp)
  unfolding in_epoch
  in_epoch_keeps false epoch n m p sp a = unfold after_of in a
  in_epoch_keeps true epoch n m p sp a = answer_keeps epoch n _ m p sp refl a

  -- The scope row is there, and it is not made again.
  scope_found :
      (new_epoch epoch : String) (sp : Space)
      → sp.epoch ≡ some epoch
      → scope new_epoch sp ≡ (epoch, sp)
  unfolding scope
  scope_found new_epoch epoch sp e = rw e refl

  serve_keeps :
      (c : String × Mutation) (m : Mutation) (p : Payload) (sp : Space)
      → IsAnswered m p sp
      → IsAnswered m p (serve sp c)
  unfolding serve mutate
  serve_keeps (new_epoch, n) m p sp a =
      rw (scope_found new_epoch m.epoch sp a.open_epoch)
        (in_epoch_keeps (n.epoch == m.epoch) m.epoch n m p sp a)

  serve_all_keeps :
      (cs : List (String × Mutation)) (m : Mutation) (p : Payload) (sp : Space)
      → IsAnswered m p sp
      → IsAnswered m p (serve_all sp cs)
  unfolding serve_all
  serve_all_keeps [] m p sp a = a
  serve_all_keeps (c ∷ cs) m p sp a = serve_all_keeps cs m p (serve sp c) (serve_keeps c m p sp a)

  answered_again :
      (new_epoch : String) (m : Mutation) (p : Payload) (sp : Space)
      → IsAnswered m p sp
      → mutate uuid fingerprint new_epoch user m sp ≡ ok (p, sp)
  unfolding mutate in_epoch answer
  answered_again new_epoch m p sp a =
      rw (scope_found new_epoch m.epoch sp a.open_epoch, eq_refl m.epoch, a.on_record, a.replies)
        refl

  in_epoch-IsAnswered :
      (current : Bool) (epoch : String) (m : Mutation) (sp sp' : Space) (p : Payload)
      → (current ≡ true → sp.epoch ≡ some m.epoch)
      → in_epoch uuid fingerprint current user m epoch sp ≡ ok (p, sp')
      → is_bootstrap p ≡ false
      → IsAnswered m p sp'
  unfolding in_epoch
  in_epoch-IsAnswered false epoch m sp sp' p e h b =
      absurd (let same = ap (λ z. is_bootstrap z.0) (ok_injective h) in cc)
  in_epoch-IsAnswered true epoch m sp sp' p e h b =
      answer-IsAnswered epoch m _ sp sp' p refl (e refl) h

  entered :
      (new_epoch : String) (sp : Space) → (scope new_epoch sp).1.epoch ≡ some (scope new_epoch sp).0
  unfolding scope
  entered new_epoch sp = elim (Option-cases sp.epoch) [ inl e ↦ rw e refl | inr (a, e) ↦ rw e refl ]

  first_answer :
      (new_epoch : String) (m : Mutation) (p : Payload) (sp sp' : Space)
      → mutate uuid fingerprint new_epoch user m sp ≡ ok (p, sp')
      → is_bootstrap p ≡ false
      → IsAnswered m p sp'
  unfolding mutate
  first_answer new_epoch m p sp sp' h b =
      in_epoch-IsAnswered (m.epoch == (scope new_epoch sp).0) (scope new_epoch sp).0 m
        (scope new_epoch sp).1 sp' p (λ e. entered new_epoch sp ∙ ap some (sym ((eq_iff _ _).0 e)))
        h b

  -- A mutation that was answered, with 200 or with 409 but not with `bootstrap_required`, is given the
  -- same answer when its request comes again after any other requests of the principal, and the
  -- second time it changes nothing.
  pub mutate_again :
      (new_epoch again_epoch : String) (m : Mutation) (p : Payload) (sp sp' : Space)
      (cs : List (String × Mutation))
      → mutate uuid fingerprint new_epoch user m sp ≡ ok (p, sp')
      → is_bootstrap p ≡ false
      → mutate uuid fingerprint again_epoch user m (serve_all sp' cs) ≡ ok (p, serve_all sp' cs)
  mutate_again new_epoch again_epoch m p sp sp' cs h b =
      answered_again again_epoch m p _
        (serve_all_keeps cs m p sp' (first_answer new_epoch m p sp sp' h b))
