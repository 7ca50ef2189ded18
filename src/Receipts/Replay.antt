-- ===== src/Receipts/Replay.antt =====
-- A mutation is applied once, however often its request is sent.
use text.Mathlib.TextPositions.{eq_refl}
use lumae_plugin.Prelude.{
  ℕ, ◌≡◌, refl, inl, inr, true, String, Option, none, some, List, [], ◌∷◌, ◌==◌, Bool-cases,
  and_split, eq_iff,
}
use lumae_plugin.Feed.{Scope, same_scope, Table}
use lumae_plugin.Feed.Writes.{same_scope_eq, same_scope_refl}
use lumae_plugin.Receipts.{
  Receipt, Store, Outcome, accepted, refused, Reply, done, is_receipt, find_receipt, finish, decide,
  acknowledge,
}

-- One request that reached the transaction.
pub record Call (V P : Type 0) : Type 0 where
  pub apply : Table V → Outcome P × Table V
  pub scope : Scope
  pub id : String
  pub fingerprint : String
  pub now : ℕ

module _ {P : Type 0} where
  is_receipt-split :
      (s : Scope) (i : String) (r : Receipt P)
      → is_receipt s i r ≡ true
      → (r.scope ≡ s) × (r.id ≡ i)
  unfolding is_receipt
  is_receipt-split s i r h =
      let (a, b) = and_split (same_scope r.scope s) (r.id == i) h in
      (same_scope_eq r.scope s a, (eq_iff r.id i).0 b)

module _ {V P : Type 0} where
  unfoldable pub serve : Store V P → Call V P → Reply P × Store V P
  serve st c = acknowledge c.apply c.scope c.id c.fingerprint c.now st

  unfoldable pub serve_all : Store V P → List (Call V P) → Store V P
  serve_all st [] = st
  serve_all st (c ∷ cs) = serve_all (serve st c).1 cs

  finish_keeps :
      (s : Scope) (i : String) (r : Receipt P) (st : Store V P) (c : Call V P)
      (o : Outcome P × Table V)
      → find_receipt s i st.receipts ≡ some r
      → find_receipt c.scope c.id st.receipts ≡ none
      → find_receipt s i (finish c.scope c.id c.fingerprint c.now st o).1.receipts ≡ some r
  unfolding finish
  finish_keeps s i r st c (refused p, t) f g = f
  finish_keeps s i r st c (accepted p, t) f g =
      let new : Receipt P = record {
        scope = c.scope;
        id = c.id;
        response = p;
        fingerprint = c.fingerprint;
        created_at = c.now;
      } in
      unfold find_receipt in
      elim (Bool-cases (is_receipt s i new)) [
        | inl e ↦
            let (a, b) = is_receipt-split s i new e in
            let taken : find_receipt s i st.receipts ≡ none = rw (← a, ← b) g in cc
        | inr e ↦ rw e (unfold find_receipt in f)
      ]

  decide_keeps :
      (s : Scope) (i : String) (r : Receipt P) (st : Store V P) (c : Call V P)
      (o : Option (Receipt P))
      → find_receipt c.scope c.id st.receipts ≡ o
      → find_receipt s i st.receipts ≡ some r
      → find_receipt s i (decide o c.apply c.scope c.id c.fingerprint c.now st).1.receipts ≡ some r
  unfolding decide
  decide_keeps s i r st c none g f = finish_keeps s i r st c (c.apply st.table) f g
  decide_keeps s i r st c (some q) g f = elim (Bool-cases (q.fingerprint == c.fingerprint)) [
    | inl e ↦ rw e f
    | inr e ↦ rw e f
  ]

  -- A receipt stays what it is through any later request.
  pub serve-keeps_receipt :
      (s : Scope) (i : String) (r : Receipt P) (st : Store V P) (c : Call V P)
      → find_receipt s i st.receipts ≡ some r
      → find_receipt s i (serve st c).1.receipts ≡ some r
  unfolding serve acknowledge decide
  serve-keeps_receipt s i r st c f =
      decide_keeps s i r st c (find_receipt c.scope c.id st.receipts) refl f

  serve_all-keeps_receipt :
      (s : Scope) (i : String) (r : Receipt P) (st : Store V P) (cs : List (Call V P))
      → find_receipt s i st.receipts ≡ some r
      → find_receipt s i (serve_all st cs).receipts ≡ some r
  unfolding serve_all
  serve_all-keeps_receipt s i r st [] f = f
  serve_all-keeps_receipt s i r st (c ∷ cs) f =
      serve_all-keeps_receipt s i r (serve st c).1 cs (serve-keeps_receipt s i r st c f)

module _ {V P : Type 0} (st : Store V P) (c : Call V P) (p : P) where
  abbrev Answered : Store V P → Type 0
  Answered st' =
      (r : Receipt P) × (find_receipt c.scope c.id st'.receipts ≡ some r)
      × (r.fingerprint ≡ c.fingerprint)
      × (r.response ≡ p)

  finish-Answered :
      (o : Outcome P × Table V)
      → (finish c.scope c.id c.fingerprint c.now st o).0 ≡ done p
      → Answered (finish c.scope c.id c.fingerprint c.now st o).1
  unfolding finish find_receipt is_receipt
  finish-Answered (refused q, t) h = cc
  finish-Answered (accepted q, t) h = (
    record {
      scope = c.scope;
      id = c.id;
      response = q;
      fingerprint = c.fingerprint;
      created_at = c.now;
    },
    rw (same_scope_refl c.scope, eq_refl c.id) refl,
    refl,
    cc,
  )

  decide-Answered :
      (o : Option (Receipt P))
      → find_receipt c.scope c.id st.receipts ≡ o
      → (decide o c.apply c.scope c.id c.fingerprint c.now st).0 ≡ done p
      → Answered (decide o c.apply c.scope c.id c.fingerprint c.now st).1
  unfolding decide
  decide-Answered none g h = finish-Answered (c.apply st.table) h
  decide-Answered (some q) g h = elim (Bool-cases (q.fingerprint == c.fingerprint)) [
    | inl e ↦
        let same : done q.response ≡ done p = rw e at h in
        rw e (q, g, (eq_iff q.fingerprint c.fingerprint).0 e, cc)
    | inr e ↦ cc (rw e at h)
  ]

  -- A request that was answered with status 200 has left its receipt.
  answered : (serve st c).0 ≡ done p → Answered (serve st c).1
  unfolding serve acknowledge decide
  answered h = decide-Answered (find_receipt c.scope c.id st.receipts) refl h

  decide_again :
      (st' : Store V P) (r : Receipt P) (o : Option (Receipt P))
      → o ≡ some r
      → r.fingerprint ≡ c.fingerprint
      → r.response ≡ p
      → decide o c.apply c.scope c.id c.fingerprint c.now st' ≡ (done p, st')
  unfolding decide
  decide_again st' r none f g e = cc
  decide_again st' r (some q) f g e =
      let same : q ≡ r = cc in rw (same, g, eq_refl c.fingerprint, e) refl

  serve_decided :
      (st' : Store V P)
      → decide (find_receipt c.scope c.id st'.receipts) c.apply c.scope c.id c.fingerprint c.now st'
        ≡ (done p, st')
      → serve st' c ≡ (done p, st')
  unfolding serve acknowledge
  serve_decided st' d = d

  -- A request that was answered with status 200 is answered with the same payload when it is sent
  -- again, after any other requests to any scope, and the second time it changes nothing, whatever
  -- the code that would apply it then does. (No receipt is purged in between.)
  pub serve_again :
      (cs : List (Call V P))
      → (serve st c).0 ≡ done p
      → serve (serve_all (serve st c).1 cs) c ≡ (done p, serve_all (serve st c).1 cs)
  serve_again cs h =
      let (r, f, g, e) = answered h in
      let later = serve_all (serve st c).1 cs in
      let still = serve_all-keeps_receipt c.scope c.id r (serve st c).1 cs f in
      serve_decided later
        (decide_again later r (find_receipt c.scope c.id later.receipts) still g e)
