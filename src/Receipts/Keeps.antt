-- ===== src/Receipts/Keeps.antt =====
-- What a mutation keeps of the record table, its route's transaction keeps.
use lumae_plugin.Prelude.{ℕ, inl, inr, String, Option, none, some, ◌==◌, Bool-cases}
use lumae_plugin.Feed.{Scope, Table}
use lumae_plugin.Receipts.{
  Receipt, Store, Outcome, accepted, refused, find_receipt, finish, decide, acknowledge,
}

module _ {V P : Type 0} (K : Table V → Type 0) where
  finish-keeps :
      (s : Scope) (i f : String) (now : ℕ) (st : Store V P) (o : Outcome P × Table V)
      → K o.1
      → K (finish s i f now st o).1.table
  unfolding finish
  finish-keeps s i f now st (accepted p, t) h = h
  finish-keeps s i f now st (refused p, t) h = h

  decide-keeps :
      (apply : Table V → Outcome P × Table V) (s : Scope) (i f : String) (now : ℕ) (st : Store V P)
      (o : Option (Receipt P))
      → K (apply st.table).1
      → K st.table
      → K (decide o apply s i f now st).1.table
  unfolding decide
  decide-keeps apply s i f now st none k h = finish-keeps s i f now st (apply st.table) k
  decide-keeps apply s i f now st (some r) k h = elim (Bool-cases (r.fingerprint == f)) [
    | inl e ↦ rw e h
    | inr e ↦ rw e h
  ]

  pub acknowledge-keeps :
      (apply : Table V → Outcome P × Table V) (s : Scope) (i f : String) (now : ℕ) (st : Store V P)
      → K (apply st.table).1
      → K st.table
      → K (acknowledge apply s i f now st).1.table
  unfolding acknowledge
  acknowledge-keeps apply s i f now st k h =
      decide-keeps apply s i f now st (find_receipt s i st.receipts) k h
