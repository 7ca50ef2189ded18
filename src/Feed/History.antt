-- ===== src/Feed/History.antt =====
-- Any interleaving of writes, by any devices in any scopes, with one device's page fetches.
use lumae_plugin.Prelude.{ℕ, ◌≡◌, false, String, List, [], ◌∷◌, arith}
use lumae_plugin.Feed.{Scope, Table, find, upsert, changes}
use lumae_plugin.Feed.Invariant.{IsFeed, upsert-IsFeed}
use lumae_plugin.Feed.Sync.{
  Device, follow, IsCurrent, upsert-IsCurrent, follow-IsCurrent, follow_caught_up,
}

-- What happens next: a device writes a record, or the observed device fetches a page.
pub data Event (V : Type 0) : Type 0 where
  write : Scope → String → V → Event V
  fetch : ℕ → Event V

module _ {V : Type 0} where
  abbrev pub empty : Table V
  empty = record { rows = []; last_seq = 0 }

  abbrev pub fresh : Device V
  fresh = record { cursor = 0; copy = [] }

  unfoldable pub happen : Scope → List (Event V) → Table V → Device V → Table V × Device V
  happen s [] t d = (t, d)
  happen s (write s' i v ∷ es) t d = happen s es (upsert s' i v t) d
  happen s (fetch n ∷ es) t d = happen s es t (follow s n t d)

  IsFeed-empty : IsFeed empty
  IsFeed-empty = record { keys = tt; seqs = tt; bounded = tt }

  IsCurrent-fresh : (s : Scope) → IsCurrent s empty fresh
  unfolding find
  IsCurrent-fresh s = record {
    cursor_bounded = omega arith;
    known = λ i r f l. cc;
    nothing_else = λ i f. f;
  }

  happen-keeps :
      (s : Scope) (es : List (Event V)) (t : Table V) (d : Device V)
      → IsFeed t
      → IsCurrent s t d
      → IsFeed (happen s es t d).0 × IsCurrent s (happen s es t d).0 (happen s es t d).1
  unfolding happen
  happen-keeps s [] t d f c = (f, c)
  happen-keeps s (write s' i v ∷ es) t d f c =
      happen-keeps s es (upsert s' i v t) d (upsert-IsFeed s' i v t f)
        (upsert-IsCurrent s s' i v t d c)
  happen-keeps s (fetch n ∷ es) t d f c =
      happen-keeps s es t (follow s n t d) f (follow-IsCurrent s n t d f c)

  -- After any history of writes and fetches that began with an empty table and a fresh device, a
  -- fetched page that reports no more rows leaves the device with exactly the records of its scope:
  -- every lookup by id in its copy returns what the table returns, the latest version or nothing.
  pub happen-caught_up :
      (s : Scope) (es : List (Event V)) (n : ℕ)
      → (changes s (happen s es empty fresh).1.cursor n (happen s es empty fresh).0).has_more
        ≡ false
      → (i : String)
      → find s i (follow s n (happen s es empty fresh).0 (happen s es empty fresh).1).copy
        ≡ find s i (happen s es empty fresh).0.rows
  happen-caught_up s es n m i =
      let (f, c) = happen-keeps s es empty fresh IsFeed-empty (IsCurrent-fresh s) in
      follow_caught_up s n (happen s es empty fresh).0 (happen s es empty fresh).1 f c m i

  -- After any such history each key has one row and each row its own sequence number, and no number
  -- is above the last one given.
  pub happen-IsFeed : (s : Scope) (es : List (Event V)) → IsFeed (happen s es empty fresh).0
  happen-IsFeed s es = (happen-keeps s es empty fresh IsFeed-empty (IsCurrent-fresh s)).0
