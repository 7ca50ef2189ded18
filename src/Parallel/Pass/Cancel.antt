-- ===== src/Parallel/Pass/Cancel.antt =====
-- What `_cancel_in_flight` of plugins/LumaeAnalysis/parallel_analysis.py leaves when a pass raises.
use lumae_plugin.Prelude.{ℕ, ◌≡◌, Bool, true, List}
use lumae_plugin.Parallel.Pass.{Left, prepare_raises}
use lumae_plugin.Parallel.Pass.Tally.{IsSound}

module _ {U : Type 0} (raises : ℕ → Bool) where
  module _ (workers : ℕ) (units : List U) where
    -- What holds at every moment of a pass, and a `finish` to blame where one raised.
    record IsLeft (l : Left U) : Type 0 where
      sound : IsSound workers units l.running
      blamed : l.raised ≡ true → (i : ℕ) × (raises i ≡ true)

  module _ (u : U) (us : List U) where
    -- The unit whose `prepare` raised, taken from what the rest of a pass left.
    abbrev pub with_raised : Left U → Left U
    with_raised l = record l { running = prepare_raises u us l.running }
