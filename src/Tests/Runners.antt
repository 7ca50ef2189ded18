-- ===== src/Tests/Runners.antt =====
-- Two processes that run one role, and the claims of a mark.
use lumae_plugin.Prelude.{List, some, ℕ, ◌+◌, ◌≤◌, ◌≡◌, refl, true, false, none, [], ◌∷◌, arith}
use lumae_plugin.Runner.{begins, ends}
use lumae_plugin.Runner.Marks.{Claim, claim_mark, claim_all}
use lumae_plugin.Runner.Marks.Spacing.{claim_mark_spaced}
use lumae_plugin.Runner.Leaders.{
  World, at_start, lead, release, change, Reached, at_first, led, turned,
}
use lumae_plugin.Runner.Leaders.Leading.{one_leader}
use lumae_plugin.Runner.{turn, idle_turn, next_wait}
use lumae_plugin.Runner.Rounds.{Round}
use lumae_plugin.Runner.Rounds.Ends.{waits_of}

abbrev hourly : ℕ → Claim
hourly now = record { name = "cleanup"; every = 3600; now = now }

claim_mark_spaced_example : 5000 + 3600 ≤ 9000
unfolding claim_mark claim_all
claim_mark_spaced_example =
    claim_mark_spaced (hourly 5000) (hourly 9000) (hourly 6000 ∷ []) (("cleanup", 1000) ∷ []) refl
      refl (omega arith, tt) refl

-- The first process leads and takes a turn; the second stands by.
abbrev contested : World
contested = lead 2 (change 1 (turn (begins "catalogue" ∷ ends true ∷ []) none) (lead 1 at_start))

contested-Reached : Reached contested
unfolding lead change turn
contested-Reached =
    led 2 _ refl
      (turned 1 (begins "catalogue" ∷ ends true ∷ []) none _ (led 1 at_start refl at_first))

one_leader_example :
    ((p q : ℕ)
      → (contested.runners p).leading ≡ true
      → (contested.runners q).leading ≡ true
      → p ≡ q)
    × ((p q : ℕ)
        → (contested.runners p).leading ≡ true
        → ((release p contested).runners q).connected ≡ false
        → ((lead q (release p contested)).runners q).leading ≡ true)
one_leader_example = one_leader contested contested-Reached

-- A turn that works, and one that finds nothing for half a second.
abbrev two_rounds : List Round
two_rounds =
    record {
      stopped = false;
      installed = true;
      reports = begins "catalogue" ∷ ends true ∷ [];
      outcome = some (record (idle_turn none "done") { worked = true });
      stopped_in_pause = false;
    }
    ∷ record {
      stopped = false;
      installed = true;
      reports = [];
      outcome = some (idle_turn (some 500) "nothing_due");
      stopped_in_pause = false;
    }
    ∷ []

-- A turn that raises inside an action.
abbrev raising_round : Round
raising_round = record {
  stopped = false;
  installed = true;
  reports = begins "credits" ∷ [];
  outcome = none;
  stopped_in_pause = false;
}

waits_seen : waits_of two_rounds ≡ 1000 ∷ 1000 ∷ []
unfolding idle_turn next_wait
waits_seen = refl
