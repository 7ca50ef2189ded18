-- ===== src/Runner/Marks.antt =====
-- plugins/LumaeAnalysis/runner.py: `claim_mark`, over the rows of `runner_marks`.
pub mod Spacing
use lumae_plugin.Prelude.{
  ℕ, ◌+◌, Bool, true, false, String, Option, none, some, List, [], ◌∷◌, ◌==◌, leb, if◌then◌else◌,
}

-- The rows: a name and when it was last done.
abbrev pub Marks : Type 0
Marks = List (String × ℕ)

pub record Claim : Type 0 where
  pub name : String
  pub every : ℕ
  pub now : ℕ

pub done_at : String → Marks → Option ℕ
done_at name [] = none
done_at name (row ∷ rows) = if row.0 == name then some row.1 else done_at name rows

pub with_row : String × ℕ → Bool × Marks → Bool × Marks
with_row row result = (result.0, row ∷ result.1)

-- The conflict: the row is done again when it is old enough.
pub renew : Claim → String × ℕ → Marks → Bool × Marks
renew c row rows =
    if leb (row.1 + c.every) c.now then (true, (row.0, c.now) ∷ rows) else (false, row ∷ rows)

-- `claim_mark(cur, name, every_seconds)`: whether the claim is granted, and the rows.
unfoldable pub claim_mark : Claim → Marks → Bool × Marks
unfolding with_row renew
claim_mark c [] = (true, (c.name, c.now) ∷ [])
claim_mark c (row ∷ rows) =
    let rest = claim_mark c rows in if row.0 == c.name then renew c row rows else with_row row rest

-- The rows after claims by any runners.
unfoldable pub claim_all : List Claim → Marks → Marks
unfolding claim_mark
claim_all [] marks = marks
claim_all (c ∷ cs) marks = claim_all cs (claim_mark c marks).1
