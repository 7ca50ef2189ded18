-- ===== src/Parallel/Pass/Counts.antt =====
-- How often an index occurs among finished units and among jobs.
use lumae_plugin.Prelude.{
  ℕ, ◌+◌, ◌≤◌, ◌≡◌, Bool, true, false, some, List, [], ◌∷◌, ◌++◌, arith, nat_eq, first, length,
}
use lumae_plugin.Parallel.Pass.{Flight, is_at, remove}

abbrev pub one_if : Bool → ℕ
one_if true = 1
one_if false = 0

abbrev pub count : ℕ → List ℕ → ℕ
count i [] = 0
count i (j ∷ js) = one_if (nat_eq j i) + count i js

module _ {U : Type 0} where
  abbrev pub jobs_of : ℕ → List (Flight U) → ℕ
  jobs_of i [] = 0
  jobs_of i (f ∷ flights) = one_if (nat_eq f.index i) + jobs_of i flights

  pub jobs_of-append :
      (i : ℕ) (xs ys : List (Flight U)) → jobs_of i (xs ++ ys) ≡ jobs_of i xs + jobs_of i ys
  jobs_of-append i [] ys = omega arith
  jobs_of-append i (x ∷ xs) ys = omega (arith, jobs_of-append i xs ys)

  -- A job that is found and removed leaves all the others.
  pub jobs_of-remove :
      (i j : ℕ) (xs : List (Flight U)) (f : Flight U)
      → first (is_at j) xs ≡ some f
      → jobs_of i xs ≡ jobs_of i (remove f.index xs) + one_if (nat_eq f.index i)
  unfolding remove
  jobs_of-remove i j [] f h = absurd cc
  jobs_of-remove i j (x ∷ xs) f h = ground (arith, jobs_of-remove i j xs f)

  pub length-remove : (i : ℕ) (xs : List (Flight U)) → length (remove i xs) ≤ length xs
  unfolding remove
  length-remove i [] = omega arith
  length-remove i (x ∷ xs) = ground (arith, length-remove i xs)
