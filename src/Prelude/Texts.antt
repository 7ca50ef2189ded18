-- ===== src/Prelude/Texts.antt =====
-- Equations between the tests of texts for equality.
use mathlib.Core.Path.{◌≡◌, refl, ap, sym, ◌∙◌}
use mathlib.Core.Logic.{inl, inr}
use mathlib.Core.Bool.{true, false}
use Prim.Native.String.{String}
use text.Mathlib.Text.{◌==◌}
use text.Mathlib.TextEquality.{eq_iff}
use lumae_plugin.Prelude.Tests.{Bool-cases}

pub eq_comm : (a b : String) → (a == b) ≡ (b == a)
eq_comm a b = elim (Bool-cases (a == b)) [
  | inl e ↦ rw ((eq_iff a b).0 e) refl
  | inr e ↦ elim (Bool-cases (b == a)) [
    | inl f ↦ let same : a ≡ b = sym ((eq_iff b a).0 f) in let yes = (eq_iff a b).1 same in cc
    | inr f ↦ e ∙ sym f
  ]
]

-- Of two texts, one that equals the third and one that does not, differ.
pub eq_apart : (i j k : String) → (i == j) ≡ false → (i == k) ≡ true → (j == k) ≡ false
eq_apart i j k e f = eq_comm j k ∙ ap (λ z. z == j) (sym ((eq_iff i k).0 f)) ∙ e
