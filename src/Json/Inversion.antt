-- ===== src/Json/Inversion.antt =====
-- What a chain of checks that passed says of each check.
use lumae_plugin.Prelude.{◌≡◌, refl, Bool, true, false}
use lumae_plugin.Json.{Error, Result, ok, err, unless, ◌>>=◌, ◌>>◌}

module _ {ℓ κ} {V : Type ℓ} {W : Type κ} where
  pub bind-ok :
      (check : Result V) (next : V → Result W) {w : W}
      → check >>= next ≡ ok w
      → (v : V) × (check ≡ ok v) × (next v ≡ ok w)
  bind-ok (err raised) next returned = cc
  bind-ok (ok v) next returned = (v, refl, returned)

module _ {ℓ} {W : Type ℓ} where
  pub unless-ok :
      (test : Bool) (raised : Error) (rest : Result W) {w : W}
      → (unless test raised >> rest) ≡ ok w
      → (test ≡ false) × (rest ≡ ok w)
  unless-ok false raised rest returned = (refl, returned)
  unless-ok true raised rest returned = cc

  pub ok_injective : {v w : W} → ok v ≡ ok w → v ≡ w
  ok_injective same = cc
