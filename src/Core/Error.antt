-- ===== src/Core/Error.antt =====
-- crates/core/src/error.rs, and the results of code that may fail.
use pg2osync.Base.{◌≡◌, refl}
use pg2osync.Base.Text.{Text}

pub data CoreError : Type 0 where
  source sink sink_transient invalid_lsn other : Text → CoreError

pub data Result {ℓ} (T : Type ℓ) : Type ℓ where
  err : CoreError → Result T
  ok : T → Result T

module _ {ℓ κ} {T : Type ℓ} {U : Type κ} where
  infixl 5 ◌>>=◌
  -- the `?` operator
  abbrev pub ◌>>=◌ : Result T → (T → Result U) → Result U
  err why >>= next = err why
  ok value >>= next = next value

  -- A bind that returns was given a value that returns.
  pub >>=-eq-ok :
      (first : Result T) (next : T → Result U) {last : U}
      → (first >>= next) ≡ ok last
      → (value : T) × (first ≡ ok value) × (next value ≡ ok last)
  >>=-eq-ok (err why) next returns = cc
  >>=-eq-ok (ok value) next returns = (value, refl, returns)

pub ok_inj {ℓ} : {T : Type ℓ} {x y : T} → ok x ≡ ok y → x ≡ y
ok_inj same = cc
