-- ===== src/Engine/Mapping/Yields.antt =====
-- What a chain of attempts that is not refused returns.
use pg2osync.Base.{◌≡◌, refl}
use pg2osync.Engine.Mapping.{MappingError, Attempt, done, refused, ◌>>=◌}

-- Whatever an attempt returns has the property.
pub record Yields {A : Type 0} (P : A → Type 0) (r : Attempt A) : Type 0 where
  pub yielded : (a : A) → r ≡ done a → P a

module _ {A B : Type 0} {P : B → Type 0} where
  pub Yields-bind :
      (first : Attempt A) {next : A → Attempt B}
      → ((a : A) → first ≡ done a → Yields P (next a))
      → Yields P (first >>= next)
  Yields-bind (done a) {next} later = later a refl
  Yields-bind (refused why) {next} later = record { yielded = λ b e. cc }

pub Yields-done : {A : Type 0} {P : A → Type 0} {a : A} → P a → Yields P (done a)
Yields-done {A} {P} {a} h = record { yielded = λ b e. let same : a ≡ b = cc e in rw (← same) h }

pub Yields-refused : {A : Type 0} {P : A → Type 0} {why : MappingError} → Yields P (refused why)
Yields-refused = record { yielded = λ b e. cc }
