-- ===== src/Base/Text.antt =====
-- Rust's `str` and `String` as their UTF-8 bytes, with byte equality and literals.
use Prim.Native.Char.{code}
use Prim.Native.String.{String}
use Prim.Native.Nat.{ℕ}
use mathlib.Core.Path.{◌≡◌, refl}
use mathlib.Core.Logic.{◌↔◌}
use mathlib.Core.Bool.{Bool, true, false, ◌&&◌}
use mathlib.Core.List.{List, [], ◌∷◌}
use native.Mathlib.Omega.{arith}
use pg2osync.Base.Map.{Eq}
use pg2osync.Base.Tests.{◌==◌}

abbrev pub Text : Type 0
Text = List ℕ

-- An ASCII literal of the source.
abbrev pub text : String → Text
text String.[] = []
text (String.◌∷◌ c s) = code c ∷ text s

unfoldable pub text_eq : Text → Text → Bool
text_eq [] [] = true
text_eq [] (b ∷ bs) = false
text_eq (a ∷ as') [] = false
text_eq (a ∷ as') (b ∷ bs) = (a == b) && text_eq as' bs

text_eq_sound : (s t : Text) → text_eq s t ≡ true → s ≡ t
unfolding text_eq
text_eq_sound [] [] h = refl
text_eq_sound [] (b ∷ bs) h = cc
text_eq_sound (a ∷ as') [] h = cc
text_eq_sound (a ∷ as') (b ∷ bs) h = ground (arith, text_eq_sound as' bs)

pub text_eq_refl : (s : Text) → text_eq s s ≡ true
unfolding text_eq
text_eq_refl [] = refl
text_eq_refl (a ∷ as') = ground (arith, text_eq_refl as')

pub text_eq_iff : (s t : Text) → (text_eq s t ≡ true) ↔ (s ≡ t)
text_eq_iff s t = (text_eq_sound s t, λ e. rw e (text_eq_refl t))

instance abbrev pub text_key : Eq Text
text_key = record { beq = text_eq; beq_iff = text_eq_iff }

unfoldable pub pair_eq : Text × Text → Text × Text → Bool
pair_eq a b = text_eq a.0 b.0 && text_eq a.1 b.1

pub pair_eq_iff : (a b : Text × Text) → (pair_eq a b ≡ true) ↔ (a ≡ b)
unfolding pair_eq
pair_eq_iff (a, c) (b, d) = ground (arith, text_eq_iff a b, text_eq_iff c d)

-- A pair of texts, such as `(schema, table)` or `(index, id)`.
instance abbrev pub pair_key : Eq (Text × Text)
pair_key = record { beq = pair_eq; beq_iff = pair_eq_iff }
