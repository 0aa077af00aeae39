-- ===== src/Base/Int.antt =====
-- Rust's signed integers, and their decimal text: `to_string` and `parse::<i64>`, `parse::<i128>`.
pub mod Decimal
use Prim.Native.Nat.{ℕ, zero, suc, ◌+◌, ◌-◌, ◌*◌, ◌/◌, ◌%◌, ◌^◌, ◌<◌, ◌≤◌, compare, Ordering}
use mathlib.Core.Path.{◌≡◌, refl, ap, ◌∙◌}
use mathlib.Core.Logic.{inl, inr}
use mathlib.Core.Bool.{Bool, true, false, ◌&&◌}
use mathlib.Core.Option.{Option, none, some}
use mathlib.Core.List.{List, [], ◌∷◌, ◌++◌}
use native.Mathlib.Omega.{arith}
use pg2osync.Base.Tests.{ltb, leb, ◌==◌, if◌then◌else◌, Bool-cases}
use pg2osync.Base.Lists.{length, length-append, All, All-append}
use pg2osync.Base.Text.{Text}

-- `negsuc n` is -(n + 1).
pub data ℤ : Type 0 where
  pos negsuc : ℕ → ℤ

-- `cmp`
unfoldable pub compare_int : ℤ → ℤ → Ordering
compare_int (pos m) (pos n) = compare m n
compare_int (pos m) (negsuc n) = Ordering.gt
compare_int (negsuc m) (pos n) = Ordering.lt
compare_int (negsuc m) (negsuc n) = compare n m

-- A range of 2 ^ (bits + 1) integers round zero, such as that of an `i64` at 63 bits.
abbrev pub Fits : ℕ → ℤ → Type 0
Fits bits (pos n) = n < 2 ^ bits
Fits bits (negsuc n) = n < 2 ^ bits

unfoldable pub is_digit : ℕ → Bool
is_digit c = leb 48 c && leb c 57

-- So many decimal places at most.
unfoldable pub decimal : ℕ → ℕ → Text
decimal zero n = []
decimal (suc places) n =
    let high = decimal places (n / 10) in
    if ltb n 10 then (48 + n) ∷ [] else high ++ (48 + n % 10) ∷ []

-- `i64::to_string`
unfoldable pub show_int : ℤ → Text
show_int (pos n) = decimal 20 n
show_int (negsuc n) = 45 ∷ decimal 20 (n + 1)

unfoldable pub add_decimal : Option ℕ → ℕ → Option ℕ
add_decimal none c = none
add_decimal (some n) c = if is_digit c then some (n * 10 + (c - 48)) else none

unfoldable pub decimals_from : Option ℕ → Text → Option ℕ
decimals_from n [] = n
decimals_from n (c ∷ s) = decimals_from (add_decimal n c) s

unfoldable pub natural : Text → Option ℕ
natural [] = none
natural (c ∷ s) = decimals_from (some 0) (c ∷ s)

unfoldable pub in_range : ℕ → Option ℕ → Option ℤ
in_range bits none = none
in_range bits (some n) = if ltb n (2 ^ bits) then some (pos n) else none

unfoldable pub negative : ℕ → Option ℕ → Option ℤ
negative bits none = none
negative bits (some zero) = some (pos 0)
negative bits (some (suc n)) = if ltb n (2 ^ bits) then some (negsuc n) else none

-- `str::parse` of a signed integer: one sign may stand before the digits
unfoldable pub parse_int : ℕ → Text → Option ℤ
parse_int bits [] = none
parse_int bits (c ∷ s) =
    if c == 45
    then negative bits (natural s)
    else (if c == 43 then in_range bits (natural s) else in_range bits (natural (c ∷ s)))
