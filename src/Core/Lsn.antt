-- ===== src/Core/Lsn.antt =====
-- crates/core/src/lsn.rs: a position in the source's log, and its textual form `X/Y`, the two
-- halves of a 64-bit number in hexadecimal. Texts are byte strings.
pub mod Hex
pub mod Halves
pub mod RoundTrip
use pg2osync.Base.{
  ℕ, zero, suc, ◌+◌, ◌-◌, ◌*◌, ◌/◌, ◌%◌, ◌^◌, Bool, true, false, ◌&&◌, ◌||◌, Option, none, some, [],
  ◌∷◌, ◌++◌, ltb, leb, ◌==◌, if◌then◌else◌,
}
use pg2osync.Base.Text.{Text}
use pg2osync.Core.Error.{Result, err, ok, invalid_lsn}

pub record Lsn : Type 0 where
  pub value : ℕ

-- `{:X}`: a digit, and a number, whose digits the first argument bounds
unfoldable pub hex_digit : ℕ → ℕ
hex_digit d = if ltb d 10 then 48 + d else 55 + d

unfoldable pub hex : ℕ → ℕ → Text
hex zero n = []
hex (suc digits) n =
    let high = hex digits (n / 16) in
    if ltb n 16 then hex_digit n ∷ [] else high ++ hex_digit (n % 16) ∷ []

unfoldable pub fmt : Lsn → Text
fmt l = hex 16 (l.value / 2 ^ 32) ++ 47 ∷ hex 16 (l.value % 2 ^ 32)

-- `char::to_digit(16)`, which takes both cases
unfoldable pub to_digit : ℕ → Option ℕ
to_digit c =
    if leb 48 c && leb c 57
    then some (c - 48)
    else (if leb 65 c && leb c 70
        then some (c - 55)
        else (if leb 97 c && leb c 102 then some (c - 87) else none))

-- One more digit of a `u64`, if it does not overflow.
unfoldable pub add_digit : ℕ → Option ℕ → Option ℕ
add_digit n none = none
add_digit n (some d) = if ltb (n * 16 + d) (2 ^ 64) then some (n * 16 + d) else none

unfoldable pub add_next : Option ℕ → ℕ → Option ℕ
add_next none c = none
add_next (some n) c = add_digit n (to_digit c)

unfoldable pub digits_from : Option ℕ → Text → Option ℕ
digits_from n [] = n
digits_from n (c ∷ s) = digits_from (add_next n c) s

-- `u64::from_str_radix(s, 16)`: a sign `+` may stand before the digits
unfoldable pub from_str_radix : Text → Option ℕ
from_str_radix [] = none
from_str_radix (c ∷ []) = digits_from (some 0) (c ∷ [])
from_str_radix (c ∷ d ∷ s) =
    if c == 43 then digits_from (some 0) (d ∷ s) else digits_from (some 0) (c ∷ d ∷ s)

-- `|`, on numbers of so many bits
unfoldable pub bit_or : ℕ → ℕ → ℕ → ℕ
bit_or zero a b = 0
bit_or (suc bits) a b =
    (if a % 2 == 1 || b % 2 == 1 then 1 else 0) + 2 * bit_or bits (a / 2) (b / 2)

unfoldable pub before_split : ℕ → Option (Text × Text) → Option (Text × Text)
before_split c none = none
before_split c (some halves) = some (c ∷ halves.0, halves.1)

-- `str::split_once('/')`
unfoldable pub split_once : Text → Option (Text × Text)
split_once [] = none
split_once (c ∷ s) =
    let later = split_once s in if c == 47 then some ([], s) else before_split c later

unfoldable pub joined : Text → Option ℕ → Option ℕ → Result Lsn
joined s none lo = err (invalid_lsn s)
joined s (some hi) none = err (invalid_lsn s)
joined s (some hi) (some lo) = ok (record { value = bit_or 64 ((hi * 2 ^ 32) % 2 ^ 64) lo })

unfoldable pub from_halves : Text → Option (Text × Text) → Result Lsn
from_halves s none = err (invalid_lsn s)
from_halves s (some (hi, lo)) = joined s (from_str_radix hi) (from_str_radix lo)

unfoldable pub from_str : Text → Result Lsn
from_str s = from_halves s (split_once s)
