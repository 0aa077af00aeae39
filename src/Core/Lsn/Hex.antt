-- ===== src/Core/Lsn/Hex.antt =====
-- What `from_str_radix` reads of the digits that `{:X}` writes.
use pg2osync.Base.{
  ℕ, zero, suc, ◌+◌, ◌*◌, ◌/◌, ◌%◌, ◌^◌, ◌<◌, ◌≤◌, ◌≡◌, refl, ap, ◌∙◌, Option, some, [], ◌∷◌, ◌++◌,
  All, All-append, arith, ltb, length, length-append, Bool-cases, inl, inr,
}
use pg2osync.Base.Text.{Text}
use pg2osync.Core.Lsn.{hex_digit, hex, to_digit, add_digit, add_next, digits_from, from_str_radix}

-- The byte of a digit, neither a sign nor a slash.
abbrev pub IsPlain : ℕ → Type 0
IsPlain c = 48 ≤ c

IsPlain-hex_digit : (d : ℕ) → IsPlain (hex_digit d)
unfolding hex_digit
IsPlain-hex_digit d = ground arith

pub IsPlain-hex : (digits n : ℕ) → All IsPlain (hex digits n)
unfolding hex
IsPlain-hex zero n = tt
IsPlain-hex (suc digits) n =
    elim (Bool-cases (ltb n 16)) as (λ _. All IsPlain (hex (suc digits) n)) [
      | inl below ↦ rw below (IsPlain-hex_digit n, tt)
      | inr over ↦ rw over (
          All-append IsPlain (hex digits (n / 16)) (hex_digit (n % 16) ∷ [])
            (IsPlain-hex digits (n / 16)) (IsPlain-hex_digit (n % 16), tt))
    ]

to_digit-hex_digit : (d : ℕ) → d < 16 → to_digit (hex_digit d) ≡ some d
unfolding to_digit hex_digit
to_digit-hex_digit d h = ground arith

digits_from-snoc :
    (n : Option ℕ) (s : Text) (c : ℕ) → digits_from n (s ++ c ∷ []) ≡ add_next (digits_from n s) c
unfolding digits_from
digits_from-snoc n [] c = refl
digits_from-snoc n (d ∷ s) c = digits_from-snoc (add_next n d) s c

add_next-hex_digit :
    (n d : ℕ) → d < 16 → n * 16 + d < 2 ^ 64 → add_next (some n) (hex_digit d) ≡ some (n * 16 + d)
unfolding add_next add_digit
add_next-hex_digit n d h fits = rw (to_digit-hex_digit d h) (ground arith)

pub digits_from-hex :
    (digits n : ℕ) → n < 16 ^ digits → n < 2 ^ 64 → digits_from (some 0) (hex digits n) ≡ some n
unfolding hex digits_from add_next
digits_from-hex zero n h fits = ground (arith, h)
digits_from-hex (suc digits) n h fits =
    elim (Bool-cases (ltb n 16)) as (λ _. digits_from (some 0) (hex (suc digits) n) ≡ some n) [
      | inl below ↦ rw below (
          add_next-hex_digit 0 n (ground (arith, below)) (omega (arith, fits))
          ∙ ap some (omega arith))
      | inr over ↦ rw over (
          digits_from-snoc (some 0) (hex digits (n / 16)) (hex_digit (n % 16))
          ∙ (let high = digits_from-hex digits (n / 16) (omega (arith, h)) (omega (arith, fits)) in
              rw high (
                add_next-hex_digit (n / 16) (n % 16) (omega arith) (omega (arith, fits))
                ∙ ap some (omega arith))))
    ]

length-hex : (digits n : ℕ) → 0 < length (hex (suc digits) n)
unfolding hex
length-hex digits n = elim (Bool-cases (ltb n 16)) as (λ _. 0 < length (hex (suc digits) n)) [
  | inl below ↦ rw below (omega arith)
  | inr over ↦ rw over (
      let both = length-append (hex digits (n / 16)) (hex_digit (n % 16) ∷ []) in
      omega (arith, both))
]

-- Without a sign, the text is its digits.
from_str_radix-IsPlain :
    (s : Text) → All IsPlain s → 0 < length s → from_str_radix s ≡ digits_from (some 0) s
unfolding from_str_radix
from_str_radix-IsPlain [] plain some_digit = ground (arith, some_digit)
from_str_radix-IsPlain (c ∷ []) plain some_digit = refl
from_str_radix-IsPlain (c ∷ d ∷ s) plain some_digit = ground (arith, plain.0)

pub from_str_radix-hex : (n : ℕ) → n < 2 ^ 64 → from_str_radix (hex 16 n) ≡ some n
from_str_radix-hex n fits =
    from_str_radix-IsPlain (hex 16 n) (IsPlain-hex 16 n) (length-hex 15 n)
    ∙ digits_from-hex 16 n fits fits
