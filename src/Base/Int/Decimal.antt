-- ===== src/Base/Int/Decimal.antt =====
-- An integer is read back from its decimal text.
use Prim.Native.Nat.{ℕ, zero, suc, ◌+◌, ◌*◌, ◌/◌, ◌%◌, ◌^◌, ◌<◌}
use mathlib.Core.Path.{◌≡◌, refl, ap, ◌∙◌}
use mathlib.Core.Logic.{inl, inr}
use mathlib.Core.Bool.{true}
use mathlib.Core.Option.{Option, some}
use mathlib.Core.List.{[], ◌∷◌, ◌++◌}
use native.Mathlib.Omega.{arith}
use pg2osync.Base.Tests.{ltb, if◌then◌else◌, Bool-cases}
use pg2osync.Base.Lists.{All, All-append}
use pg2osync.Base.Text.{Text}
use pg2osync.Base.Int.{
  ℤ, pos, negsuc, Fits, is_digit, decimal, show_int, add_decimal, decimals_from, natural, in_range,
  negative, parse_int,
}

abbrev pub IsDigit : ℕ → Type 0
IsDigit c = is_digit c ≡ true

IsDigit-add : (d : ℕ) → d < 10 → IsDigit (48 + d)
unfolding is_digit
IsDigit-add d h = ground arith

pub decimal-IsDigit : (places n : ℕ) → All IsDigit (decimal places n)
unfolding decimal
decimal-IsDigit zero n = tt
decimal-IsDigit (suc places) n =
    elim (Bool-cases (ltb n 10)) as (λ _. All IsDigit (decimal (suc places) n)) [
      | inl below ↦ rw below (IsDigit-add n (ground (arith, below)), tt)
      | inr over ↦ rw over (
          All-append IsDigit (decimal places (n / 10)) ((48 + n % 10) ∷ [])
            (decimal-IsDigit places (n / 10)) (IsDigit-add (n % 10) (omega arith), tt))
    ]

pub decimal-cons : (places n : ℕ) → (c : ℕ) × (s : Text) × (decimal (suc places) n ≡ c ∷ s)
unfolding decimal
decimal-cons places n = elim (Bool-cases (ltb n 10)) [
  | inl below ↦ (48 + n, [], rw below)
  | inr over ↦
      elim (decimal places (n / 10))
        as (λ high.
          (c : ℕ) × (s : Text) × ((if ltb n 10 then (48 + n) ∷ [] else high ++ (48 + n % 10) ∷ [])
            ≡ c ∷ s)) [
              | [] ↦ (48 + n % 10, [], rw over)
              | c ∷ s ↦ (c, s ++ (48 + n % 10) ∷ [], rw over)
            ]
]

decimals_from-snoc :
    (n : Option ℕ) (s : Text) (c : ℕ)
    → decimals_from n (s ++ c ∷ []) ≡ add_decimal (decimals_from n s) c
unfolding decimals_from
decimals_from-snoc n [] c = refl
decimals_from-snoc n (d ∷ s) c = decimals_from-snoc (add_decimal n d) s c

add_decimal-digit : (n d : ℕ) → d < 10 → add_decimal (some n) (48 + d) ≡ some (n * 10 + d)
unfolding add_decimal is_digit
add_decimal-digit n d h = ground arith

decimals_from-decimal :
    (places n : ℕ) → n < 10 ^ places → decimals_from (some 0) (decimal places n) ≡ some n
unfolding decimals_from decimal
decimals_from-decimal zero n h = ground (arith, h)
decimals_from-decimal (suc places) n h =
    elim (Bool-cases (ltb n 10))
      as (λ _. decimals_from (some 0) (decimal (suc places) n) ≡ some n) [
        | inl below ↦
            rw below (add_decimal-digit 0 n (ground (arith, below)) ∙ ap some (omega arith))
        | inr over ↦ rw over (
            decimals_from-snoc (some 0) (decimal places (n / 10)) (48 + n % 10)
            ∙ (let high = decimals_from-decimal places (n / 10) (omega (arith, h)) in
                rw high
                  (add_decimal-digit (n / 10) (n % 10) (omega arith) ∙ ap some (omega arith))))
      ]

natural-decimal : (n : ℕ) → n < 10 ^ 20 → natural (decimal 20 n) ≡ some n
unfolding natural
natural-decimal n h =
    let (c, s, e) = decimal-cons 19 n in
    let read = rw e at (decimals_from-decimal 20 n h) in rw e read

-- A digit is no sign.
parse_int-IsDigit :
    (bits c : ℕ) (s : Text) → IsDigit c → parse_int bits (c ∷ s) ≡ in_range bits (natural (c ∷ s))
unfolding parse_int is_digit
parse_int-IsDigit bits c s h = ground (arith, h)

in_range-fits : (n : ℕ) → n < 2 ^ 63 → in_range 63 (some n) ≡ some (pos n)
unfolding in_range
in_range-fits n h = ground (arith, h)

negative-fits : (n : ℕ) → n < 2 ^ 63 → negative 63 (some (n + 1)) ≡ some (negsuc n)
unfolding negative
negative-fits n h = let next : n + 1 ≡ suc n = omega arith in rw next (ground (arith, h))

parse_int-minus : (bits : ℕ) (s : Text) → parse_int bits (45 ∷ s) ≡ negative bits (natural s)
unfolding parse_int
parse_int-minus bits s = refl

pub parse_int-show_int : (i : ℤ) → Fits 63 i → parse_int 63 (show_int i) ≡ some i
unfolding show_int
parse_int-show_int (pos n) h =
    let (c, s, e) = decimal-cons 19 n in
    let digits : All IsDigit (c ∷ s) = rw e at (decimal-IsDigit 20 n) in
    let value : natural (c ∷ s) ≡ some n = rw e at (natural-decimal n (omega (arith, h))) in
    rw e (parse_int-IsDigit 63 c s digits.0 ∙ rw value (in_range-fits n h))
parse_int-show_int (negsuc n) h =
    rw (parse_int-minus 63 (decimal 20 (n + 1)), natural-decimal (n + 1) (omega (arith, h)))
      (negative-fits n h)
