-- ===== src/Core/Lsn/Halves.antt =====
-- What `|` makes of a number shifted past the bits of another.
use pg2osync.Base.{ℕ, zero, suc, ◌+◌, ◌*◌, ◌/◌, ◌%◌, ◌^◌, ◌<◌, ◌≡◌, ◌∙◌, arith}
use pg2osync.Core.Lsn.{bit_or}

-- Shifted by so many bits.
unfoldable shift : ℕ → ℕ → ℕ
shift zero n = n
shift (suc bits) n = 2 * shift bits n

bit_or-zero : (bits a : ℕ) → a < shift bits 1 → bit_or bits a 0 ≡ a
unfolding bit_or shift
bit_or-zero zero a h = omega arith
bit_or-zero (suc bits) a h =
    let half = bit_or-zero bits (a / 2) (omega arith) in ground (arith, half)

bit_or-shift :
    (by bits a b : ℕ)
    → b < shift by 1
    → a < shift bits 1
    → bit_or (by + bits) (shift by a) b ≡ shift by a + b
unfolding bit_or shift
bit_or-shift zero bits a b low high =
    let none_low : b ≡ 0 = omega (arith, low) in
    let width : 0 + bits ≡ bits = omega arith in
    rw none_low (rw width (bit_or-zero bits a high ∙ omega arith))
bit_or-shift (suc by) bits a b low high =
    let rest = bit_or-shift by bits a (b / 2) (omega (arith, low)) high in
    let shifted : (2 * shift by a) / 2 ≡ shift by a = omega arith in
    let width : suc by + bits ≡ suc (by + bits) = omega arith in
    rw width (ground (arith, rest, shifted))

-- The halves of a 64-bit number, joined.
pub bit_or-halves :
    (n : ℕ) → n < 2 ^ 64 → bit_or 64 (((n / 2 ^ 32) * 2 ^ 32) % 2 ^ 64) (n % 2 ^ 32) ≡ n
unfolding shift
bit_or-halves n fits =
    let high : ((n / 2 ^ 32) * 2 ^ 32) % 2 ^ 64 ≡ shift 32 (n / 2 ^ 32) = omega (arith, fits) in
    rw high (
      bit_or-shift 32 32 (n / 2 ^ 32) (n % 2 ^ 32) (omega arith) (omega (arith, fits))
      ∙ omega arith)
