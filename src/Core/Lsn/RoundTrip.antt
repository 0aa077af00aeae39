-- ===== src/Core/Lsn/RoundTrip.antt =====
-- A position's text against what is read of it.
use pg2osync.Base.{◌/◌, ◌%◌, ◌^◌, ◌<◌, ◌≡◌, refl, some, [], ◌∷◌, ◌++◌, All, arith}
use pg2osync.Base.Text.{Text}
use pg2osync.Core.Error.{ok}
use pg2osync.Core.Lsn.{Lsn, hex, fmt, before_split, split_once, joined, from_halves, from_str}
use pg2osync.Core.Lsn.Hex.{IsPlain, IsPlain-hex, from_str_radix-hex}
use pg2osync.Core.Lsn.Halves.{bit_or-halves}

split_once-IsPlain : (s rest : Text) → All IsPlain s → split_once (s ++ 47 ∷ rest) ≡ some (s, rest)
unfolding split_once before_split
split_once-IsPlain [] rest plain = refl
split_once-IsPlain (c ∷ s) rest plain =
    let later = split_once-IsPlain s rest plain.1 in rw later (ground (arith, plain.0))

-- A position that fits 64 bits is read back from its text.
pub from_str-fmt : (l : Lsn) → l.value < 2 ^ 64 → from_str (fmt l) ≡ ok l
unfolding from_str fmt from_halves joined
from_str-fmt l fits =
    let high = l.value / 2 ^ 32 in
    let low = l.value % 2 ^ 32 in
    rw
      (
        split_once-IsPlain (hex 16 high) (hex 16 low) (IsPlain-hex 16 high),
        from_str_radix-hex high (omega (arith, fits)),
        from_str_radix-hex low (omega (arith, fits)),
        bit_or-halves l.value fits,
      )
      refl
