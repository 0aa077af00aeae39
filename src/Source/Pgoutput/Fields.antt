-- ===== src/Source/Pgoutput/Fields.antt =====
-- The reader's methods against what the server writes for a field.
use pg2osync.Base.{
  ℕ, zero, suc, ◌+◌, ◌*◌, ◌/◌, ◌%◌, ◌^◌, ◌<◌, ◌≡◌, refl, ap, ◌∙◌, List, [], ◌∷◌, ◌++◌, append_assoc,
  length, length-append, All, arith,
}
use mathlib.Core.Path.{subst}
use pg2osync.Source.Messages.{Bytes}
use pg2osync.Source.Pgoutput.{
  read, Reader, after_read, ◌>>=◌, give, byte, take, from_be, number, front, string, many,
}
use pg2osync.Source.Pgoutput.Encoding.{be_bytes, all_of, encode_string, IsName}

-- The reader takes these bytes, whatever follows them, and gives this value.
abbrev pub Reads {ℓ} : {T : Type ℓ} → Reader T → Bytes → T → Type ℓ
Reads {T = T} reader bytes value = (rest : Bytes) → reader (bytes ++ rest) ≡ read value rest

module _ {ℓ κ} {T : Type ℓ} {U : Type κ} where
  pub Reads-then :
      (first : Reader T) (next : T → Reader U) (bs cs : Bytes) {t : T} {u : U}
      → Reads first bs t
      → Reads (next t) cs u
      → Reads (first >>= next) (bs ++ cs) u
  Reads-then first next bs cs h k = λ rest.
      ap (λ bytes. after_read (first bytes) next) (append_assoc bs cs rest)
      ∙ (ap (λ r. after_read r next) (h (cs ++ rest)) ∙ k rest)

  pub Reads-map :
      (first : Reader T) (f : T → U) (bs : Bytes) {t : T}
      → Reads first bs t
      → Reads (first >>= λ x. give (f x)) bs (f t)
  Reads-map first f bs h = λ rest. ap (λ r. after_read r (λ x. give (f x))) (h rest)

pub Reads-byte : (b : ℕ) → Reads byte (b ∷ []) b
unfolding byte
Reads-byte b = λ rest. refl

pub Reads-take : (bs : Bytes) → Reads (take (length bs)) bs bs
unfolding take byte
Reads-take [] = λ rest. refl
Reads-take (b ∷ bs) = λ rest. rw (Reads-take bs rest)

length-be_bytes : (width n : ℕ) → length (be_bytes width n) ≡ width
unfolding be_bytes
length-be_bytes zero n = refl
length-be_bytes (suc width) n =
    length-append (be_bytes width (n / 256)) ((n % 256) ∷ [])
    ∙ omega (arith, length-be_bytes width (n / 256))

from_be-snoc :
    (high : ℕ) (bs : Bytes) (b : ℕ) → from_be high (bs ++ b ∷ []) ≡ from_be high bs * 256 + b
unfolding from_be
from_be-snoc high [] b = refl
from_be-snoc high (c ∷ bs) b = from_be-snoc (high * 256 + c) bs b

from_be-be_bytes : (width n : ℕ) → n < 256 ^ width → from_be 0 (be_bytes width n) ≡ n
unfolding from_be be_bytes
from_be-be_bytes zero n h = ground (arith, h)
from_be-be_bytes (suc width) n h =
    from_be-snoc 0 (be_bytes width (n / 256)) (n % 256)
    ∙ (let high = from_be-be_bytes width (n / 256) (omega (arith, h)) in rw high (omega arith))

pub Reads-number : (width n : ℕ) → n < 256 ^ width → Reads (number width) (be_bytes width n) n
unfolding number
Reads-number width n h = λ rest.
    let bytes = be_bytes width n in
    let taken : take width (bytes ++ rest) ≡ read bytes rest =
      subst (λ w. take w (bytes ++ rest) ≡ read bytes rest) (length-be_bytes width n)
        (Reads-take bytes rest) in
    rw (taken, from_be-be_bytes width n h)

pub Reads-string : (name : Bytes) → IsName name → Reads string (encode_string name) name
unfolding string front
Reads-string [] h = λ rest. refl
Reads-string (b ∷ name) h = λ rest. rw (h.0, Reads-string name h.1 rest)

pub Reads-many {ℓ} :
    {T : Type ℓ} (one : Reader T) (encode : T → Bytes) (xs : List T)
    → All (λ x. Reads one (encode x) x) xs
    → Reads (many (length xs) one) (all_of encode xs) xs
unfolding many
Reads-many one encode [] h = λ rest. refl
Reads-many one encode (x ∷ xs) h =
    Reads-then one _ (encode x) (all_of encode xs) h.0
      (Reads-map (many (length xs) one) (◌∷◌ x) (all_of encode xs) (Reads-many one encode xs h.1))
