-- ===== src/Source/Packets/Chunks.antt =====
-- The packets of a message, one by one.
use pg2osync.Base.{
  ℕ, zero, suc, ◌-◌, ◌%◌, ◌<◌, ◌≤◌, ◌≡◌, refl, ap, ◌∙◌, min, true, false, ◌||◌, List, [], ◌∷◌, ◌++◌,
  length, ltb, ◌==◌, if◌then◌else◌, Bool-cases, inl, inr, arith,
}
use pg2osync.Source.Packets.{
  Bytes, next_seq, frame, first_n, after_n, chunks, frame_each, seq_after, is_nil, closing,
  frame_all_at,
}

pub first_n-after_n : (n : ℕ) (bytes : Bytes) → first_n n bytes ++ after_n n bytes ≡ bytes
unfolding first_n after_n
first_n-after_n zero bytes = refl
first_n-after_n (suc n) [] = refl
first_n-after_n (suc n) (b ∷ bytes) = ap (◌∷◌ b) (first_n-after_n n bytes)

pub length-first_n : (n : ℕ) (bytes : Bytes) → length (first_n n bytes) ≡ min n (length bytes)
unfolding first_n
length-first_n zero bytes = omega arith
length-first_n (suc n) [] = omega arith
length-first_n (suc n) (b ∷ bytes) = omega (arith, length-first_n n bytes)

pub length-after_n : (n : ℕ) (bytes : Bytes) → length (after_n n bytes) ≡ length bytes - n
unfolding after_n
length-after_n zero bytes = omega arith
length-after_n (suc n) [] = omega arith
length-after_n (suc n) (b ∷ bytes) = omega (arith, length-after_n n bytes)

pub first_n-all : (n : ℕ) (bytes : Bytes) → length bytes ≤ n → first_n n bytes ≡ bytes
unfolding first_n
first_n-all zero [] h = refl
first_n-all zero (b ∷ bytes) h = absurd (omega (arith, h))
first_n-all (suc n) [] h = refl
first_n-all (suc n) (b ∷ bytes) h = ap (◌∷◌ b) (first_n-all n bytes (omega (arith, h)))

pub after_n-all : (n : ℕ) (bytes : Bytes) → length bytes ≤ n → after_n n bytes ≡ []
unfolding after_n
after_n-all zero [] h = refl
after_n-all zero (b ∷ bytes) h = absurd (omega (arith, h))
after_n-all (suc n) [] h = refl
after_n-all (suc n) (b ∷ bytes) h = after_n-all n bytes (omega (arith, h))

-- A message is one packet if it is below the limit, and otherwise a full packet and the message
-- of what is left.
unfoldable pub packets : ℕ → ℕ → ℕ → Bytes → List Bytes
packets limit zero seq payload = frame seq payload ∷ []
packets limit (suc fuel) seq payload =
    let more = packets limit fuel (next_seq seq) (after_n limit payload) in
    if ltb (length payload) limit
    then frame seq payload ∷ []
    else frame seq (first_n limit payload) ∷ more

chunks-nil : (limit fuel : ℕ) → chunks limit fuel [] ≡ []
unfolding chunks
chunks-nil limit zero = refl
chunks-nil limit (suc fuel) = refl

module _ (limit : ℕ) (positive : 0 < limit) (small : (n : ℕ) → n < limit → n % limit ≡ n)
    (step : (n : ℕ) → limit ≤ n → n % limit ≡ (n - limit) % limit) where
  closes :
      (payload : Bytes)
      → (is_nil payload || (length payload % limit == 0)) ≡ (length payload % limit == 0)
  unfolding is_nil
  closes [] = let none' : 0 % limit ≡ 0 = small 0 positive in rw none'
  closes (b ∷ payload) = refl

  -- What closes a message does not depend on the full packets before.
  closing-after_n :
      (seq : ℕ) (payload : Bytes)
      → limit ≤ length payload
      → closing limit seq payload ≡ closing limit seq (after_n limit payload)
  unfolding closing
  closing-after_n seq payload h = rw (
    closes payload,
    closes (after_n limit payload),
    length-after_n limit payload,
    step (length payload) h,
  )

  pub frame_all_at-packets :
      (fuel seq : ℕ) (payload : Bytes)
      → length payload ≤ fuel
      → frame_all_at limit fuel seq payload ≡ packets limit fuel seq payload
  unfolding frame_all_at packets chunks frame_each seq_after
  frame_all_at-packets zero seq [] h = unfold closing is_nil in refl
  frame_all_at-packets zero seq (b ∷ payload) h = absurd (omega (arith, h))
  frame_all_at-packets (suc fuel) seq [] h =
      let below : ltb 0 limit ≡ true = ground (arith, positive) in
      rw below (unfold closing is_nil in refl)
  frame_all_at-packets (suc fuel) seq (b ∷ payload) h =
      elim (Bool-cases (ltb (length (b ∷ payload)) limit)) [
        | inl below ↦ rw below (one_packet below)
        | inr full ↦ rw full (
            ap
              (λ end'.
                frame seq (first_n limit (b ∷ payload))
                ∷ (frame_each (next_seq seq) (pieces) ++ end'))
              (closing-after_n (seq_after (next_seq seq) pieces) (b ∷ payload)
                (ground (arith, full)))
            ∙ ap (◌∷◌ (frame seq (first_n limit (b ∷ payload)))) (
                frame_all_at-packets fuel (next_seq seq) (after_n limit (b ∷ payload))
                  (omega (arith, h, positive, length-after_n limit (b ∷ payload)))))
      ]
    where
      pieces : List Bytes
      pieces = chunks limit fuel (after_n limit (b ∷ payload))

      one_packet :
          ltb (length (b ∷ payload)) limit ≡ true
          → frame_all_at limit (suc fuel) seq (b ∷ payload) ≡ frame seq (b ∷ payload) ∷ []
      one_packet below =
          let whole = first_n-all limit (b ∷ payload) (ground (arith, below)) in
          let none' = after_n-all limit (b ∷ payload) (ground (arith, below)) in
          let some' : (length (b ∷ payload) == 0) ≡ false = ground arith in
          let rest = small (length (b ∷ payload)) (ground (arith, below)) in
          rw (whole, none', chunks-nil limit fuel)
            (unfold closing in rw (closes (b ∷ payload), rest, some') refl)
