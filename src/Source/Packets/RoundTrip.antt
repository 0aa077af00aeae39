-- ===== src/Source/Packets/RoundTrip.antt =====
-- A message that was framed is put together again as it was.
use pg2osync.Base.{
  ℕ, zero, suc, ◌+◌, ◌*◌, ◌/◌, ◌%◌, ◌<◌, ◌≤◌, ◌≡◌, refl, ap, ◌∙◌, true, false, Option, none, some,
  List, [], ◌∷◌, ◌++◌, append-nil, append_assoc, length, length-append, ltb, leb, if◌then◌else◌,
  Bool-cases, inl, inr, arith,
}
use pg2osync.Source.Packets.{
  Bytes, max_payload, next_seq, frame, first_n, after_n, frame_all, whole, read_exact, in_sequence,
  on_payload, read_at, read_one,
}
use pg2osync.Source.Packets.Chunks.{
  first_n-after_n, length-first_n, length-after_n, packets, frame_all_at-packets,
}

abbrev pub concat : List Bytes → Bytes
concat [] = []
concat (b ∷ bs) = b ++ concat bs

first_n-append : (bytes rest : Bytes) → first_n (length bytes) (bytes ++ rest) ≡ bytes
unfolding first_n
first_n-append [] rest = refl
first_n-append (b ∷ bytes) rest = ap (◌∷◌ b) (first_n-append bytes rest)

after_n-append : (bytes rest : Bytes) → after_n (length bytes) (bytes ++ rest) ≡ rest
unfolding after_n
after_n-append [] rest = refl
after_n-append (b ∷ bytes) rest = after_n-append bytes rest

read_exact-append :
    (bytes rest : Bytes) → read_exact (length bytes) (bytes ++ rest) ≡ some (bytes, rest)
unfolding read_exact
read_exact-append bytes rest =
    let enough : leb (length bytes) (length (bytes ++ rest)) ≡ true =
      ground (arith, length-append bytes rest) in
    rw (enough, first_n-append bytes rest, after_n-append bytes rest)

length_of_head :
    (n : ℕ) → n < 16_777_216 → n % 256 + 256 * (n / 256 % 256) + 65_536 * (n / 65_536 % 256) ≡ n
length_of_head n h = omega (arith, h)

-- One packet, from the front of the socket.
read_at-frame :
    (limit fuel seq : ℕ) (expected : Option ℕ) (payload piece rest : Bytes)
    → length piece < 16_777_216
    → in_sequence expected seq ≡ true
    → read_at limit (suc fuel) expected payload (frame seq piece ++ rest) ≡ (
        if ltb (length piece) limit
        then whole seq (payload ++ piece) rest
        else read_at limit fuel (some (next_seq seq)) (payload ++ piece) rest)
unfolding read_at frame on_payload
read_at-frame limit fuel seq expected payload piece rest h e =
    rw (length_of_head (length piece) h, e, read_exact-append piece rest)

in_sequence-next : (seq : ℕ) → in_sequence (some seq) seq ≡ true
unfolding in_sequence
in_sequence-next seq = ground arith

module _ (limit : ℕ) (positive : 0 < limit) (width : limit < 16_777_216) where
  read_at-packets :
      (fuel room seq : ℕ) (expected : Option ℕ) (before payload rest : Bytes)
      → length payload ≤ fuel
      → fuel < room
      → in_sequence expected seq ≡ true
      → (last : ℕ) × (read_at limit room expected before
            (concat (packets limit fuel seq payload) ++ rest)
          ≡ whole last (before ++ payload) rest)
  unfolding packets
  read_at-packets fuel zero seq expected before payload rest h r e = absurd (omega (arith, r))
  read_at-packets zero (suc room) seq expected before [] rest h r e =
      let below : ltb 0 limit ≡ true = ground (arith, positive) in
      (
        seq,
        rw append-nil (
            read_at-frame limit room seq expected before [] rest (omega arith) e
            ∙ rw below (rw append-nil refl)),
      )
  read_at-packets zero (suc room) seq expected before (b ∷ payload) rest h r e =
      absurd (omega (arith, h))
  read_at-packets (suc fuel) (suc room) seq expected before payload rest h r e =
      elim (Bool-cases (ltb (length payload) limit)) [
        | inl below ↦ (
          seq,
          rw (below, append-nil)
              (read_at-frame limit room seq expected before payload rest
                  (ground (arith, below, width)) e
                ∙ rw below refl),
        )
        | inr full ↦
            let piece = first_n limit payload in
            let left = after_n limit payload in
            let size : length piece ≡ limit = length-first_n limit payload ∙ ground (arith, full) in
            let more = concat (packets limit fuel (next_seq seq) left) in
            let (last, later) =
              read_at-packets fuel room (next_seq seq) (some (next_seq seq)) (before ++ piece) left
                rest (omega (arith, h, positive, length-after_n limit payload)) (omega (arith, r))
                (in_sequence-next (next_seq seq)) in
            let over : ltb (length piece) limit ≡ false = ground (arith, size) in
            (
              last,
              rw full (
                  ap (λ bytes. read_at limit (suc room) expected before bytes)
                    (append_assoc (frame seq piece) more rest)
                  ∙ (read_at-frame limit room seq expected before piece (more ++ rest)
                        (omega (arith, size, width)) e
                      ∙ rw over (
                          later
                          ∙ ap (λ bytes. whole last bytes rest)
                              (append_assoc before piece left
                                ∙ ap (λ p. before ++ p) (first_n-after_n limit payload))))),
            )
      ]

length-packets :
    (limit fuel seq : ℕ) (payload : Bytes)
    → length payload ≤ length (concat (packets limit fuel seq payload))
unfolding packets frame
length-packets limit zero seq payload = omega (arith, length-append payload [])
length-packets limit (suc fuel) seq payload = elim (Bool-cases (ltb (length payload) limit)) [
  | inl below ↦ rw below (omega (arith, length-append payload []))
  | inr full ↦
      let later = length-packets limit fuel (next_seq seq) (after_n limit payload) in
      let joined =
        length-append (first_n limit payload)
          (concat (packets limit fuel (next_seq seq) (after_n limit payload))) in
      rw full
        (omega (arith, later, joined, length-first_n limit payload, length-after_n limit payload))
]

-- A message of any length that is framed from any sequence number is read back whole, whatever
-- the socket delivers after it, and that is left unread; the reader does not run out of fuel.
pub read_one-frame_all :
    (start : ℕ) (payload rest : Bytes)
    → (last : ℕ) × (read_one (concat (frame_all start payload) ++ rest) ≡ whole last payload rest)
unfolding read_one frame_all
read_one-frame_all start payload rest =
    let size = length payload in
    let bytes = concat (packets max_payload size start payload) in
    let room = suc (length (bytes ++ rest)) in
    let fuel : size < room =
      omega (arith, length-append bytes rest, length-packets max_payload size start payload) in
    let (last, whole') =
      read_at-packets max_payload (omega arith) (omega arith) size room start none [] payload rest
        (omega arith) fuel (unfold in_sequence in refl) in
    (
      last,
      rw
          (frame_all_at-packets max_payload (omega arith) (λ n h. omega (arith, h))
            (λ n h. omega (arith, h)) size start payload (omega arith))
          whole',
    )
