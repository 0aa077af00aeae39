-- ===== src/Source/Packets.antt =====
-- MySQL's packet framing: `frame` and `frame_all` of crates/source-mysql/src/packet.rs, and the
-- reassembly of one message, `read_one_with_seq` of crates/source-mysql/src/connection.rs. The
-- socket is the list of the bytes that it will deliver; the reader's loop runs on fuel.
pub mod Chunks
pub mod RoundTrip
use pg2osync.Base.{
  ℕ, zero, suc, ◌+◌, ◌*◌, ◌/◌, ◌%◌, Bool, true, false, ◌||◌, Option, none, some, List, [], ◌∷◌,
  ◌++◌, length, ltb, leb, ◌==◌, if◌then◌else◌,
}

abbrev pub Bytes : Type 0
Bytes = List ℕ

-- `MAX_PAYLOAD`
abbrev pub max_payload : ℕ
max_payload = 16_777_215

-- `wrapping_add(1)` on a `u8`
unfoldable pub next_seq : ℕ → ℕ
next_seq seq = (seq + 1) % 256

-- `frame`, without the sequence number that it leaves
unfoldable pub frame : ℕ → Bytes → Bytes
frame seq payload =
    length payload % 256
    ∷ length payload / 256 % 256
    ∷ length payload / 65_536 % 256
    ∷ seq
    ∷ payload

-- `split_at`
unfoldable pub first_n : ℕ → Bytes → Bytes
first_n zero bytes = []
first_n (suc n) [] = []
first_n (suc n) (b ∷ bytes) = b ∷ first_n n bytes

unfoldable pub after_n : ℕ → Bytes → Bytes
after_n zero bytes = bytes
after_n (suc n) [] = []
after_n (suc n) (b ∷ bytes) = after_n n bytes

-- `chunks`, of a limit that is not zero
unfoldable pub chunks : ℕ → ℕ → Bytes → List Bytes
chunks limit zero bytes = []
chunks limit (suc fuel) [] = []
chunks limit (suc fuel) (b ∷ bytes) =
    first_n limit (b ∷ bytes) ∷ chunks limit fuel (after_n limit (b ∷ bytes))

unfoldable pub frame_each : ℕ → List Bytes → List Bytes
frame_each seq [] = []
frame_each seq (c ∷ cs) = frame seq c ∷ frame_each (next_seq seq) cs

unfoldable pub seq_after : ℕ → List Bytes → ℕ
seq_after seq [] = seq
seq_after seq (c ∷ cs) = seq_after (next_seq seq) cs

unfoldable pub is_nil : Bytes → Bool
is_nil [] = true
is_nil (b ∷ bytes) = false

-- the empty packet that closes a message which fills its last one
unfoldable pub closing : ℕ → ℕ → Bytes → List Bytes
unfolding is_nil
closing limit seq payload =
    if is_nil payload || (length payload % limit == 0) then frame seq [] ∷ [] else []

unfoldable pub frame_all_at : ℕ → ℕ → ℕ → Bytes → List Bytes
frame_all_at limit fuel start payload =
    let pieces = chunks limit fuel payload in
    frame_each start pieces ++ closing limit (seq_after start pieces) payload

-- `frame_all`; a chunk holds a byte at least, so that there are no more chunks than bytes
unfoldable pub frame_all : ℕ → Bytes → List Bytes
frame_all start payload = frame_all_at max_payload (length payload) start payload

pub data Received : Type 0 where
  -- the connection closed within a packet
  closed : Received
  out_of_sequence : Received
  out_of_fuel : Received
  -- the last packet's number, the message, and what the socket delivers after it
  whole : ℕ → Bytes → Bytes → Received

-- `read_exact`
unfoldable pub read_exact : ℕ → Bytes → Option (Bytes × Bytes)
read_exact n bytes = if leb n (length bytes) then some (first_n n bytes, after_n n bytes) else none

unfoldable pub in_sequence : Option ℕ → ℕ → Bool
in_sequence none seq = true
in_sequence (some expected) seq = seq == expected

unfoldable pub on_payload :
    ℕ → (Option ℕ → Bytes → Bytes → Received) → ℕ → ℕ → Bytes → Option (Bytes × Bytes) → Received
on_payload limit next len seq payload none = closed
on_payload limit next len seq payload (some (piece, rest)) =
    if ltb len limit
    then whole seq (payload ++ piece) rest
    else next (some (next_seq seq)) (payload ++ piece) rest

unfoldable pub read_at : ℕ → ℕ → Option ℕ → Bytes → Bytes → Received
unfolding on_payload
read_at limit zero expected payload bytes = out_of_fuel
read_at limit (suc fuel) expected payload [] = closed
read_at limit (suc fuel) expected payload (a ∷ []) = closed
read_at limit (suc fuel) expected payload (a ∷ b ∷ []) = closed
read_at limit (suc fuel) expected payload (a ∷ b ∷ c ∷ []) = closed
read_at limit (suc fuel) expected payload (a ∷ b ∷ c ∷ seq ∷ bytes) =
    let len = a + 256 * b + 65_536 * c in
    if in_sequence expected seq
    then on_payload limit (read_at limit fuel) len seq payload (read_exact len bytes)
    else out_of_sequence

-- `read_one_with_seq`; a packet has four bytes at least, so that there are fewer than bytes
unfoldable pub read_one : Bytes → Received
read_one bytes = read_at max_payload (suc (length bytes)) none [] bytes
