-- ===== src/Source/Pgoutput/Encoding.antt =====
-- The messages as the server writes them, by PostgreSQL's documented message formats, for messages
-- whose fields fit their widths.
use pg2osync.Base.{
  ℕ, zero, suc, ◌/◌, ◌%◌, ◌^◌, ◌<◌, ◌≡◌, Bool, true, false, Option, none, some, List, [], ◌∷◌, ◌++◌,
  length, ◌==◌, All,
}
use pg2osync.Source.Messages.{
  Bytes, ReplicaIdentity, by_default, by_none, by_full, by_index, RelationColumn, Relation,
  TupleValue, null, unchanged_toast, text, Tuple, OldTuple, key, full, Message, begin, relation,
  type_def, insert, update, delete, truncate, commit,
}

-- A number in so many bytes, the highest first.
unfoldable pub be_bytes : ℕ → ℕ → Bytes
be_bytes zero n = []
be_bytes (suc width) n = be_bytes width (n / 256) ++ (n % 256) ∷ []

abbrev pub all_of {ℓ} : {T : Type ℓ} → (T → Bytes) → List T → Bytes
all_of encode [] = []
all_of encode (x ∷ xs) = encode x ++ all_of encode xs

abbrev pub encode_string : Bytes → Bytes
encode_string name = name ++ 0 ∷ []

abbrev pub encode_value : TupleValue → Bytes
encode_value null = 110 ∷ []
encode_value unchanged_toast = 117 ∷ []
encode_value (text bytes) = 116 ∷ (be_bytes 4 (length bytes) ++ bytes)

abbrev pub encode_tuple : Tuple → Bytes
encode_tuple t = be_bytes 2 (length t) ++ all_of encode_value t

abbrev pub encode_old : OldTuple → Bytes
encode_old (key t) = 75 ∷ encode_tuple t
encode_old (full t) = 79 ∷ encode_tuple t

abbrev pub encode_old? : Option OldTuple → Bytes
encode_old? none = []
encode_old? (some old) = encode_old old

abbrev pub encode_identity : ReplicaIdentity → ℕ
encode_identity by_default = 100
encode_identity by_none = 110
encode_identity by_full = 102
encode_identity by_index = 105

abbrev pub flag_of : Bool → ℕ
flag_of true = 1
flag_of false = 0

abbrev pub encode_column : RelationColumn → Bytes
encode_column c =
    flag_of c.in_replica_identity
    ∷ (encode_string c.name ++ (be_bytes 4 c.type_oid ++ be_bytes 4 c.typmod))

abbrev pub encode_relation : Relation → Bytes
encode_relation r =
    be_bytes 4 r.rel_id
    ++ (encode_string r.schema
        ++ (encode_string r.name
            ++ (encode_identity r.replica_identity
                ∷ (be_bytes 2 (length r.columns) ++ all_of encode_column r.columns))))

unfoldable pub encode : Message → Bytes
encode (begin b) = 66 ∷ (be_bytes 8 b.final_lsn ++ (be_bytes 8 b.commit_ts ++ be_bytes 4 b.xid))
encode (commit c) =
    67 ∷ c.flags ∷ (be_bytes 8 c.commit_lsn ++ (be_bytes 8 c.end_lsn ++ be_bytes 8 c.commit_ts))
encode (relation r) = 82 ∷ encode_relation r
encode (type_def t) = 89 ∷ (be_bytes 4 t.oid ++ (encode_string t.schema ++ encode_string t.name))
encode (insert rel_id t) = 73 ∷ (be_bytes 4 rel_id ++ (78 ∷ encode_tuple t))
encode (update rel_id old t) =
    85 ∷ (be_bytes 4 rel_id ++ (encode_old? old ++ (78 ∷ encode_tuple t)))
encode (delete rel_id old) = 68 ∷ (be_bytes 4 rel_id ++ encode_old old)
encode (truncate flags rel_ids) =
    84 ∷ (be_bytes 4 (length rel_ids) ++ (flags ∷ all_of (be_bytes 4) rel_ids))

-- A name is ended by a zero byte, and holds none.
abbrev pub IsName : Bytes → Type 0
IsName name = All (λ b. (b == 0) ≡ false) name

abbrev pub IsValue : TupleValue → Type 0
IsValue null = Unit
IsValue unchanged_toast = Unit
IsValue (text bytes) = length bytes < 2_147_483_648

abbrev pub IsTuple : Tuple → Type 0
IsTuple t = (length t < 256 ^ 2) × All IsValue t

abbrev pub IsOld : OldTuple → Type 0
IsOld (key t) = IsTuple t
IsOld (full t) = IsTuple t

abbrev pub IsOld? : Option OldTuple → Type 0
IsOld? none = Unit
IsOld? (some old) = IsOld old

abbrev pub IsColumn : RelationColumn → Type 0
IsColumn c = IsName c.name × (c.type_oid < 256 ^ 4) × (c.typmod < 256 ^ 4)

-- A message whose fields fit their widths.
abbrev pub IsWire : Message → Type 0
IsWire (begin b) = (b.final_lsn < 256 ^ 8) × (b.commit_ts < 256 ^ 8) × (b.xid < 256 ^ 4)
IsWire (commit c) = (c.commit_lsn < 256 ^ 8) × (c.end_lsn < 256 ^ 8) × (c.commit_ts < 256 ^ 8)
IsWire (relation r) =
    (r.rel_id < 256 ^ 4)
    × IsName r.schema
    × IsName r.name
    × (length r.columns < 256 ^ 2)
    × All IsColumn r.columns
IsWire (type_def t) = (t.oid < 256 ^ 4) × IsName t.schema × IsName t.name
IsWire (insert rel_id t) = (rel_id < 256 ^ 4) × IsTuple t
IsWire (update rel_id old t) = (rel_id < 256 ^ 4) × IsOld? old × IsTuple t
IsWire (delete rel_id old) = (rel_id < 256 ^ 4) × IsOld old
IsWire (truncate flags rel_ids) = (length rel_ids < 256 ^ 4) × All (λ r. r < 256 ^ 4) rel_ids
