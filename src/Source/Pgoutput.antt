-- ===== src/Source/Pgoutput.antt =====
-- crates/source/src/pgoutput.rs: the decoder of PostgreSQL's logical replication messages. Signed
-- numbers are kept as their bit patterns, and names as the bytes that the server sends, on whose
-- UTF-8 the source's lossy conversion changes nothing. `column_drift`'s report is not modelled.
pub mod Encoding
pub mod Fields
pub mod Parts
pub mod RoundTrip
use pg2osync.Base.{
  ℕ, zero, suc, ◌+◌, ◌*◌, Bool, true, false, ◌||◌, not, Option, none, some, List, [], ◌∷◌, length,
  leb, ◌==◌, if◌then◌else◌,
}
use pg2osync.Source.Messages.{
  Bytes, Begin, Commit, ReplicaIdentity, RelationColumn, Relation, TupleValue, OldTuple, TypeDef,
  Message, Tuple, by_default, by_none, by_full, by_index, null, unchanged_toast, text, key, full,
  begin, relation, type_def, insert, update, delete, truncate, commit,
}

pub data ParseError : Type 0 where
  unexpected_end : ParseError
  unknown_message trailing_bytes : ℕ → ParseError

-- What a read gives: a value and the bytes after it, or an error.
pub data Read {ℓ} (T : Type ℓ) : Type ℓ where
  failed : ParseError → Read T
  read : T → Bytes → Read T

-- A method of `Reader`.
abbrev pub Reader {ℓ} : Type ℓ → Type ℓ
Reader T = Bytes → Read T

abbrev pub after_read {ℓ κ} : {T : Type ℓ} {U : Type κ} → Read T → (T → Reader U) → Read U
after_read (failed why) next = failed why
after_read (read value rest) next = next value rest

infixl 5 ◌>>=◌
abbrev pub ◌>>=◌ {ℓ κ} : {T : Type ℓ} {U : Type κ} → Reader T → (T → Reader U) → Reader U
(first >>= next) bytes = after_read (first bytes) next

abbrev pub give {ℓ} : {T : Type ℓ} → T → Reader T
give value bytes = read value bytes

abbrev pub fail {ℓ} : {T : Type ℓ} → ParseError → Reader T
fail why bytes = failed why

-- `Reader::u8`
unfoldable pub byte : Reader ℕ
byte [] = failed unexpected_end
byte (b ∷ bytes) = read b bytes

-- `Reader::take`
unfoldable pub take : ℕ → Reader Bytes
take zero = give []
take (suc n) = do b ← byte; bs ← take n; give (b ∷ bs)

unfoldable pub from_be : ℕ → Bytes → ℕ
from_be high [] = high
from_be high (b ∷ bytes) = from_be (high * 256 + b) bytes

-- `Reader::u16`, `u32`, `i32` and `u64`, by their widths in bytes
unfoldable pub number : ℕ → Reader ℕ
number width = do bytes ← take width; give (from_be 0 bytes)

unfoldable pub front : ℕ → Read Bytes → Read Bytes
front b (failed why) = failed why
front b (read bs rest) = read (b ∷ bs) rest

-- `Reader::string`
unfoldable pub string : Reader Bytes
unfolding front
string [] = failed unexpected_end
string (b ∷ bytes) = let later = string bytes in if b == 0 then read [] bytes else front b later

unfoldable pub many {ℓ} : {T : Type ℓ} → ℕ → Reader T → Reader (List T)
many zero one = give []
many (suc n) one = do x ← one; xs ← many n one; give (x ∷ xs)

abbrev sign_bit : ℕ
sign_bit = 2_147_483_648

unfoldable pub sized_text : ℕ → Reader TupleValue
sized_text len =
    if leb sign_bit len then fail unexpected_end else (do bytes ← take len; give (text bytes))

unfoldable pub column : ℕ → Reader TupleValue
column tag =
    if tag == 110
    then give null
    else (if tag == 117
        then give unchanged_toast
        else (if tag == 116 || tag == 98
            then (do len ← number 4; sized_text len)
            else fail (unknown_message tag)))

-- `Reader::tuple`
unfoldable pub tuple : Reader Tuple
tuple = do columns ← number 2; many columns (do tag ← byte; column tag)

unfoldable pub identity : ℕ → Reader ReplicaIdentity
identity tag =
    if tag == 100
    then give by_default
    else (if tag == 110
        then give by_none
        else (if tag == 102
            then give by_full
            else (if tag == 105 then give by_index else fail (unknown_message 82))))

unfoldable pub relation_column : Reader RelationColumn
relation_column = do
  flag ← byte
  name ← string
  type_oid ← number 4
  typmod ← number 4
  give (record {
    name = name;
    type_oid = type_oid;
    typmod = typmod;
    in_replica_identity = flag == 1 || flag == 49;
  })

-- `Reader::relation`
unfoldable pub relation_body : Reader Relation
relation_body = do
  rel_id ← number 4
  schema ← string
  name ← string
  tag ← byte
  replica_identity ← identity tag
  columns ← number 2
  described ← many columns relation_column
  give (record {
    rel_id = rel_id;
    schema = schema;
    name = name;
    replica_identity = replica_identity;
    columns = described;
  })

-- the marker of a new tuple
unfoldable pub new_tuple : ℕ → Reader Tuple
new_tuple marker = if marker == 78 then tuple else fail (unknown_message marker)

unfoldable pub old_of : ℕ → Tuple → OldTuple
old_of k t = if k == 75 then key t else full t

-- the old tuple of an update, if its marker is there
unfoldable pub old_tuple : Reader (Option OldTuple)
old_tuple [] = read none []
old_tuple (k ∷ bytes) =
    if k == 75 || k == 79
    then after_read (tuple bytes) (λ t. give (some (old_of k t)))
    else read none (k ∷ bytes)

unfoldable pub key_tuple : ℕ → Reader OldTuple
key_tuple k =
    if k == 75 || k == 79 then (do t ← tuple; give (old_of k t)) else fail (unknown_message k)

unfoldable pub begin_body : Reader Message
begin_body = do
  final_lsn ← number 8
  commit_ts ← number 8
  xid ← number 4
  give (begin (record { final_lsn = final_lsn; commit_ts = commit_ts; xid = xid }))

unfoldable pub commit_body : Reader Message
commit_body = do
  flags ← byte
  commit_lsn ← number 8
  end_lsn ← number 8
  commit_ts ← number 8
  give (
      commit (record {
        flags = flags;
        commit_lsn = commit_lsn;
        end_lsn = end_lsn;
        commit_ts = commit_ts;
      }))

unfoldable pub type_body : Reader Message
type_body = do
  oid ← number 4
  schema ← string
  name ← string
  give (type_def (record { oid = oid; schema = schema; name = name }))

unfoldable pub insert_body : Reader Message
insert_body = do rel_id ← number 4; marker ← byte; t ← new_tuple marker; give (insert rel_id t)

unfoldable pub update_body : Reader Message
update_body = do
  rel_id ← number 4
  old ← old_tuple
  marker ← byte
  t ← new_tuple marker
  give (update rel_id old t)

unfoldable pub delete_body : Reader Message
delete_body = do rel_id ← number 4; k ← byte; old ← key_tuple k; give (delete rel_id old)

unfoldable pub truncate_body : Reader Message
truncate_body = do
  relations ← number 4
  flags ← byte
  rel_ids ← many relations (number 4)
  give (truncate flags rel_ids)

-- the message after its tag
unfoldable pub body : ℕ → Reader Message
body tag =
    if tag == 66
    then begin_body
    else (if tag == 67
        then commit_body
        else (if tag == 82
            then (do r ← relation_body; give (relation r))
            else (if tag == 89
                then type_body
                else (if tag == 73
                    then insert_body
                    else (if tag == 85
                        then update_body
                        else (if tag == 68
                            then delete_body
                            else (if tag == 84
                                then truncate_body
                                else fail (unknown_message tag))))))))

unfoldable pub ends : Read Message → Read Message
ends (failed why) = failed why
ends (read m []) = read m []
ends (read m (b ∷ bytes)) = failed (trailing_bytes (length (b ∷ bytes)))

-- `parse`
unfoldable pub parse : Bytes → Read Message
unfolding ends
parse [] = failed unexpected_end
parse (tag ∷ bytes) = ends (body tag bytes)
