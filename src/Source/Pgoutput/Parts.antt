-- ===== src/Source/Pgoutput/Parts.antt =====
-- The tuples, columns and markers of a message, against what the server writes for them.
use pg2osync.Base.{
  ℕ, ◌<◌, ◌≡◌, refl, ap, ◌∙◌, Bool, true, false, ◌||◌, Option, none, some, List, [], ◌∷◌, ◌++◌,
  length, leb, ◌==◌, All, arith,
}
use pg2osync.Source.Messages.{
  Bytes, ReplicaIdentity, by_default, by_none, by_full, by_index, RelationColumn, Relation,
  TupleValue, null, unchanged_toast, text, Tuple, OldTuple, key, full, Message, update,
}
use pg2osync.Source.Pgoutput.{
  Reader, after_read, ◌>>=◌, give, byte, take, number, string, sized_text, column, tuple, identity,
  relation_column, new_tuple, old_of, old_tuple, key_tuple,
}
use pg2osync.Source.Pgoutput.Encoding.{
  be_bytes, all_of, encode_string, encode_value, encode_tuple, encode_old, encode_old?,
  encode_identity, flag_of, encode_column, IsValue, IsTuple, IsOld, IsOld?, IsColumn,
}
use pg2osync.Source.Pgoutput.Fields.{
  Reads, Reads-then, Reads-map, Reads-take, Reads-number, Reads-string, Reads-many,
}

Reads-sized_text :
    (bytes : Bytes)
    → length bytes < 2_147_483_648
    → Reads (sized_text (length bytes)) bytes (text bytes)
unfolding sized_text
Reads-sized_text bytes h = λ rest.
    let small : leb 2_147_483_648 (length bytes) ≡ false = ground (arith, h) in
    rw small (Reads-map (take (length bytes)) text bytes (Reads-take bytes) rest)

abbrev value_reader : Reader TupleValue
value_reader = do tag ← byte; column tag

Reads-value : (v : TupleValue) → IsValue v → Reads value_reader (encode_value v) v
unfolding byte column
Reads-value null h = λ rest. refl
Reads-value unchanged_toast h = λ rest. refl
Reads-value (text bytes) h = λ rest.
    Reads-then (number 4) sized_text (be_bytes 4 (length bytes)) bytes
      (Reads-number 4 (length bytes) (omega (arith, h))) (Reads-sized_text bytes h) rest

Reads-values : (t : Tuple) → All IsValue t → All (λ v. Reads value_reader (encode_value v) v) t
Reads-values [] h = tt
Reads-values (v ∷ t) h = (Reads-value v h.0, Reads-values t h.1)

Reads-tuple : (t : Tuple) → IsTuple t → Reads tuple (encode_tuple t) t
unfolding tuple
Reads-tuple t h =
    Reads-then (number 2) _ (be_bytes 2 (length t)) (all_of encode_value t)
      (Reads-number 2 (length t) h.0) (Reads-many value_reader encode_value t (Reads-values t h.1))

-- The new tuple, after its marker.
pub Reads-new_tuple :
    (f : Tuple → Message) (t : Tuple)
    → IsTuple t
    → Reads (do marker ← byte; s ← new_tuple marker; give (f s)) (78 ∷ encode_tuple t) (f t)
unfolding byte new_tuple
Reads-new_tuple f t h = λ rest. Reads-map tuple f (encode_tuple t) (Reads-tuple t h) rest

pub Reads-key_tuple :
    (f : OldTuple → Message) (old : OldTuple)
    → IsOld old
    → Reads (do k ← byte; o ← key_tuple k; give (f o)) (encode_old old) (f old)
unfolding byte key_tuple old_of
Reads-key_tuple f (key t) h = λ rest.
    ap (λ r. after_read r (λ o. give (f o)))
      (Reads-map tuple (λ s. key s) (encode_tuple t) (Reads-tuple t h) rest)
Reads-key_tuple f (full t) h = λ rest.
    ap (λ r. after_read r (λ o. give (f o)))
      (Reads-map tuple (λ s. full s) (encode_tuple t) (Reads-tuple t h) rest)

-- The tuples of an update, the old one where its marker says that it is there.
abbrev pub tuples_reader : ℕ → Reader Message
tuples_reader rel_id = do
  old ← old_tuple
  marker ← byte
  t ← new_tuple marker
  give (update rel_id old t)

pub Reads-tuples :
    (rel_id : ℕ) (old : Option OldTuple) (t : Tuple)
    → IsOld? old
    → IsTuple t
    → Reads (tuples_reader rel_id) (encode_old? old ++ (78 ∷ encode_tuple t)) (update rel_id old t)
unfolding old_tuple old_of
Reads-tuples rel_id none t h k = Reads-new_tuple (λ s. update rel_id none s) t k
Reads-tuples rel_id (some (key s)) t h k = λ rest.
    Reads-then (tuple >>= λ o. give (some (key o))) _ (encode_tuple s) (78 ∷ encode_tuple t)
      (Reads-map tuple (λ o. some (key o)) (encode_tuple s) (Reads-tuple s h))
      (Reads-new_tuple (λ n. update rel_id (some (key s)) n) t k) rest
Reads-tuples rel_id (some (full s)) t h k = λ rest.
    Reads-then (tuple >>= λ o. give (some (full o))) _ (encode_tuple s) (78 ∷ encode_tuple t)
      (Reads-map tuple (λ o. some (full o)) (encode_tuple s) (Reads-tuple s h))
      (Reads-new_tuple (λ n. update rel_id (some (full s)) n) t k) rest

flag_of-flag : (b : Bool) → (flag_of b == 1 || flag_of b == 49) ≡ b
flag_of-flag true = refl
flag_of-flag false = refl

Reads-relation_column :
    (c : RelationColumn) → IsColumn c → Reads relation_column (encode_column c) c
unfolding relation_column byte
Reads-relation_column c h = λ rest.
    Reads-then string _ (encode_string c.name) (be_bytes 4 c.type_oid ++ be_bytes 4 c.typmod)
      (Reads-string c.name h.0)
      (Reads-then (number 4) _ (be_bytes 4 c.type_oid) (be_bytes 4 c.typmod)
        (Reads-number 4 c.type_oid h.1)
        (Reads-map (number 4) _ (be_bytes 4 c.typmod) (Reads-number 4 c.typmod h.2)))
      rest
    ∙ rw (flag_of-flag c.in_replica_identity) refl

pub Reads-columns :
    (cs : List RelationColumn)
    → All IsColumn cs
    → All (λ c. Reads relation_column (encode_column c) c) cs
Reads-columns [] h = tt
Reads-columns (c ∷ cs) h = (Reads-relation_column c h.0, Reads-columns cs h.1)

pub Reads-identity :
    (i : ReplicaIdentity) (next : ReplicaIdentity → Reader Relation) (cs : Bytes) {r : Relation}
    → Reads (next i) cs r
    → Reads
        (do tag ← byte; replica_identity ← identity tag; next replica_identity)
        (encode_identity i ∷ cs)
        r
unfolding byte identity
Reads-identity by_default next cs h = λ rest. h rest
Reads-identity by_none next cs h = λ rest. h rest
Reads-identity by_full next cs h = λ rest. h rest
Reads-identity by_index next cs h = λ rest. h rest
