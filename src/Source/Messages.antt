-- ===== src/Source/Messages.antt =====
-- The messages of crates/source/src/pgoutput.rs.
use pg2osync.Base.{ℕ, Bool, Option, List}

abbrev pub Bytes : Type 0
Bytes = List ℕ

pub record Begin : Type 0 where
  pub final_lsn : ℕ
  pub commit_ts : ℕ
  pub xid : ℕ

pub record Commit : Type 0 where
  pub flags : ℕ
  pub commit_lsn : ℕ
  pub end_lsn : ℕ
  pub commit_ts : ℕ

pub data ReplicaIdentity : Type 0 where
  by_default by_none by_full by_index : ReplicaIdentity

pub record RelationColumn : Type 0 where
  pub name : Bytes
  pub type_oid : ℕ
  pub typmod : ℕ
  pub in_replica_identity : Bool

pub record Relation : Type 0 where
  pub rel_id : ℕ
  pub schema : Bytes
  pub name : Bytes
  pub replica_identity : ReplicaIdentity
  pub columns : List RelationColumn

pub data TupleValue : Type 0 where
  null unchanged_toast : TupleValue
  text : Bytes → TupleValue

abbrev pub Tuple : Type 0
Tuple = List TupleValue

pub data OldTuple : Type 0 where
  key full : Tuple → OldTuple

pub record TypeDef : Type 0 where
  pub oid : ℕ
  pub schema : Bytes
  pub name : Bytes

pub data Message : Type 0 where
  begin : Begin → Message
  relation : Relation → Message
  type_def : TypeDef → Message
  -- the relation, and the new tuple
  insert : ℕ → Tuple → Message
  update : ℕ → Option OldTuple → Tuple → Message
  delete : ℕ → OldTuple → Message
  -- the flags, and the relations
  truncate : ℕ → List ℕ → Message
  commit : Commit → Message
