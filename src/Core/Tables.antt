-- ===== src/Core/Tables.antt =====
-- crates/core/src/tables.rs: the tables that a running stream admits. `SharedTables` swaps a whole
-- set, so an operation on it is a function from the old set to the new one.
use pg2osync.Base.{
  ◌≡◌, refl, ap, ◌∙◌, arith, Bool-cases, inl, inr, not, Option, Bool, true, false, ◌&&◌, ◌||◌, none,
  some, List, [], ◌∷◌, ◌++◌, if◌then◌else◌,
}
use pg2osync.Base.Map.{get, put, remove, get-put, get-remove}
use pg2osync.Base.Text.{Text, pair_key, pair_eq, pair_eq_iff}

-- `(schema, table)`
abbrev pub TableKey : Type 0
TableKey = Text × Text

pub record TableSet : Type 0 where
  pub tables : List TableKey
  pub key_columns : List (TableKey × List Text)
  -- a set, as a map into the unit type
  pub append_only : List (TableKey × Unit {0})

any_key : TableKey → List TableKey → Bool
any_key k [] = false
any_key k (j ∷ js) = pair_eq j k || any_key k js

-- `TableSet::contains`
unfoldable pub contains : TableSet → TableKey → Bool
unfolding any_key
contains set k = any_key k set.tables

retain : TableKey → List TableKey → List TableKey
retain k [] = []
retain k (j ∷ js) = let rest = retain k js in if pair_eq j k then rest else j ∷ rest

-- `SharedTables::add`
unfoldable pub add : TableKey → List Text → Bool → TableSet → TableSet
unfolding any_key
add k cols only set = record {
  tables = if contains set k then set.tables else set.tables ++ k ∷ [];
  key_columns = put k cols set.key_columns;
  append_only = if only then put k tt set.append_only else remove k set.append_only;
}

-- `SharedTables::remove`
unfoldable pub drop_table : TableKey → TableSet → TableSet
unfolding retain pair_eq
drop_table k set = record {
  tables = retain k set.tables;
  key_columns = remove k set.key_columns;
  append_only = remove k set.append_only;
}

is_present : Option (Unit {0}) → Bool
is_present none = false
is_present (some u) = true

-- `set.append_only.contains`
unfoldable pub is_append_only : TableSet → TableKey → Bool
unfolding is_present
is_append_only set k = is_present (get k set.append_only)

any_key-append :
    (k j : TableKey) (ks : List TableKey) → any_key k (ks ++ j ∷ []) ≡ (any_key k ks || pair_eq j k)
unfolding any_key
any_key-append k j [] = ground arith
any_key-append k j (i ∷ ks) = ground (arith, any_key-append k j ks)

any_key-same :
    (k j : TableKey) (ks : List TableKey) → pair_eq j k ≡ true → any_key j ks ≡ any_key k ks
any_key-same k j ks h = let e : j ≡ k = (pair_eq_iff j k).0 h in rw e refl

any_key-retain :
    (k j : TableKey) (ks : List TableKey)
    → any_key j (retain k ks) ≡ (any_key j ks && not (pair_eq k j))
unfolding any_key retain
any_key-retain k j [] = refl
any_key-retain k j (i ∷ ks) =
    ground (arith, pair_eq_iff i j, pair_eq_iff i k, pair_eq_iff k j, any_key-retain k j ks)

contains-add :
    (k j : TableKey) (cols : List Text) (only : Bool) (set : TableSet)
    → contains (add k cols only set) j ≡ (contains set j || pair_eq k j)
unfolding contains add
contains-add k j cols only set = elim (Bool-cases (any_key k set.tables)) [
  | inl known ↦ elim (Bool-cases (pair_eq k j)) [
    | inl same ↦ rw (known, ← any_key-same j k set.tables same) (ground (arith, known))
    | inr other ↦ rw (known, other) (ground arith)
  ]
  | inr new ↦ rw new (any_key-append j k set.tables)
]

is_append_only-add :
    (k j : TableKey) (cols : List Text) (only : Bool) (set : TableSet)
    → is_append_only (add k cols only set) j ≡ (if pair_eq k j then only else is_append_only set j)
unfolding is_append_only add
is_append_only-add k j cols true set = ap is_present (get-put k j tt set.append_only) ∙ ground arith
is_append_only-add k j cols false set =
    ap is_present (get-remove k j set.append_only) ∙ ground arith

is_append_only-drop_table :
    (k j : TableKey) (set : TableSet)
    → is_append_only (drop_table k set) j ≡ (if pair_eq k j then false else is_append_only set j)
unfolding is_append_only drop_table
is_append_only-drop_table k j set = ap is_present (get-remove k j set.append_only) ∙ ground arith

-- A table that is added is admitted, with the key columns and the append-only mark that it was
-- added with, whatever was known of it before; every other table keeps what it had.
pub add-lookups :
    (k j : TableKey) (cols : List Text) (only : Bool) (set : TableSet)
    → (contains (add k cols only set) j ≡ (contains set j || pair_eq k j))
      × (get j (add k cols only set).key_columns
          ≡ (if pair_eq k j then some cols else get j set.key_columns))
      × (is_append_only (add k cols only set) j
          ≡ (if pair_eq k j then only else is_append_only set j))
unfolding add
add-lookups k j cols only set = (
  contains-add k j cols only set,
  get-put k j cols set.key_columns,
  is_append_only-add k j cols only set,
)

-- A table that is dropped is not admitted, and nothing is known of it; every other table keeps
-- what it had.
pub drop_table-lookups :
    (k j : TableKey) (set : TableSet)
    → (contains (drop_table k set) j ≡ (contains set j && not (pair_eq k j)))
      × (get j (drop_table k set).key_columns
          ≡ (if pair_eq k j then none else get j set.key_columns))
      × (is_append_only (drop_table k set) j
          ≡ (if pair_eq k j then false else is_append_only set j))
unfolding contains drop_table
drop_table-lookups k j set = (
  any_key-retain k j set.tables,
  get-remove k j set.key_columns,
  is_append_only-drop_table k j set,
)
