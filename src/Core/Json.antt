-- ===== src/Core/Json.antt =====
-- `serde_json::Value`, which events, documents and filters carry, with `f64` as its bit pattern.
use pg2osync.Base.{ℕ, Bool, Option, none, some, if◌then◌else◌}
use pg2osync.Base.Text.{Text, text_eq}

-- An IEEE 754 double, by its bits.
pub record Float : Type 0 where
  pub bits : ℕ

-- `serde_json::Number`: a `u64`, a negative `i64` (`negsuc n` is -(n + 1)) or an `f64`.
pub data Number : Type 0 where
  pos negsuc : ℕ → Number
  float : Float → Number

mutual
  pub data Value : Type 0 where
    null : Value
    bool : Bool → Value
    number : Number → Value
    string : Text → Value
    array : Items → Value
    object : Fields → Value

  pub data Items : Type 0 where
    nil : Items
    cons : Value → Items → Items

  pub data Fields : Type 0 where
    end : Fields
    field : Text → Value → Fields → Fields

-- `Map::get`
unfoldable pub get_field : Text → Fields → Option Value
get_field k end = none
get_field k (field j v fs) = if text_eq j k then some v else get_field k fs

-- `Map::insert`, which keeps the place of a key that is there
unfoldable pub insert_field : Text → Value → Fields → Fields
insert_field k v end = field k v end
insert_field k v (field j w fs) =
    if text_eq j k then field k v fs else field j w (insert_field k v fs)
