-- ===== src/Json.antt =====
-- JSON values, as `serde_json::Value` holds them. A number is kept apart by how serde_json keeps
-- it; a float stands by its bits. The order of an object's fields is not the source's.
use serverless_db.Base.{ℕ, String, Bool, Option, none, some, str_eq, if◌then◌else◌}

pub data Number : Type 0 where
  pos_int neg_int float : ℕ → Number

mutual
  pub data Value : Type 0 where
    null : Value
    bool : Bool → Value
    number : Number → Value
    string : String → Value
    array : Items → Value
    object : Fields → Value

  pub data Items : Type 0 where
    nil : Items
    cons : Value → Items → Items

  pub data Fields : Type 0 where
    end : Fields
    field : String → Value → Fields → Fields

-- `Map::get`.
unfoldable pub get_field : String → Fields → Option Value
get_field k end = none
get_field k (field j v fs) = if str_eq j k then some v else get_field k fs

-- `Map::insert`.
unfoldable pub insert_field : String → Value → Fields → Fields
insert_field k v end = field k v end
insert_field k v (field j w fs) =
    if str_eq j k then field j v fs else field j w (insert_field k v fs)
