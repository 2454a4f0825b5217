-- ===== src/Proxy/Json.antt =====
-- `serde_json::Value` as far as the proxy looks into it.
use reveries_network.Common.{ℕ, String, Bool, Option, none, some, if◌then◌else◌, ◌==◌, string_eq}

-- A number is a u64 or the text of another one. The keys of an object are distinct.
mutual
  pub data Json : Type 0 where
    null : Json
    bool : Bool → Json
    u64 : ℕ → Json
    other_number text : String → Json
    array : Items → Json
    object : Fields → Json

  pub data Items : Type 0 where
    nil : Items
    item : Json → Items → Items

  pub data Fields : Type 0 where
    end : Fields
    field : String → Json → Fields → Fields

unfoldable pub get_field : String → Fields → Option Json
get_field k end = none
get_field k (field j v fs) = if j == k then some v else get_field k fs

-- `get`, on a value and after `and_then`
unfoldable pub get : String → Json → Option Json
unfolding get_field
get k (object fs) = get_field k fs
get k _ = none

unfoldable pub then_get : String → Option Json → Option Json
unfolding get
then_get k none = none
then_get k (some v) = get k v

unfoldable pub then_u64 : Option Json → Option ℕ
then_u64 (some (u64 n)) = some n
then_u64 _ = none

unfoldable pub then_str : Option Json → Option String
then_str (some (text s)) = some s
then_str _ = none

unfoldable pub then_object : Option Json → Option Json
then_object (some (object fs)) = some (object fs)
then_object _ = none

unfoldable pub then_array : Option Json → Option Items
then_array (some (array xs)) = some xs
then_array _ = none

abbrev pub or_else : Option Json → Option Json → Option Json
or_else (some v) other = some v
or_else none other = other

abbrev pub or_unknown : Option String → String
or_unknown (some s) = s
or_unknown none = "unknown"

abbrev pub or_zero : Option ℕ → ℕ
or_zero (some n) = n
or_zero none = 0

abbrev pub value_or_null : Option Json → Json
value_or_null (some v) = v
value_or_null none = null

abbrev pub is_text : Option String → String → Bool
is_text none s = Bool.false
is_text (some t) s = t == s
