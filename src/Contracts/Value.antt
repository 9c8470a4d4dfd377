-- ===== src/Contracts/Value.antt =====
-- Values of JSON and YAML: what `json.loads`, `yaml.safe_load` and `FrozenDict` hold.
use text.Mathlib.Text.{◌==◌ as str_eq}
use proof_ops.Common.{
  ℕ, String, Bool, true, false, not, ◌||◌, Option, none, some, ◌==◌, if◌then◌else◌,
}

-- `num` is a natural number; every other scalar (a negative number, a float, a date) is `other`,
-- with its text and its truth value. Keys of a mapping are texts.
mutual
  pub data Value : Type 0 where
    null : Value
    flag : Bool → Value
    num : ℕ → Value
    other : String → Bool → Value
    str : String → Value
    sequence : Items → Value
    mapping : Fields → Value

  pub data Fields : Type 0 where
    no_binding : Fields
    binding : String → Value → Fields → Fields

  pub data Items : Type 0 where
    no_item : Items
    item : Value → Items → Items

-- `d.get(key)` of a mapping
unfoldable pub get : String → Fields → Option Value
get k no_binding = none
get k (binding j v fs) = if str_eq j k then some v else get k fs

-- `d.get(key)` with the default None
abbrev pub or_null : Option Value → Value
or_null none = null
or_null (some v) = v

abbrev pub is_no_fields : Fields → Bool
is_no_fields no_binding = true
is_no_fields (binding _ _ _) = false

abbrev pub is_no_items : Items → Bool
is_no_items no_item = true
is_no_items (item _ _) = false

-- `bool(v)`
unfoldable pub is_truthy : Value → Bool
is_truthy null = false
is_truthy (flag b) = b
is_truthy (num n) = not (n == 0)
is_truthy (other _ b) = b
is_truthy (str s) = not (str_eq s "")
is_truthy (sequence xs) = not (is_no_items xs)
is_truthy (mapping fs) = not (is_no_fields fs)

-- `v == "..."`
unfoldable pub is_text : String → Value → Bool
is_text s (str t) = str_eq t s
is_text s _ = false

-- `isinstance(v, str)`
abbrev pub is_str : Value → Bool
is_str (str _) = true
is_str _ = false

-- Whether some item is the text.
unfoldable pub has_text : String → Items → Bool
unfolding is_text
has_text s no_item = false
has_text s (item v vs) = is_text s v || has_text s vs
