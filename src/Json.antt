-- ===== src/Json.antt =====
-- JSON as Python holds it, for the parts that read and write it: the values that `json.loads`
-- gives, and the `dict` and `list` operations on them. Python's numbers, `int` and `float`, are a
-- parameter. A `dict` is the sequence of its items in the order of insertion.
pub mod Dict
use ai_career_os.Common.{String, Bool, true, false, not, Option, none, some, str_eq, if◌then◌else◌}

mutual
  pub data Value (F : Type 0) : Type 0 where
    null : Value F
    boolean : Bool → Value F
    number : F → Value F
    text : String → Value F
    array : Items F → Value F
    object : Fields F → Value F

  pub data Items (F : Type 0) : Type 0 where
    nil : Items F
    cons : Value F → Items F → Items F

  pub data Fields (F : Type 0) : Type 0 where
    end : Fields F
    field : String → Value F → Fields F → Fields F

module _ {F : Type 0} where
  -- `d.get(key)`
  unfoldable pub get : String → Fields F → Option (Value F)
  get key end = none
  get key (field k v rest) = let later = get key rest in if str_eq key k then some v else later

  -- `d[key] = value`: the item keeps its place, and a new one goes to the end
  unfoldable pub set : String → Value F → Fields F → Fields F
  set key value end = field key value end
  set key value (field k v rest) =
      let later = set key value rest in if str_eq key k then field k value rest else field k v later

  -- `{**d, **e}`
  unfoldable pub update : Fields F → Fields F → Fields F
  unfolding set
  update d end = d
  update d (field k v rest) = update (set k v d) rest

  -- `dict(raw_metadata or {})`
  abbrev pub or_empty : Option (Fields F) → Fields F
  or_empty none = end
  or_empty (some fields) = fields

  -- `dict(value) if isinstance(value, dict) else {}` of a `value` from `d.get(key)`
  abbrev pub dict_or_empty : Option (Value F) → Fields F
  dict_or_empty (some (object fields)) = fields
  dict_or_empty _ = end

  -- `value if isinstance(value, dict) else None`
  abbrev pub as_dict : Option (Value F) → Option (Fields F)
  as_dict (some (object fields)) = some fields
  as_dict _ = none

  abbrev pub items_truthy : Items F → Bool
  items_truthy nil = false
  items_truthy (cons v vs) = true

  abbrev pub fields_truthy : Fields F → Bool
  fields_truthy end = false
  fields_truthy (field k v fs) = true

  -- `bool(value)`; the first argument tells the numbers that are zero
  abbrev pub is_true : (F → Bool) → Value F → Bool
  is_true is_zero null = false
  is_true is_zero (boolean b) = b
  is_true is_zero (number n) = not (is_zero n)
  is_true is_zero (text s) = not (str_eq s "")
  is_true is_zero (array vs) = items_truthy vs
  is_true is_zero (object fs) = fields_truthy fs

  -- the same of `d.get(key)`, which is `None` without the key
  abbrev pub found_true : (F → Bool) → Option (Value F) → Bool
  found_true is_zero none = false
  found_true is_zero (some v) = is_true is_zero v

  -- `value == s` for a text `s`, and a `value` from `d.get(key)`
  abbrev pub is_text : String → Option (Value F) → Bool
  is_text s (some (text t)) = str_eq t s
  is_text s _ = false
