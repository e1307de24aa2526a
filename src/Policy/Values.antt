-- ===== src/Policy/Values.antt =====
-- app/utils/requestPolicy.ts: the values of a payload, and `normalize`. `undefined` and `null` are one
-- value, and a number is kept as it prints. lodash's `sortBy` and `isEqual` are arguments.
use sso_requests.Base.{
  Bool, true, false, ◌&&◌, ◌||◌, not, List, [], ◌∷◌, Option, none, some, String, string_eq, ◌==◌,
  if◌then◌else◌,
}

mutual
  pub data Value : Type 0 where
    null : Value
    text : String → Value
    number : String → Value
    flag : Bool → Value
    array : Values → Value
    object : Fields → Value

  pub data Values : Type 0 where
    nil : Values
    cons : Value → Values → Values

  pub data Fields : Type 0 where
    end : Fields
    entry : String → Value → Fields → Fields

pub record Lodash : Type 0 where
  pub sort_by : Values → Values
  pub is_equal : Value → Value → Bool

-- An item that the arrays lose: null or an empty text.
abbrev pub is_blank : Value → Bool
is_blank null = true
is_blank (text s) = s == ""
is_blank _ = false

-- `typeof item === 'object'`.
abbrev pub is_object : Value → Bool
is_object null = true
is_object (array items) = true
is_object (object fields) = true
is_object _ = false

abbrev pub has_object : Values → Bool
has_object nil = false
has_object (cons v items) = is_object v || has_object items

-- The items of an array, normalized, as one value.
unfoldable pub pack_items : Lodash → Values → Value
pack_items l nil = null
pack_items l (cons v items) =
    if has_object (cons v items) then array (cons v items) else array (l.sort_by (cons v items))

unfoldable mutual
  unfolding pack_items

  -- `normalize`.
  pub normalize : Lodash → Value → Value
  normalize l null = null
  normalize l (text s) = if s == "" then null else text s
  normalize l (number s) = text s
  normalize l (flag b) = if b then flag true else null
  normalize l (array items) = pack_items l (normalize_items l items)
  normalize l (object fields) = object (normalize_fields l fields)

  pub normalize_items : Lodash → Values → Values
  normalize_items l nil = nil
  normalize_items l (cons v items) =
      if is_blank v then normalize_items l items else cons (normalize l v) (normalize_items l items)

  pub normalize_fields : Lodash → Fields → Fields
  normalize_fields l end = end
  normalize_fields l (entry key v fields) = entry key (normalize l v) (normalize_fields l fields)

-- A record of the payload, and what stands under a key.
abbrev pub Record : Type 0
Record = List (String × Value)

abbrev pub value_of : Record → String → Value
value_of [] key = null
value_of ((k, v) ∷ fields) key = if k == key then v else value_of fields key

-- `!value`.
abbrev pub is_falsy : Value → Bool
is_falsy null = true
is_falsy (text s) = s == ""
is_falsy (number s) = s == "0" || s == "NaN"
is_falsy (flag b) = not b
is_falsy _ = false

-- `===`, where arrays and objects differ from all others.
abbrev pub same_value : Value → Value → Bool
same_value null null = true
same_value (text s) (text t) = s == t
same_value (number s) (number t) = s == t && not (s == "NaN")
same_value (flag true) (flag b) = b
same_value (flag false) (flag b) = not b
same_value _ _ = false

abbrev pub list_of : Values → List Value
list_of nil = []
list_of (cons v items) = v ∷ list_of items

-- `value ?? []` as an array; `none` is the TypeError of what is none.
abbrev pub elements : Value → Option (List Value)
elements null = some []
elements (array items) = some (list_of items)
elements _ = none
