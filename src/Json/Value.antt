-- ===== src/Json/Value.antt =====
-- JSON documents as trees, and the text without blanks that stands for one.
use archspec.Base.{Bool, true, false, List, [], ◌∷◌, ◌++◌, Bytes, ℤ, if◌then◌else◌}
use archspec.Number.{int_to_decimal}
use archspec.Json.Writer.{json_string, json_bool}

mutual
  pub data Value : Type 0 where
    str : Bytes → Value
    num : ℤ → Value
    bool : Bool → Value
    arr : Items → Value
    obj : Fields → Value

  pub data Items : Type 0 where
    nil : Items
    cons : Value → Items → Items

  pub data Fields : Type 0 where
    end : Fields
    field : Bytes → Value → Fields → Fields

-- a comma in front of all but the first
abbrev pub sep : Bool → Bytes
sep first = if first then [] else b',' ∷ []

unfoldable mutual
  pub print : Value → Bytes
  print (str s) = json_string s
  print (num n) = int_to_decimal n
  print (bool b) = json_bool b
  print (arr xs) = b'[' ∷ print_items true xs
  print (obj fs) = b'{' ∷ print_fields true fs

  pub print_items : Bool → Items → Bytes
  print_items first nil = b']' ∷ []
  print_items first (cons v xs) = sep first ++ (print v ++ print_items false xs)

  pub print_fields : Bool → Fields → Bytes
  print_fields first end = b'}' ∷ []
  print_fields first (field k v fs) =
      sep first ++ (json_string k ++ b':' ∷ (print v ++ print_fields false fs))

-- Arrays and objects from lists.
abbrev pub items_of : List Value → Items
items_of [] = nil
items_of (v ∷ vs) = cons v (items_of vs)

abbrev pub fields_of : List (Bytes × Value) → Fields
fields_of [] = end
fields_of ((k, v) ∷ ms) = field k v (fields_of ms)

abbrev pub array : List Value → Value
array vs = arr (items_of vs)

abbrev pub object : List (Bytes × Value) → Value
object ms = obj (fields_of ms)
