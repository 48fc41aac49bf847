-- ===== src/Json/Writer.antt =====
-- src/json.cc: the escaping of strings, the object under construction, fields and arrays.
use archspec.Base.{
  ℕ, ◌+◌, ◌-◌, ◌/◌, ◌%◌, Bool, true, false, List, [], ◌∷◌, ◌++◌, Bytes, String, codes, ℤ, ltb, ◌==◌,
  if◌then◌else◌,
}
use archspec.Number.{to_decimal, int_to_decimal}
use archspec.Report.Field.{status_code, BoolField, U32Field, U64Field, I64Field, StringField}

unfoldable pub hex_digit : ℕ → ℕ
hex_digit n = if ltb n 10 then b'0' + n else b'a' + n - 10

-- `std::hex << std::setw(4) << std::setfill('0')`, of a number below 2^16
abbrev pub hex4 : ℕ → Bytes
hex4 c =
    hex_digit (c / 4096 % 16)
    ∷ hex_digit (c / 256 % 16)
    ∷ hex_digit (c / 16 % 16)
    ∷ hex_digit (c % 16)
    ∷ []

-- what one round of `escape_json` writes
unfoldable pub escape_char : ℕ → Bytes
escape_char c =
    if c == b'"'
    then codes "\\\""
    else if c == b'\\'
    then codes "\\\\"
    else if c == 8
    then codes "\\b"
    else if c == 12
    then codes "\\f"
    else if c == 10
    then codes "\\n"
    else if c == 13
    then codes "\\r"
    else if c == 9
    then codes "\\t"
    else if ltb c 0x20
    then b'\\' ∷ b'u' ∷ hex4 c
    else c ∷ []

unfoldable pub escape_json : Bytes → Bytes
escape_json [] = []
escape_json (c ∷ s) = escape_char c ++ escape_json s

unfoldable pub json_string : Bytes → Bytes
json_string value = b'"' ∷ (escape_json value ++ b'"' ∷ [])

unfoldable pub json_bool : Bool → Bytes
json_bool value = if value then codes "true" else codes "false"

-- `class JsonObject`: `out` is what its stream holds
pub record JsonObject : Type 0 where
  pub first : Bool
  pub out : Bytes

unfoldable pub new_object : JsonObject
new_object = record { first = true; out = [] }

unfoldable pub add_comma : JsonObject → JsonObject
add_comma o = if o.first then record o { first = false } else record o { out = o.out ++ b',' ∷ [] }

-- `out_ << text`
abbrev append_out : Bytes → JsonObject → JsonObject
append_out text o = record o { out = o.out ++ text }

-- A key is a literal of the program.
unfoldable pub add_raw : String → Bytes → JsonObject → JsonObject
unfolding add_comma
add_raw key raw_value o = append_out (json_string (codes key) ++ b':' ∷ raw_value) (add_comma o)

unfoldable pub add_string : String → Bytes → JsonObject → JsonObject
add_string key value = add_raw key (json_string value)

unfoldable pub add_u64 : String → ℕ → JsonObject → JsonObject
unfolding add_comma
add_u64 key value o = append_out (json_string (codes key) ++ b':' ∷ to_decimal value) (add_comma o)

unfoldable pub add_i64 : String → ℤ → JsonObject → JsonObject
unfolding add_comma
add_i64 key value o =
    append_out (json_string (codes key) ++ b':' ∷ int_to_decimal value) (add_comma o)

unfoldable pub add_bool : String → Bool → JsonObject → JsonObject
add_bool key value = add_raw key (json_bool value)

-- `str()`
unfoldable pub object_text : JsonObject → Bytes
object_text o = b'{' ∷ (o.out ++ b'}' ∷ [])

-- The calls on an object, one after the other.
infixl 20 ◌▷◌
abbrev pub ◌▷◌ : JsonObject → (JsonObject → JsonObject) → JsonObject
o ▷ f = f o

unfoldable pub string_field_to_json : StringField → Bytes
string_field_to_json field =
    let obj =
      new_object ▷ add_bool "valid" field.valid ▷ add_string "status" (status_code field.status) in
    object_text (if field.valid then obj ▷ add_string "value" field.value else obj)

unfoldable pub bool_field_to_json : BoolField → Bytes
bool_field_to_json field =
    let obj =
      new_object ▷ add_bool "valid" field.valid ▷ add_string "status" (status_code field.status) in
    object_text (if field.valid then obj ▷ add_bool "value" field.value else obj)

unfoldable pub u32_field_to_json : U32Field → Bytes
u32_field_to_json field =
    let obj =
      new_object ▷ add_bool "valid" field.valid ▷ add_string "status" (status_code field.status) in
    object_text (if field.valid then obj ▷ add_u64 "value" field.value else obj)

unfoldable pub u64_field_to_json : U64Field → Bytes
u64_field_to_json field =
    let obj =
      new_object ▷ add_bool "valid" field.valid ▷ add_string "status" (status_code field.status) in
    object_text (if field.valid then obj ▷ add_u64 "value" field.value else obj)

unfoldable pub i64_field_to_json : I64Field → Bytes
i64_field_to_json field =
    let obj =
      new_object ▷ add_bool "valid" field.valid ▷ add_string "status" (status_code field.status) in
    object_text (if field.valid then obj ▷ add_i64 "value" field.value else obj)

-- the overloads of `add_field`
unfoldable pub add_string_field : String → StringField → JsonObject → JsonObject
add_string_field key field = add_raw key (string_field_to_json field)

unfoldable pub add_bool_field : String → BoolField → JsonObject → JsonObject
add_bool_field key field = add_raw key (bool_field_to_json field)

unfoldable pub add_u32_field : String → U32Field → JsonObject → JsonObject
add_u32_field key field = add_raw key (u32_field_to_json field)

unfoldable pub add_u64_field : String → U64Field → JsonObject → JsonObject
add_u64_field key field = add_raw key (u64_field_to_json field)

unfoldable pub add_i64_field : String → I64Field → JsonObject → JsonObject
add_i64_field key field = add_raw key (i64_field_to_json field)

module _ {A : Type 0} (to_json_fn : A → Bytes) where
  -- the loop of `vector_to_json`; the flag is `first`
  unfoldable pub vector_loop : Bool → List A → Bytes
  vector_loop first [] = []
  vector_loop first (value ∷ values) =
      (if first then [] else b',' ∷ []) ++ (to_json_fn value ++ vector_loop false values)

  unfoldable pub vector_to_json : List A → Bytes
  vector_to_json values = b'[' ∷ (vector_loop true values ++ b']' ∷ [])
