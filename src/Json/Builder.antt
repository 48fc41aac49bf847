-- ===== src/Json/Builder.antt =====
-- src/json.cc: what a `JsonObject`, a field and an array hold, as documents.
use archspec.Base.{
  ℕ, ◌≡◌, refl, sym, ap, [], ◌∷◌, ◌++◌, append_assoc, append-nil, Bytes, Bool, true, false,
  if◌then◌else◌, ℤ, pos, is_empty, codes, List, String, map, Bool-cases, inl, inr,
}
use archspec.Number.{int_to_decimal}
use archspec.Report.Field.{Field, BoolField, U32Field, U64Field, I64Field, StringField, status_code}
use archspec.Json.Writer.{
  json_string, JsonObject, new_object, add_raw, add_string, add_u64, add_i64, add_bool, object_text,
  string_field_to_json, bool_field_to_json, u32_field_to_json, u64_field_to_json, i64_field_to_json,
  add_string_field, add_bool_field, add_u32_field, add_u64_field, add_i64_field, vector_loop,
  vector_to_json,
}
use archspec.Json.Value.{
  Value, str, num, bool, sep, print, print_items, print_fields, items_of, fields_of, array, object,
}

abbrev pub Members : Type 0
Members = List (Bytes × Value)

-- the text of members, without the braces
body : Bool → Members → Bytes
body first [] = []
body first ((k, v) ∷ ms) = sep first ++ (json_string k ++ b':' ∷ (print v ++ body false ms))

-- the object under construction that holds these members
pub builder : Members → JsonObject
unfolding body
builder ms = record { first = is_empty ms; out = body true ms }

body-append :
    (first : Bool) (ms : Members) (k : Bytes) (v : Value)
    → body first (ms ++ (k, v) ∷ [])
      ≡ body first ms
        ++ (sep (if first then is_empty ms else false) ++ (json_string k ++ b':' ∷ print v))
unfolding body
body-append true [] k v = rw append-nil
body-append false [] k v = rw append-nil
body-append true ((j, w) ∷ ms) k v = rw (body-append false ms k v) (simp append_assoc)
body-append false ((j, w) ∷ ms) k v = rw (body-append false ms k v) (simp append_assoc)

print_fields-body :
    (first : Bool) (ms : Members) → print_fields first (fields_of ms) ≡ body first ms ++ b'}' ∷ []
unfolding print body
print_fields-body first [] = refl
print_fields-body first ((k, v) ∷ ms) = rw (print_fields-body false ms) (simp append_assoc)

pub new_object-builder : new_object ≡ builder []
unfolding new_object builder
new_object-builder = refl

pub object_text-builder : (ms : Members) → object_text (builder ms) ≡ print (object ms)
unfolding object_text builder print
object_text-builder ms = ap (◌∷◌ b'{') (sym (print_fields-body true ms))

pub add_raw-builder :
    (key : String) (v : Value) (ms : Members)
    → add_raw key (print v) (builder ms) ≡ builder (ms ++ (codes key, v) ∷ [])
unfolding add_raw builder
add_raw-builder key v [] = rw append-nil
add_raw-builder key v (m ∷ ms) = rw (body-append true (m ∷ ms) (codes key) v) (simp append_assoc)

-- the same, for a text that a document prints
subst_print :
    {text : Bytes} (v : Value)
    → print v ≡ text
    → (key : String) (ms : Members)
    → add_raw key text (builder ms) ≡ builder (ms ++ (codes key, v) ∷ [])
subst_print v e key ms = rw (← e) (add_raw-builder key v ms)

pub add_string-builder :
    (key : String) (s : Bytes) (ms : Members)
    → add_string key s (builder ms) ≡ builder (ms ++ (codes key, str s) ∷ [])
unfolding add_string print
add_string-builder key s ms = subst_print (str s) refl key ms

pub add_bool-builder :
    (key : String) (b : Bool) (ms : Members)
    → add_bool key b (builder ms) ≡ builder (ms ++ (codes key, bool b) ∷ [])
unfolding add_bool print
add_bool-builder key b ms = subst_print (bool b) refl key ms

pub add_u64-builder :
    (key : String) (n : ℕ) (ms : Members)
    → add_u64 key n (builder ms) ≡ builder (ms ++ (codes key, num (pos n)) ∷ [])
unfolding add_u64 add_raw print int_to_decimal
add_u64-builder key n ms = subst_print (num (pos n)) refl key ms

pub add_i64-builder :
    (key : String) (n : ℤ) (ms : Members)
    → add_i64 key n (builder ms) ≡ builder (ms ++ (codes key, num n) ∷ [])
unfolding add_i64 add_raw print
add_i64-builder key n ms = subst_print (num n) refl key ms

-- The document of a field.
abbrev pub field_tree : {A : Type 0} → (A → Value) → Field A → Value
field_tree wrap f = object (
    (codes "valid", bool f.valid)
    ∷ (codes "status", str (status_code f.status))
    ∷ (if f.valid then (codes "value", wrap f.value) ∷ [] else []))

abbrev pub string_tree : StringField → Value
string_tree = field_tree str

abbrev pub bool_tree : BoolField → Value
bool_tree = field_tree bool

abbrev pub number_tree : U64Field → Value
number_tree = field_tree (λ n. num (pos n))

abbrev pub int_tree : I64Field → Value
int_tree = field_tree num

ruleset field_laws =
    (new_object-builder, add_string-builder, add_bool-builder, add_u64-builder, add_i64-builder)

string_field_to_json-tree : (f : StringField) → string_field_to_json f ≡ print (string_tree f)
unfolding string_field_to_json
string_field_to_json-tree f = elim (Bool-cases f.valid) [
  | inl e ↦ simp (e, field_laws) (object_text-builder _)
  | inr e ↦ simp (e, field_laws) (object_text-builder _)
]

pub add_string_field-builder :
    (key : String) (f : StringField) (ms : Members)
    → add_string_field key f (builder ms) ≡ builder (ms ++ (codes key, string_tree f) ∷ [])
unfolding add_string_field
add_string_field-builder key f ms =
    subst_print (string_tree f) (sym (string_field_to_json-tree f)) key ms

bool_field_to_json-tree : (f : BoolField) → bool_field_to_json f ≡ print (bool_tree f)
unfolding bool_field_to_json
bool_field_to_json-tree f = elim (Bool-cases f.valid) [
  | inl e ↦ simp (e, field_laws) (object_text-builder _)
  | inr e ↦ simp (e, field_laws) (object_text-builder _)
]

pub add_bool_field-builder :
    (key : String) (f : BoolField) (ms : Members)
    → add_bool_field key f (builder ms) ≡ builder (ms ++ (codes key, bool_tree f) ∷ [])
unfolding add_bool_field
add_bool_field-builder key f ms = subst_print (bool_tree f) (sym (bool_field_to_json-tree f)) key ms

u32_field_to_json-tree : (f : U32Field) → u32_field_to_json f ≡ print (number_tree f)
unfolding u32_field_to_json
u32_field_to_json-tree f = elim (Bool-cases f.valid) [
  | inl e ↦ simp (e, field_laws) (object_text-builder _)
  | inr e ↦ simp (e, field_laws) (object_text-builder _)
]

pub add_u32_field-builder :
    (key : String) (f : U32Field) (ms : Members)
    → add_u32_field key f (builder ms) ≡ builder (ms ++ (codes key, number_tree f) ∷ [])
unfolding add_u32_field
add_u32_field-builder key f ms = subst_print (number_tree f) (sym (u32_field_to_json-tree f)) key ms

u64_field_to_json-tree : (f : U64Field) → u64_field_to_json f ≡ print (number_tree f)
unfolding u64_field_to_json
u64_field_to_json-tree f = elim (Bool-cases f.valid) [
  | inl e ↦ simp (e, field_laws) (object_text-builder _)
  | inr e ↦ simp (e, field_laws) (object_text-builder _)
]

pub add_u64_field-builder :
    (key : String) (f : U64Field) (ms : Members)
    → add_u64_field key f (builder ms) ≡ builder (ms ++ (codes key, number_tree f) ∷ [])
unfolding add_u64_field
add_u64_field-builder key f ms = subst_print (number_tree f) (sym (u64_field_to_json-tree f)) key ms

i64_field_to_json-tree : (f : I64Field) → i64_field_to_json f ≡ print (int_tree f)
unfolding i64_field_to_json
i64_field_to_json-tree f = elim (Bool-cases f.valid) [
  | inl e ↦ simp (e, field_laws) (object_text-builder _)
  | inr e ↦ simp (e, field_laws) (object_text-builder _)
]

pub add_i64_field-builder :
    (key : String) (f : I64Field) (ms : Members)
    → add_i64_field key f (builder ms) ≡ builder (ms ++ (codes key, int_tree f) ∷ [])
unfolding add_i64_field
add_i64_field-builder key f ms = subst_print (int_tree f) (sym (i64_field_to_json-tree f)) key ms

-- What the calls of a writer do to the object under construction.
pub ruleset builder_laws = (
  new_object-builder, add_string-builder, add_bool-builder, add_string_field-builder,
  add_bool_field-builder, add_u32_field-builder, add_u64_field-builder, add_i64_field-builder,
  add_raw-builder, object_text-builder,
)

module _ {A : Type 0} (to_json_fn : A → Bytes) (tree : A → Value)
    (law : (a : A) → to_json_fn a ≡ print (tree a)) where
  vector_loop-tree :
      (first : Bool) (values : List A)
      → vector_loop to_json_fn first values ++ b']' ∷ []
        ≡ print_items first (items_of (map tree values))
  unfolding vector_loop print
  vector_loop-tree first [] = refl
  vector_loop-tree first (value ∷ values) =
      rw (law value) (simp append_assoc (rw (vector_loop-tree false values)))

  pub vector_to_json-tree :
      (values : List A) → vector_to_json to_json_fn values ≡ print (array (map tree values))
  unfolding vector_to_json print
  vector_to_json-tree values = ap (◌∷◌ b'[') (vector_loop-tree true values)
