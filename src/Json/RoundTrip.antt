-- ===== src/Json/RoundTrip.antt =====
-- The reader on the text of a document.
use archspec.Base.{
  ℕ, zero, suc, ◌<◌, ◌≡◌, ◌≢◌, refl, some, [], ◌∷◌, ◌++◌, append_assoc, append-nil, arith, Bytes,
  length, length-append, Bool, true, false, ℤ,
}
use archspec.Number.{int_to_decimal, digit_value}
use archspec.Json.Writer.{json_string, json_bool}
use archspec.Json.Value.{
  Value, Items, Fields, str, num, bool, arr, obj, nil, cons, end, field, sep, print, print_items,
  print_fields,
}
use archspec.Json.Reader.{
  expect, read_sep, start_of, starts, read_value, read_items, read_fields, read_json,
}
use archspec.Json.ReadString.{read_string-escape_json}
use archspec.Json.ReadNumber.{Stops, read_number-int_to_decimal, number_head}

-- A value's text begins with no closing bracket, and is not empty.
abbrev Opens : Bytes → Type 0
Opens [] = ⊥
Opens (c ∷ s) = (c ≢ b']') × (c ≢ b'}')

print-Opens : (v : Value) (rest : Bytes) → Opens (print v ++ rest)
unfolding print json_string json_bool
print-Opens (str s) rest = omega arith
print-Opens (num n) rest = let (c, s, e, _, h) = number_head n in rw e (omega arith)
print-Opens (bool true) rest = omega arith
print-Opens (bool false) rest = omega arith
print-Opens (arr xs) rest = omega arith
print-Opens (obj fs) rest = omega arith

length_pos : (s : Bytes) → Opens s → 0 < length s
length_pos [] h = absurd h
length_pos (c ∷ s) h = omega arith

length-print_pos : (v : Value) → 0 < length (print v)
length-print_pos v = length_pos (print v) (rw append-nil at (print-Opens v []))

starts-Opens : (s : Bytes) → Opens s → (starts b']' s ≡ false) × (starts b'}' s ≡ false)
unfolding starts
starts-Opens [] h = absurd h
starts-Opens (c ∷ s) h = ground arith

-- what an item behind its comma begins with
starts-item :
    (first : Bool) (v : Value) (rest : Bytes) → starts b']' (sep first ++ (print v ++ rest)) ≡ false
unfolding starts
starts-item false v rest = refl
starts-item true v rest = (starts-Opens (print v ++ rest) (print-Opens v rest)).0

starts-field :
    (first : Bool) (k : Bytes) (rest : Bytes)
    → starts b'}' (sep first ++ (json_string k ++ rest)) ≡ false
unfolding starts json_string
starts-field false k rest = refl
starts-field true k rest = refl

read_sep-sep : (first : Bool) (rest : Bytes) → read_sep first (sep first ++ rest) ≡ some rest
unfolding read_sep
read_sep-sep false rest = refl
read_sep-sep true rest = refl

print_items-Stops : (xs : Items) (rest : Bytes) → Stops (print_items false xs ++ rest)
unfolding print digit_value
print_items-Stops nil rest = refl
print_items-Stops (cons v xs) rest = refl

print_fields-Stops : (fs : Fields) (rest : Bytes) → Stops (print_fields false fs ++ rest)
unfolding print digit_value
print_fields-Stops end rest = refl
print_fields-Stops (field k v fs) rest = refl

read_value-num :
    (f : ℕ) (n : ℤ) (rest : Bytes)
    → Stops rest
    → read_value (suc f) (int_to_decimal n ++ rest) ≡ some (num n, rest)
unfolding read_value
read_value-num f n rest stop =
    let (c, s, e, start, _) = number_head n in
    let read = rw e at (read_number-int_to_decimal n rest stop) in rw (e, start, read_value, read)

read_value-str :
    (f : ℕ) (s rest : Bytes) → read_value (suc f) (json_string s ++ rest) ≡ some (str s, rest)
unfolding read_value json_string start_of
read_value-str f s rest = rw (append_assoc, read_string-escape_json s rest)

-- one round of `read_items`, from what the two calls in it read
items_step :
    (f : ℕ) (first : Bool) (v : Value) (xs : Items) (rest : Bytes)
    → read_value f (print v ++ (print_items false xs ++ rest))
      ≡ some (v, print_items false xs ++ rest)
    → read_items f false (print_items false xs ++ rest) ≡ some (xs, rest)
    → read_items (suc f) first (sep first ++ (print v ++ (print_items false xs ++ rest)))
      ≡ some (cons v xs, rest)
items_step f first v xs rest hv hx =
    unfold read_value in rw (starts-item first v _, read_items, read_sep-sep, hv, hx)

fields_step :
    (f : ℕ) (first : Bool) (k : Bytes) (v : Value) (fs : Fields) (rest : Bytes)
    → read_value f (print v ++ (print_fields false fs ++ rest))
      ≡ some (v, print_fields false fs ++ rest)
    → read_fields f false (print_fields false fs ++ rest) ≡ some (fs, rest)
    → read_fields
        (suc f)
        first
        (sep first ++ (json_string k ++ b':' ∷ (print v ++ (print_fields false fs ++ rest))))
      ≡ some (field k v fs, rest)
fields_step f first k v fs rest hv hf =
    unfold read_value in
    rw (starts-field first k _, read_fields, read_sep-sep)
      (unfold json_string expect in rw (append_assoc, read_string-escape_json, hv, hf))

length-print_items_pos : (xs : Items) → 0 < length (print_items false xs)
unfolding print
length-print_items_pos nil = omega arith
length-print_items_pos (cons v xs) = omega arith

length-print_fields_pos : (fs : Fields) → 0 < length (print_fields false fs)
unfolding print
length-print_fields_pos end = omega arith
length-print_fields_pos (field k v fs) = omega arith

items_length :
    (first : Bool) (v : Value) (xs : Items) (f : ℕ)
    → length (print_items first (cons v xs)) < suc f
    → (length (print v) < f) × (length (print_items false xs) < f)
unfolding print
items_length first v xs f h = omega (
  arith,
  length-append (sep first) (print v ++ print_items false xs),
  length-append (print v) (print_items false xs),
  length-print_pos v,
  length-print_items_pos xs,
)

fields_length :
    (first : Bool) (k : Bytes) (v : Value) (fs : Fields) (f : ℕ)
    → length (print_fields first (field k v fs)) < suc f
    → (length (print v) < f) × (length (print_fields false fs) < f)
unfolding print
fields_length first k v fs f h = omega (
  arith,
  length-append (sep first) (json_string k ++ b':' ∷ (print v ++ print_fields false fs)),
  length-append (json_string k) (b':' ∷ (print v ++ print_fields false fs)),
  length-append (print v) (print_fields false fs),
  length-print_fields_pos fs,
)

mutual
  unfolding read_value print json_bool start_of expect starts

  value_back :
      (v : Value) (f : ℕ) (rest : Bytes)
      → length (print v) < f
      → Stops rest
      → read_value f (print v ++ rest) ≡ some (v, rest)
  value_back v zero rest h stop = absurd (omega arith)
  value_back (str s) (suc f) rest h stop = read_value-str f s rest
  value_back (num n) (suc f) rest h stop = read_value-num f n rest stop
  value_back (bool true) (suc f) rest h stop = refl
  value_back (bool false) (suc f) rest h stop = refl
  value_back (arr xs) (suc f) rest h stop = rw (items_back xs f true rest (omega arith))
  value_back (obj fs) (suc f) rest h stop = rw (fields_back fs f true rest (omega arith))

  items_back :
      (xs : Items) (f : ℕ) (first : Bool) (rest : Bytes)
      → length (print_items first xs) < f
      → read_items f first (print_items first xs ++ rest) ≡ some (xs, rest)
  items_back xs zero first rest h = absurd (omega arith)
  items_back nil (suc f) first rest h = refl
  items_back (cons v xs) (suc f) first rest h =
      let (hv, hx) = items_length first v xs f h in
      rw (append_assoc, append_assoc)
        (items_step f first v xs rest
          (value_back v f (print_items false xs ++ rest) hv (print_items-Stops xs rest))
          (items_back xs f false rest hx))

  fields_back :
      (fs : Fields) (f : ℕ) (first : Bool) (rest : Bytes)
      → length (print_fields first fs) < f
      → read_fields f first (print_fields first fs ++ rest) ≡ some (fs, rest)
  fields_back fs zero first rest h = absurd (omega arith)
  fields_back end (suc f) first rest h = refl
  fields_back (field k v fs) (suc f) first rest h =
      let (hv, hf) = fields_length first k v fs f h in
      rw (append_assoc, append_assoc, append_assoc)
        (fields_step f first k v fs rest
          (value_back v f (print_fields false fs ++ rest) hv (print_fields-Stops fs rest))
          (fields_back fs f false rest hf))

-- Reading the text of a document gives the document.
pub read_json-print : (v : Value) → read_json (print v) ≡ some v
unfolding read_json
read_json-print v =
    rw (rw append-nil at (value_back v (suc (length (print v))) [] (omega arith) tt)) refl

-- No two documents have one text.
pub print-injective : (v w : Value) → print v ≡ print w → v ≡ w
print-injective v w e = cc (read_json-print v, read_json-print w)
