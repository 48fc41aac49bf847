-- ===== src/Report/Field.antt =====
-- include/aview.hh and src/core.cc: the status of a value, and the field that carries one.
use archspec.Base.{ℕ, Bool, true, false, Bytes, List, [], ℤ, pos, codes, if◌then◌else◌}

pub data Status : Type 0 where
  ok unsupported perm_denied not_found : Status
  parse_error invalid_arg redacted internal_error : Status

-- `to_string(Status)`
unfoldable pub status_text : Status → Bytes
status_text ok = codes "ok"
status_text unsupported = codes "unsupported"
status_text perm_denied = codes "permission denied"
status_text not_found = codes "not found"
status_text parse_error = codes "parse error"
status_text invalid_arg = codes "invalid argument"
status_text redacted = codes "redacted"
status_text internal_error = codes "internal error"

unfoldable pub status_code : Status → Bytes
status_code ok = codes "ok"
status_code unsupported = codes "unsupported"
status_code perm_denied = codes "perm_denied"
status_code not_found = codes "not_found"
status_code parse_error = codes "parse_error"
status_code invalid_arg = codes "invalid_arg"
status_code redacted = codes "redacted"
status_code internal_error = codes "internal_error"

unfoldable pub available : Status → Bool
available ok = true
available _ = false

-- The value-initialisation `T{}` of a type.
pub record Default (A : Type 0) : Type 0 where
  pub default : A

abbrev pub init : {A : Type 0} ⦃d : Default A⦄ → A
init ⦃d⦄ = d.default

instance abbrev pub bool_default : Default Bool
bool_default = record { default = false }

instance abbrev pub nat_default : Default ℕ
nat_default = record { default = 0 }

instance abbrev pub int_default : Default ℤ
int_default = record { default = pos 0 }

instance abbrev pub list_default : {A : Type 0} → Default (List A)
list_default = record { default = [] }

-- The three members are independent, as in the class: nothing ties `valid` to `status`.
pub record Field (A : Type 0) : Type 0 where
  pub valid : Bool
  pub status : Status
  pub value : A

module _ {A : Type 0} where
  -- `Field<T>::value`
  unfoldable pub of_value : A → Field A
  of_value a = record { valid = true; status = ok; value = a }

  -- `Field<T>::unavailable`
  unfoldable pub unavailable : ⦃d : Default A⦄ → Status → Field A
  unavailable ⦃d⦄ s = record { valid = false; status = s; value = d.default }

  unfoldable pub value_or : Field A → A → A
  value_or f d = if f.valid then f.value else d

-- `Field()`
instance abbrev pub field_default : {A : Type 0} ⦃d : Default A⦄ → Default (Field A)
field_default ⦃d⦄ = record {
  default = record { valid = false; status = not_found; value = d.default };
}

abbrev pub BoolField : Type 0
BoolField = Field Bool

-- A `uint32_t` or a `uint64_t` is a number; that it fits its width is an invariant.
abbrev pub U32Field : Type 0
U32Field = Field ℕ

abbrev pub U64Field : Type 0
U64Field = Field ℕ

abbrev pub I64Field : Type 0
I64Field = Field ℤ

abbrev pub StringField : Type 0
StringField = Field Bytes
