-- ===== src/Read/Sound.antt =====
-- include/aview.hh and src/internal.hh: the validity and the status of what the readers return.
use archspec.Base.{◌≡◌, refl, ℕ, Bool, true, false, Bytes, arith, if◌then◌else◌}
use archspec.Report.Field.{
  Status, not_found, Field, Default, of_value, unavailable, available, field_default, bool_default,
  nat_default, int_default, list_default,
}
use archspec.Host.{Files}
use archspec.Read.{
  error_status, status_for_path_error, parsed_field, field_of, read_string_field_with,
  read_scaled_u64_field, read_u32_field, read_i64_field, read_cpu_list_count_field,
  read_size_bytes_field, read_symlink_basename_field,
}

-- The field has a value exactly when its status is `ok`.
unfoldable pub IsSound : {A : Type 0} → Field A → Type 0
IsSound f = f.valid ≡ available f.status

module _ {A : Type 0} where
  pub of_value-IsSound : (a : A) → IsSound (of_value a)
  unfolding IsSound of_value available
  of_value-IsSound a = refl

  pub choose-IsSound :
      (b : Bool) (f g : Field A) → IsSound f → IsSound g → IsSound (if b then f else g)
  choose-IsSound true f g p q = p
  choose-IsSound false f g p q = q

-- a failure, with the value left empty
pub failed-IsSound :
    (A : Type 0) (d : Default A) (s : Status)
    → available s ≡ false
    → IsSound (unavailable ⦃d = d⦄ s)
unfolding IsSound unavailable
failed-IsSound A d s h = ground arith

-- `Field()`
pub unset-IsSound :
    (A : Type 0) (a : A) → IsSound {A = A} (record { valid = false; status = not_found; value = a })
unfolding IsSound available
unset-IsSound A a = refl

module _ (h : Files) where
  pub status_for_path_error-fails :
      (path : Bytes) → available (status_for_path_error h path) ≡ false
  unfolding status_for_path_error error_status available
  status_for_path_error-fails path = ground arith

  pub read_string_field_with-IsSound :
      (trim_value : Bool) (path : Bytes) → IsSound (read_string_field_with h trim_value path)
  unfolding IsSound read_string_field_with field_of of_value unavailable available
  read_string_field_with-IsSound trim_value path = ground arith

  pub read_scaled_u64_field-IsSound :
      (multiplier : ℕ) (path : Bytes) → IsSound (read_scaled_u64_field h multiplier path)
  unfolding IsSound read_scaled_u64_field field_of of_value unavailable available
  read_scaled_u64_field-IsSound multiplier path = ground arith

  pub read_u32_field-IsSound : (path : Bytes) → IsSound (read_u32_field h path)
  unfolding IsSound read_u32_field field_of of_value unavailable available
  read_u32_field-IsSound path = ground arith

  pub read_i64_field-IsSound : (path : Bytes) → IsSound (read_i64_field h path)
  unfolding IsSound read_i64_field field_of of_value unavailable available parsed_field
  read_i64_field-IsSound path = ground arith

  pub read_cpu_list_count_field-IsSound :
      (path : Bytes) → IsSound (read_cpu_list_count_field h path)
  unfolding IsSound read_cpu_list_count_field field_of of_value unavailable available parsed_field
  read_cpu_list_count_field-IsSound path = ground arith

  pub read_size_bytes_field-IsSound : (path : Bytes) → IsSound (read_size_bytes_field h path)
  unfolding IsSound read_size_bytes_field field_of of_value unavailable available parsed_field
  read_size_bytes_field-IsSound path = ground arith

  pub read_symlink_basename_field-IsSound :
      (path : Bytes) → IsSound (read_symlink_basename_field h path)
  unfolding IsSound read_symlink_basename_field of_value unavailable available
  read_symlink_basename_field-IsSound path = ground (arith, status_for_path_error-fails path)
