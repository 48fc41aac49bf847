-- ===== src/Read.antt =====
-- src/internal.hh: reading files and directories into fields.
pub mod Sort
pub mod Laws
pub mod Scaled
pub mod Rooted
pub mod Sound
use archspec.Base.{
  ℕ, ◌-◌, ◌*◌, ◌/◌, ◌%◌, Bool, true, false, not, ◌&&◌, ◌||◌, List, [], ◌∷◌, Option, none, some,
  Bytes, codes, ltb, leb, ◌==◌, if◌then◌else◌, is_empty, head_or,
}
use archspec.Base.Dict.{Dict, lookup}
use archspec.Text.{trim, basename, join_path, lines, starts_with}
use archspec.Number.{parse_u64, parse_i64, parse_size_bytes, u64_mod, u32_mod}
use archspec.CpuList.{cpu_list_count}
use archspec.Report.Field.{
  Status, ok, perm_denied, not_found, parse_error, internal_error, Field, of_value, unavailable,
  Default, available, BoolField, U32Field, U64Field, I64Field, StringField, bool_default,
  nat_default, int_default, list_default,
}
use archspec.Report.Options.{CollectOptions}
use archspec.Host.{
  Files, PathError, no_error, no_such_file, not_a_directory, permission_denied, not_permitted,
  other_error, Stream,
}
use archspec.Read.Sort.{sort_names}

pub record ReadResult : Type 0 where
  pub status : Status
  pub value : Bytes

abbrev pub proc_path : CollectOptions → Bytes → Bytes
proc_path o suffix = join_path o.procfs_root suffix

abbrev pub sys_path : CollectOptions → Bytes → Bytes
sys_path o suffix = join_path o.sysfs_root suffix

abbrev pub etc_path : CollectOptions → Bytes → Bytes
etc_path o suffix = join_path o.etc_root suffix

abbrev pub dev_path : CollectOptions → Bytes → Bytes
dev_path o suffix = join_path o.dev_root suffix

-- the status of a path that does not exist, by the error that the question met
unfoldable pub error_status : PathError → Status
error_status no_error = not_found
error_status no_such_file = not_found
error_status not_a_directory = not_found
error_status permission_denied = perm_denied
error_status not_permitted = perm_denied
error_status other_error = internal_error

abbrev pub first_line : Bytes → Bytes
first_line content = head_or (lines b'\n' content) []

module _ (h : Files) where
  abbrev pub path_exists : Bytes → Bool
  path_exists path = h.exists path

  abbrev pub path_is_dir : Bytes → Bool
  path_is_dir path = h.is_directory path

  abbrev pub read_symlink_target : Bytes → Option Bytes
  read_symlink_target path = h.read_symlink path

  unfoldable pub status_for_path_error : Bytes → Status
  unfolding error_status
  status_for_path_error path =
      if path_exists path then perm_denied else error_status (h.exists_error path)

  unfoldable pub read_file : Bytes → ReadResult
  read_file path = elim (h.open_file path) [
    | none ↦ record { status = status_for_path_error path; value = [] }
    | some file ↦
        if file.bad_after_copy
        then record { status = internal_error; value = [] }
        else record { status = ok; value = file.content }
  ]

  -- `getline` fails at the end of the file and at a bad stream.
  unfoldable pub read_first_line : Bytes → ReadResult
  read_first_line path = elim (h.open_file path) [
    | none ↦ record { status = status_for_path_error path; value = [] }
    | some file ↦
        if (is_empty file.content || file.bad_after_line) && file.bad_after_line
        then record { status = internal_error; value = [] }
        else record { status = ok; value = first_line file.content }
  ]

-- the value that a parser gives, or `parse_error`
unfoldable pub parsed_field : {A : Type 0} ⦃d : Default A⦄ → Option A → Field A
parsed_field none = unavailable parse_error
parsed_field (some a) = of_value a

-- A field from what was read: `if (result.status != Status::ok) return unavailable(result.status)`,
-- and the rest.
unfoldable pub field_of : {A : Type 0} ⦃d : Default A⦄ → ReadResult → (Bytes → Field A) → Field A
unfolding available
field_of result rest =
    if available result.status then rest result.value else unavailable result.status

module _ (h : Files) where
  unfoldable pub read_string_field_with : Bool → Bytes → StringField
  unfolding field_of
  read_string_field_with trim_value path =
      field_of (read_first_line h path) λ line. of_value (if trim_value then trim line else line)

  -- `trim_value` is true unless it is given
  abbrev pub read_string_field : Bytes → StringField
  read_string_field = read_string_field_with true

  unfoldable pub read_scaled_u64_field : ℕ → Bytes → U64Field
  unfolding field_of
  read_scaled_u64_field multiplier path = field_of (read_first_line h path) λ line.
      elim (parse_u64 line) [
        | none ↦ unavailable parse_error
        | some value ↦
            if not (multiplier == 0) && ltb ((u64_mod - 1) / multiplier) value
            then unavailable parse_error
            else of_value (value * multiplier % u64_mod)
      ]

  -- `multiplier` is 1 unless it is given
  abbrev pub read_u64_field : Bytes → U64Field
  read_u64_field = read_scaled_u64_field 1

  unfoldable pub read_u32_field : Bytes → U32Field
  unfolding field_of
  read_u32_field path = field_of (read_first_line h path) λ line. elim (parse_u64 line) [
    | none ↦ unavailable parse_error
    | some value ↦ if leb u32_mod value then unavailable parse_error else of_value value
  ]

  unfoldable pub read_i64_field : Bytes → I64Field
  unfolding field_of parsed_field
  read_i64_field path = field_of (read_first_line h path) λ line. parsed_field (parse_i64 line)

  unfoldable pub read_cpu_list_count_field : Bytes → U64Field
  unfolding field_of parsed_field
  read_cpu_list_count_field path =
      field_of (read_first_line h path) λ line. parsed_field (cpu_list_count line)

  unfoldable pub read_size_bytes_field : Bytes → U64Field
  unfolding field_of parsed_field
  read_size_bytes_field path =
      field_of (read_first_line h path) λ line. parsed_field (parse_size_bytes line)

  unfoldable pub list_dir : Bytes → List Bytes
  list_dir path = elim (h.directory path) [ none ↦ [] | some entries ↦ sort_names entries ]

  unfoldable pub read_symlink_basename_field : Bytes → StringField
  read_symlink_basename_field path = elim (read_symlink_target h path) [
    | none ↦ unavailable (status_for_path_error h path)
    | some target ↦ of_value (basename target)
  ]
