-- ===== src/Collect/Platform.antt =====
-- src/platform.cc.
use archspec.Base.{not, List, [], ◌∷◌, Bytes, none, some, codes, if◌then◌else◌, get_elem?, ◌==◌}
use archspec.Text.{join_path, starts_with}
use archspec.Report.Field.{of_value, unavailable, not_found, parse_error, BoolField, bool_default}
use archspec.Report.Platform.{PlatformInfo}
use archspec.Report.Options.{CollectOptions}
use archspec.Host.{Files}
use archspec.Read.{sys_path, list_dir, read_string_field, read_file, field_of, path_is_dir}

-- the fifth byte of an EFI variable, behind its four bytes of attributes
unfoldable pub secure_boot_flag : Bytes → BoolField
secure_boot_flag value = elim (get_elem? value 4) [
  | none ↦ unavailable parse_error
  | some c ↦ of_value (not (c == 0))
]

module _ (h : Files) where
  -- The loop returns at the first name that fits.
  unfoldable pub secure_boot_loop : Bytes → List Bytes → BoolField
  unfolding secure_boot_flag
  secure_boot_loop efivars [] = unavailable not_found
  secure_boot_loop efivars (name ∷ names) =
      if starts_with name (codes "SecureBoot-")
      then field_of (read_file h (join_path efivars name)) secure_boot_flag
      else secure_boot_loop efivars names

  unfoldable pub collect_secure_boot : CollectOptions → BoolField
  unfolding secure_boot_loop
  collect_secure_boot o =
      let efivars = sys_path o (codes "/firmware/efi/efivars") in
      secure_boot_loop efivars (list_dir h efivars)

  unfoldable pub collect_platform : CollectOptions → PlatformInfo
  collect_platform o =
      let dmi = sys_path o (codes "/class/dmi/id") in
      let uefi = path_is_dir h (sys_path o (codes "/firmware/efi")) in
      record {
        system_vendor = read_string_field h (join_path dmi (codes "sys_vendor"));
        product_name = read_string_field h (join_path dmi (codes "product_name"));
        product_version = read_string_field h (join_path dmi (codes "product_version"));
        board_vendor = read_string_field h (join_path dmi (codes "board_vendor"));
        board_name = read_string_field h (join_path dmi (codes "board_name"));
        bios_vendor = read_string_field h (join_path dmi (codes "bios_vendor"));
        bios_version = read_string_field h (join_path dmi (codes "bios_version"));
        bios_date = read_string_field h (join_path dmi (codes "bios_date"));
        uefi = of_value uefi;
        secure_boot = if uefi then collect_secure_boot o else unavailable not_found;
      }
