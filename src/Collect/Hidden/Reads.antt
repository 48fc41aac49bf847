-- ===== src/Collect/Hidden/Reads.antt =====
-- src/internal.hh: reading files of a host on which the hardware addresses are other ones.
use archspec.Base.{◌≡◌, refl, ℕ, Bool, true, Bytes, Option}
use archspec.Text.{join_path}
use archspec.Report.Options.{CollectOptions}
use archspec.Host.{Files, Stream}
use archspec.Read.{
  status_for_path_error, read_file, read_first_line, read_string_field_with, list_dir,
  read_scaled_u64_field, read_u32_field, read_i64_field, read_cpu_list_count_field,
  read_symlink_basename_field, read_size_bytes_field,
}
use archspec.Collect.Hidden.{IsOther, is_other, is_other-IsOther}

-- What the files hold that can be opened, where it differs in the hardware addresses alone.
pub record Readdressed (o : CollectOptions) (fs : Files) : Type 0 where
  pub opened : Bytes → Option Stream
  pub same : (path : Bytes) → IsOther o path → opened path ≡ fs.open_file path

abbrev pub moved : {o : CollectOptions} (fs : Files) → Readdressed o fs → Files
moved fs w = record fs { open_file = w.opened }

module _ {o : CollectOptions} (fs : Files) (w : Readdressed o fs) where
  pub list_dir-moved : (path : Bytes) → list_dir (moved fs w) path ≡ list_dir fs path
  unfolding list_dir
  list_dir-moved path = refl

  pub read_symlink-moved :
      (path : Bytes)
      → read_symlink_basename_field (moved fs w) path ≡ read_symlink_basename_field fs path
  unfolding read_symlink_basename_field status_for_path_error
  read_symlink-moved path = refl

  pub line-moved :
      (path : Bytes) → IsOther o path → read_first_line (moved fs w) path ≡ read_first_line fs path
  unfolding read_first_line status_for_path_error
  line-moved path h = rw (w.same path h) refl

  pub file-moved : (path : Bytes) → IsOther o path → read_file (moved fs w) path ≡ read_file fs path
  unfolding read_file status_for_path_error
  file-moved path h = rw (w.same path h) refl

  pub string-moved :
      (path : Bytes) (b : Bool)
      → IsOther o path
      → read_string_field_with (moved fs w) b path ≡ read_string_field_with fs b path
  unfolding read_string_field_with
  string-moved path b h = rw (line-moved path h) refl

  pub u64-moved :
      (path : Bytes) (m : ℕ)
      → IsOther o path
      → read_scaled_u64_field (moved fs w) m path ≡ read_scaled_u64_field fs m path
  unfolding read_scaled_u64_field
  u64-moved path m h = rw (line-moved path h) refl

  module _ (root s : Bytes) where
    pub line-at :
        is_other s ≡ true
        → read_first_line (moved fs w) (join_path root s) ≡ read_first_line fs (join_path root s)
    line-at h = line-moved (join_path root s) (is_other-IsOther o root s h)

    pub file-at :
        is_other s ≡ true
        → read_file (moved fs w) (join_path root s) ≡ read_file fs (join_path root s)
    file-at h = file-moved (join_path root s) (is_other-IsOther o root s h)

    pub string-at :
        (b : Bool)
        → is_other s ≡ true
        → read_string_field_with (moved fs w) b (join_path root s)
          ≡ read_string_field_with fs b (join_path root s)
    unfolding read_string_field_with
    string-at b h = rw (line-at h) refl

    pub u64-at :
        (m : ℕ)
        → is_other s ≡ true
        → read_scaled_u64_field (moved fs w) m (join_path root s)
          ≡ read_scaled_u64_field fs m (join_path root s)
    unfolding read_scaled_u64_field
    u64-at m h = rw (line-at h) refl

    pub u32-at :
        is_other s ≡ true
        → read_u32_field (moved fs w) (join_path root s) ≡ read_u32_field fs (join_path root s)
    unfolding read_u32_field
    u32-at h = rw (line-at h) refl

    pub i64-at :
        is_other s ≡ true
        → read_i64_field (moved fs w) (join_path root s) ≡ read_i64_field fs (join_path root s)
    unfolding read_i64_field
    i64-at h = rw (line-at h) refl

    pub count-at :
        is_other s ≡ true
        → read_cpu_list_count_field (moved fs w) (join_path root s)
          ≡ read_cpu_list_count_field fs (join_path root s)
    unfolding read_cpu_list_count_field
    count-at h = rw (line-at h) refl

    pub size-at :
        is_other s ≡ true
        → read_size_bytes_field (moved fs w) (join_path root s)
          ≡ read_size_bytes_field fs (join_path root s)
    unfolding read_size_bytes_field
    size-at h = rw (line-at h) refl

pub ruleset moved_rules = (
  list_dir-moved, read_symlink-moved, line-at, file-at, string-at, u64-at, u32-at, i64-at, count-at,
  size-at,
)
