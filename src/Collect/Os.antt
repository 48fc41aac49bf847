-- ===== src/Collect/Os.antt =====
-- src/os.cc, on a POSIX host.
pub mod Release
use archspec.Base.{
  suc, ◌*◌, false, not, ◌||◌, List, [], ◌∷◌, Bytes, none, some, codes, if◌then◌else◌, is_empty,
  head_or, take, drop, ◌==◌, ℤ, pos, negsuc,
}
use archspec.Base.Dict.{insert}
use archspec.Text.{trim, find, lines, unquote_value}
use archspec.Report.Field.{
  of_value, unavailable, available, not_found, redacted, internal_error, U64Field, StringField,
  nat_default, list_default,
}
use archspec.Report.Os.{OsInfo}
use archspec.Report.Options.{CollectOptions}
use archspec.Host.{Host, Uname}
use archspec.Read.{ReadResult, proc_path, etc_path, read_string_field_with, read_file}
use archspec.KeyValue.{KeyValueMap, string_from_map}

-- one line of the file
unfoldable pub os_release_step : Bytes → KeyValueMap → KeyValueMap
os_release_step raw values =
    let line = trim raw in
    if is_empty line || head_or line 0 == b'#' then values else elim (find b'=' line) [
      | none ↦ values
      | some equals ↦
          insert (trim (take equals line)) (unquote_value (drop (suc equals) line)) values
    ]

unfoldable pub os_release_loop : List Bytes → KeyValueMap → KeyValueMap
unfolding os_release_step
os_release_loop [] values = values
os_release_loop (line ∷ rest) values = os_release_loop rest (os_release_step line values)

unfoldable pub parse_os_release : Bytes → KeyValueMap
unfolding os_release_loop
parse_os_release text = os_release_loop (lines b'\n' text) []

-- a field of `uname`, or of its failure
unfoldable pub uname_field : Host → (Uname → Bytes) → StringField
uname_field h part = elim h.uname [
  | none ↦ unavailable internal_error
  | some uts ↦ of_value (part uts)
]

-- `sysconf(_SC_PAGESIZE)`, if it is positive
unfoldable pub page_size_field : ℤ → U64Field
page_size_field (pos n) = if n == 0 then unavailable not_found else of_value n
page_size_field (negsuc n) = unavailable not_found

-- a field of `/etc/os-release`, or of the failure to read it
unfoldable pub os_release_field : ReadResult → List Bytes → StringField
os_release_field os_release keys =
    if available os_release.status
    then string_from_map (parse_os_release os_release.value) keys
    else unavailable os_release.status

-- what stays of a sensitive field
unfoldable pub redact : CollectOptions → StringField → StringField
redact o field = if not o.include_sensitive then unavailable redacted else field

unfoldable pub collect_os : Host → CollectOptions → OsInfo
collect_os h o =
    let os_release = read_file h.files (etc_path o (codes "/os-release")) in
    record {
      kernel_name = uname_field h (λ uts. uts.sysname);
      kernel_version = uname_field h (λ uts. uts.version);
      kernel_release = uname_field h (λ uts. uts.release);
      machine = uname_field h (λ uts. uts.machine);
      hostname = redact o (uname_field h (λ uts. uts.nodename));
      distro_name = os_release_field os_release (codes "PRETTY_NAME" ∷ codes "NAME" ∷ []);
      distro_version = os_release_field os_release (codes "VERSION_ID" ∷ codes "VERSION" ∷ []);
      distro_id = os_release_field os_release (codes "ID" ∷ []);
      cmdline = redact o (read_string_field_with h.files false (proc_path o (codes "/cmdline")));
      page_size = page_size_field h.page_size;
      word_size = of_value (h.pointer_bytes * 8);
      endianness = of_value (if h.little_endian then codes "little" else codes "big");
    }
