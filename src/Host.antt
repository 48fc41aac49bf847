-- ===== src/Host.antt =====
-- What the collectors ask of the operating system and of the C and C++ runtime that talks to it.
-- None of it is the program's code: it is a parameter of every collector.
use archspec.Base.{ℕ, Bool, List, Option, Bytes, ℤ}
use archspec.Report.Cpu.{ArchType}

-- the answers of `std::filesystem::exists(path, error)` that the program tells apart
pub data PathError : Type 0 where
  no_error no_such_file not_a_directory permission_denied not_permitted other_error : PathError

-- An opened `std::ifstream`: what it holds, and what `bad()` answers after its buffer has been
-- copied, and after a line has been read.
pub record Stream : Type 0 where
  pub content : Bytes
  pub bad_after_copy : Bool
  pub bad_after_line : Bool

pub record Uname : Type 0 where
  pub sysname : Bytes
  pub release : Bytes
  pub version : Bytes
  pub machine : Bytes
  pub nodename : Bytes

-- An entry of `getifaddrs`; the text is that of `inet_ntop`, or nothing where it fails.
pub data Address : Type 0 where
  no_address other_family : Address
  inet inet6 : Option Bytes → Address

-- What `perf_event_open` does: a descriptor, or the value of `errno`.
pub data PerfOpen : Type 0 where
  opened eacces eperm enodev enoent eopnotsupp einval other_errno : PerfOpen

-- The file system.
pub record Files : Type 0 where
  pub exists : Bytes → Bool
  pub exists_error : Bytes → PathError
  pub is_directory : Bytes → Bool
  pub open_file : Bytes → Option Stream
  -- the names that a `directory_iterator` gives, to its end or to its first error
  pub directory : Bytes → Option (List Bytes)
  pub read_symlink : Bytes → Option Bytes
  -- `access(path, R_OK | W_OK) == 0`
  pub access_rw : Bytes → Bool

pub record Host : Type 0 where
  pub files : Files
  pub uname : Option Uname
  -- `sysconf(_SC_PAGESIZE)`
  pub page_size : ℤ
  pub hardware_concurrency : ℕ
  pub getifaddrs : Option (List (Bytes × Address))
  -- `perf_event_open` for a hardware counter
  pub perf_event_open : ℕ → PerfOpen
  pub pointer_bytes : ℕ
  pub little_endian : Bool
  -- what a `CpuInfo::arch` that was never written holds
  pub stale_arch : ArchType
