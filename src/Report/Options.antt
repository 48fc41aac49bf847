-- ===== src/Report/Options.antt =====
-- include/aview.hh: the categories of a report, the options of a collection and the report itself.
pub mod Bits
use archspec.Base.{ℕ, ◌-◌, ◌^◌, bit_and, bit_or, Bool, true, false, not, ◌==◌, Bytes, codes}
use archspec.Report.System.{SystemInfo}

-- `enum class CollectCategory : std::uint64_t`: a value is its 64 bits.
abbrev pub CollectCategory : Type 0
CollectCategory = ℕ

-- The categories in the order of their bits.
pub data Category : Type 0 where
  os cpu isa cache memory pci gpu : Category
  perf block net thermal power virtualization platform : Category

abbrev pub bit_index : Category → ℕ
bit_index os = 0
bit_index cpu = 1
bit_index isa = 2
bit_index cache = 3
bit_index memory = 4
bit_index pci = 5
bit_index gpu = 6
bit_index perf = 7
bit_index block = 8
bit_index net = 9
bit_index thermal = 10
bit_index power = 11
bit_index virtualization = 12
bit_index platform = 13

-- `CollectCategory::os` and the other single bits
abbrev pub flag : Category → CollectCategory
flag c = 2 ^ bit_index c

-- `CollectCategory::none`
abbrev pub no_categories : CollectCategory
no_categories = 0

-- `CollectCategory::all`, `~0ull`
abbrev pub all_categories : CollectCategory
all_categories = 2 ^ 64 - 1

-- `operator|`
unfoldable pub union : CollectCategory → CollectCategory → CollectCategory
union a b = bit_or a b

-- `operator&`
unfoldable pub intersection : CollectCategory → CollectCategory → CollectCategory
intersection a b = bit_and a b

unfoldable pub has_category : CollectCategory → Category → Bool
unfolding intersection
has_category flags c = not (intersection flags (flag c) == 0)

pub record CollectOptions : Type 0 where
  pub categories : CollectCategory
  pub procfs_root : Bytes
  pub sysfs_root : Bytes
  pub etc_root : Bytes
  pub dev_root : Bytes
  pub allow_slow_probes : Bool
  pub allow_vendor_libraries : Bool
  pub allow_perf_open : Bool
  pub include_sensitive : Bool

-- `CollectOptions{}`
abbrev pub default_options : CollectOptions
default_options = record {
  categories = all_categories;
  procfs_root = codes "/proc";
  sysfs_root = codes "/sys";
  etc_root = codes "/etc";
  dev_root = codes "/dev";
  allow_slow_probes = false;
  allow_vendor_libraries = false;
  allow_perf_open = false;
  include_sensitive = true;
}

pub record Report : Type 0 where
  pub categories : CollectCategory
  pub system : SystemInfo
