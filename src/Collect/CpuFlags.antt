-- ===== src/Collect/CpuFlags.antt =====
-- The flags of the first block of `/proc/cpuinfo`, as src/perf.cc and src/virtualization.cc read them.
use archspec.Base.{
  Bool, true, false, List, [], ◌∷◌, Bytes, none, some, codes, if◌then◌else◌, eq_bytes, contains,
}
use archspec.Text.{word_set}
use archspec.Report.Field.{
  Status, ok, not_found, parse_error, available, of_value, BoolField, bool_default,
}
use archspec.Report.Options.{CollectOptions}
use archspec.Host.{Files}
use archspec.Read.{proc_path, read_file}
use archspec.KeyValue.{KeyValueMap, map_value, parse_colon_blocks}

-- `CpuFlagResult` and `CpuFlags`
pub record CpuFlags : Type 0 where
  pub status : Status
  pub flags : List Bytes
  pub x86 : Bool

abbrev no_flags : Status → CpuFlags
no_flags status = record { status = status; flags = []; x86 = false }

-- the first key with a value
unfoldable pub flags_of_block : KeyValueMap → List Bytes → CpuFlags
flags_of_block block [] = no_flags not_found
flags_of_block block (key ∷ keys) = elim (map_value block key) [
  | none ↦ flags_of_block block keys
  | some value ↦ record { status = ok; flags = word_set value; x86 = eq_bytes key (codes "flags") }
]

unfoldable pub flags_of_blocks : List KeyValueMap → List Bytes → CpuFlags
unfolding flags_of_block
flags_of_blocks [] keys = no_flags parse_error
flags_of_blocks (block ∷ blocks) keys = flags_of_block block keys

unfoldable pub cpu_flags : Files → CollectOptions → List Bytes → CpuFlags
unfolding flags_of_blocks
cpu_flags h o keys =
    let cpuinfo = read_file h (proc_path o (codes "/cpuinfo")) in
    if available cpuinfo.status
    then flags_of_blocks (parse_colon_blocks cpuinfo.value) keys
    else no_flags cpuinfo.status

-- `bool_from_flag`
unfoldable pub bool_from_flag : List Bytes → Bytes → BoolField
bool_from_flag flags name = of_value (contains flags name)

-- one of the names is among the flags
unfoldable pub any_of : List Bytes → List Bytes → Bool
any_of flags [] = false
any_of flags (name ∷ names) = if contains flags name then true else any_of flags names

-- `any_flag`
unfoldable pub any_flag : List Bytes → List Bytes → BoolField
unfolding any_of
any_flag flags names = of_value (any_of flags names)
