-- ===== src/Collect/Memory.antt =====
-- src/memory.cc, on a POSIX host.
pub mod Meminfo
use archspec.Base.{
  ℕ, suc, ◌-◌, true, false, not, List, [], ◌∷◌, ◌++◌, Bytes, Option, none, some, codes,
  if◌then◌else◌, eq_bytes, take, drop, ltb, leb,
}
use archspec.Base.Dict.{Dict, lookup, insert}
use archspec.Text.{join_path, starts_with, trim, find, find_text, lines, split_words}
use archspec.Number.{parse_u64, to_decimal, u32_mod}
use archspec.Report.Field.{
  available, of_value, unavailable, not_found, BoolField, U64Field, nat_default, bool_default,
}
use archspec.Report.Memory.{NumaNodeInfo, MemoryInfo}
use archspec.Report.Options.{CollectOptions}
use archspec.Host.{Files, Host}
use archspec.Read.{
  ReadResult, proc_path, sys_path, list_dir, read_string_field, read_file, read_first_line,
  field_of,
}
use archspec.Collect.Os.{page_size_field}

-- `value_stream >> number && parse_u64(number, value)`
unfoldable pub first_number : Bytes → Option ℕ
first_number text = elim (split_words text) [ [] ↦ none | number ∷ words ↦ parse_u64 number ]

unfoldable pub meminfo_step : Bytes → Dict ℕ → Dict ℕ
unfolding first_number
meminfo_step line values = elim (find b':' line) [
  | none ↦ values
  | some colon ↦ elim (first_number (drop (suc colon) line)) [
    | none ↦ values
    | some value ↦ insert (trim (take colon line)) value values
  ]
]

unfoldable pub meminfo_loop : List Bytes → Dict ℕ → Dict ℕ
meminfo_loop [] values = values
meminfo_loop (line ∷ rest) values = meminfo_loop rest (meminfo_step line values)

unfoldable pub parse_meminfo_values : Bytes → Dict ℕ
parse_meminfo_values text = meminfo_loop (lines b'\n' text) []

unfoldable pub meminfo_field : Dict ℕ → Bytes → U64Field
meminfo_field values key = elim (lookup key values) [
  | none ↦ unavailable not_found
  | some value ↦ of_value value
]

-- a value of the file, or the failure to read it
unfoldable pub meminfo_or_status : ReadResult → Bytes → U64Field
unfolding meminfo_field
meminfo_or_status meminfo key =
    if available meminfo.status
    then meminfo_field (parse_meminfo_values meminfo.value) key
    else unavailable meminfo.status

-- what stands in brackets is the setting; else any text but `never` is taken for an enabled one
unfoldable pub hugepages_setting : Bytes → BoolField
hugepages_setting value =
    let unbracketed : BoolField =
      of_value (elim (find_text (codes "never") value) [ none ↦ true | some i ↦ false ]) in
    elim (find b'[' value) [
      | none ↦ unbracketed
      | some open_at ↦ elim (find b']' (drop open_at value)) [
        | none ↦ unbracketed
        | some width ↦
            if ltb 1 width
            then of_value
                (not (eq_bytes (take (width - 1) (drop (suc open_at) value)) (codes "never")))
            else unbracketed
      ]
    ]

-- the number of a directory `node…`, if it fits 32 bits
unfoldable pub node_number : Bytes → Option ℕ
node_number name =
    if starts_with name (codes "node")
    then elim (parse_u64 (drop 4 name)) [
      | none ↦ none
      | some id ↦ if leb u32_mod id then none else some id
    ]
    else none

module _ (h : Files) where
  unfoldable pub transparent_hugepages_enabled : CollectOptions → BoolField
  transparent_hugepages_enabled o =
      field_of (read_first_line h (sys_path o (codes "/kernel/mm/transparent_hugepage/enabled")))
        hugepages_setting

  unfoldable pub numa_node : Bytes → ℕ → NumaNodeInfo
  numa_node node_path id =
      let meminfo = read_file h (join_path node_path (codes "meminfo")) in
      let prefix = codes "Node " ++ to_decimal id in
      record {
        node_id = of_value id;
        total_kb = meminfo_or_status meminfo (prefix ++ codes " MemTotal");
        free_kb = meminfo_or_status meminfo (prefix ++ codes " MemFree");
        cpu_list = read_string_field h (join_path node_path (codes "cpulist"));
      }

  unfoldable pub numa_nodes : Bytes → List Bytes → List NumaNodeInfo
  unfolding numa_node node_number
  numa_nodes root [] = []
  numa_nodes root (name ∷ names) = elim (node_number name) [
    | none ↦ numa_nodes root names
    | some id ↦ numa_node (join_path root name) id ∷ numa_nodes root names
  ]

  unfoldable pub collect_numa_nodes : CollectOptions → List NumaNodeInfo
  unfolding numa_nodes
  collect_numa_nodes o =
      let root = sys_path o (codes "/devices/system/node") in numa_nodes root (list_dir h root)

unfoldable pub collect_memory : Host → CollectOptions → MemoryInfo
collect_memory h o =
    let meminfo = read_file h.files (proc_path o (codes "/meminfo")) in
    record {
      total_kb = meminfo_or_status meminfo (codes "MemTotal");
      free_kb = meminfo_or_status meminfo (codes "MemFree");
      available_kb = meminfo_or_status meminfo (codes "MemAvailable");
      buffers_kb = meminfo_or_status meminfo (codes "Buffers");
      cached_kb = meminfo_or_status meminfo (codes "Cached");
      swap_total_kb = meminfo_or_status meminfo (codes "SwapTotal");
      swap_free_kb = meminfo_or_status meminfo (codes "SwapFree");
      page_size_bytes = page_size_field h.page_size;
      hugepage_size_kb = meminfo_or_status meminfo (codes "Hugepagesize");
      hugepages_total = meminfo_or_status meminfo (codes "HugePages_Total");
      hugepages_free = meminfo_or_status meminfo (codes "HugePages_Free");
      transparent_hugepages_enabled = transparent_hugepages_enabled h.files o;
      numa_nodes = collect_numa_nodes h.files o;
    }
