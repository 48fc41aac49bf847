-- ===== src/Collect/Cpu/Topology.antt =====
-- src/cpu.cc: the processors, and how many packages, cores and threads they make.
pub mod Totals
use archspec.Base.{
  ℕ, suc, Bool, false, not, ◌&&◌, ◌||◌, ◌==◌, List, [], ◌∷◌, Bytes, Option, none, some, codes,
  if◌then◌else◌, is_empty, length, drop, ltb,
}
use archspec.Text.{join_path, starts_with}
use archspec.Number.{parse_u64}
use archspec.Report.Field.{init, field_default, nat_default, list_default, of_value, U32Field}
use archspec.Report.Cpu.{CpuTopologyEntry}
use archspec.Host.{Files}
use archspec.Read.{list_dir, read_string_field, read_u32_field}
use archspec.KeyValue.{KeyValueMap, map_value}
use archspec.Collect.CpuDirs.{u32_from_text}

unfoldable pub u32_from_map : KeyValueMap → Bytes → Option ℕ
u32_from_map block key = elim (map_value block key) [
  | none ↦ none
  | some value ↦ u32_from_text value
]

-- `by_id[id] = block`: of two blocks with one number the later one stays
unfoldable pub insert_block : ℕ → KeyValueMap → List (ℕ × KeyValueMap) → List (ℕ × KeyValueMap)
insert_block id block [] = (id, block) ∷ []
insert_block id block ((i, b) ∷ m) =
    if i == id then (id, block) ∷ m else (i, b) ∷ insert_block id block m

unfoldable pub find_block : ℕ → List (ℕ × KeyValueMap) → Option KeyValueMap
find_block id [] = none
find_block id ((i, b) ∷ m) = if i == id then some b else find_block id m

unfoldable pub processor_of : KeyValueMap → Option ℕ
processor_of block = elim (map_value block (codes "processor")) [
  | none ↦ none
  | some text ↦ parse_u64 text
]

unfoldable pub processor_loop : List KeyValueMap → List (ℕ × KeyValueMap) → List (ℕ × KeyValueMap)
unfolding insert_block processor_of
processor_loop [] by_id = by_id
processor_loop (block ∷ blocks) by_id =
    processor_loop blocks
      (elim (processor_of block) [ none ↦ by_id | some id ↦ insert_block id block by_id ])

unfoldable pub blocks_by_processor : List KeyValueMap → List (ℕ × KeyValueMap)
unfolding processor_loop
blocks_by_processor blocks = processor_loop blocks []

-- a field that is found, or `Field()`
abbrev found_or_init : Option ℕ → U32Field
found_or_init o = elim o [ none ↦ init | some n ↦ of_value n ]

unfoldable pub add_cpuinfo_topology : List KeyValueMap → List CpuTopologyEntry
add_cpuinfo_topology [] = []
add_cpuinfo_topology (block ∷ blocks) =
    let rest = add_cpuinfo_topology blocks in
    elim (u32_from_map block (codes "processor")) [
      | none ↦ rest
      | some processor ↦
          record {
            logical_id = of_value processor;
            core_id = found_or_init (u32_from_map block (codes "core id"));
            package_id = found_or_init (u32_from_map block (codes "physical id"));
            numa_node = init;
            thread_siblings_mask = init;
            core_siblings_mask = init;
          }
          ∷ rest
    ]

-- the first child `node…` with a number of 32 bits
unfoldable pub numa_node_of : List Bytes → U32Field
numa_node_of [] = init
numa_node_of (child ∷ children) =
    let rest = numa_node_of children in
    if not (starts_with child (codes "node"))
    then rest
    else elim (u32_from_text (drop 4 child)) [ none ↦ rest | some node ↦ of_value node ]

-- a field that is not valid gives way to the value of the block, if there is one
unfoldable pub or_from_block : U32Field → Option KeyValueMap → Bytes → U32Field
or_from_block field block key = if field.valid then field else elim block [
  | none ↦ field
  | some b ↦ elim (u32_from_map b key) [ none ↦ field | some n ↦ of_value n ]
]

module _ (h : Files) (by_id : List (ℕ × KeyValueMap)) where
  unfoldable pub topology_entry : ℕ → Bytes → CpuTopologyEntry
  topology_entry id path =
      let topology_dir = join_path path (codes "topology") in
      let block = find_block id by_id in
      record {
        logical_id = of_value id;
        core_id =
            or_from_block (read_u32_field h (join_path topology_dir (codes "core_id"))) block
              (codes "core id");
        package_id =
            or_from_block (read_u32_field h (join_path topology_dir (codes "physical_package_id")))
              block (codes "physical id");
        numa_node = numa_node_of (list_dir h path);
        thread_siblings_mask =
            read_string_field h (join_path topology_dir (codes "thread_siblings"));
        core_siblings_mask = read_string_field h (join_path topology_dir (codes "core_siblings"));
      }

  unfoldable pub topology_loop : List (ℕ × Bytes) → List CpuTopologyEntry
  unfolding topology_entry
  topology_loop [] = []
  topology_loop ((id, path) ∷ cpus) = topology_entry id path ∷ topology_loop cpus

-- the topology of sysfs, or of `/proc/cpuinfo` where sysfs has none
unfoldable pub topology_of : Files → List KeyValueMap → List (ℕ × Bytes) → List CpuTopologyEntry
topology_of h blocks cpus =
    let topology = topology_loop h (blocks_by_processor blocks) cpus in
    if is_empty topology && not (is_empty blocks) then add_cpuinfo_topology blocks else topology

-- The sets and maps of the last loop, as lists without doubles.
pub record Counts : Type 0 where
  pub packages : List ℕ
  pub cores_by_package : List (ℕ × List ℕ)
  pub threads_by_core : List ((ℕ × ℕ) × ℕ)

unfoldable pub member : ℕ → List ℕ → Bool
member n [] = false
member n (m ∷ ms) = m == n || member n ms

-- `set.insert(n)`
unfoldable pub insert_number : ℕ → List ℕ → List ℕ
unfolding member
insert_number n s = if member n s then s else n ∷ s

-- `cores_by_package[package].insert(core)`
unfoldable pub insert_core : ℕ → ℕ → List (ℕ × List ℕ) → List (ℕ × List ℕ)
unfolding insert_number
insert_core pkg core [] = (pkg, core ∷ []) ∷ []
insert_core pkg core ((p, cores) ∷ m) =
    if p == pkg then (p, insert_number core cores) ∷ m else (p, cores) ∷ insert_core pkg core m

-- `threads_by_core[{package, core}]++`
unfoldable pub count_thread : ℕ → ℕ → List ((ℕ × ℕ) × ℕ) → List ((ℕ × ℕ) × ℕ)
count_thread pkg core [] = ((pkg, core), 1) ∷ []
count_thread pkg core (((p, c), n) ∷ m) =
    if p == pkg && c == core then ((p, c), suc n) ∷ m else ((p, c), n) ∷ count_thread pkg core m

unfoldable pub count_entry : CpuTopologyEntry → Counts → Counts
unfolding insert_core count_thread
count_entry entry c =
    let pkg = entry.package_id.value in
    let core = entry.core_id.value in
    if not entry.package_id.valid || not entry.core_id.valid then c else record {
      packages = insert_number pkg c.packages;
      cores_by_package = insert_core pkg core c.cores_by_package;
      threads_by_core = count_thread pkg core c.threads_by_core;
    }

unfoldable pub count_loop : List CpuTopologyEntry → Counts → Counts
count_loop [] c = c
count_loop (entry ∷ entries) c = count_loop entries (count_entry entry c)

unfoldable pub count_topology : List CpuTopologyEntry → Counts
count_topology entries =
    count_loop entries (record { packages = []; cores_by_package = []; threads_by_core = [] })

abbrev max_of : ℕ → ℕ → ℕ
max_of a b = if ltb a b then b else a

unfoldable pub max_cores : List (ℕ × List ℕ) → ℕ
max_cores [] = 0
max_cores ((p, cores) ∷ m) = max_of (length cores) (max_cores m)

unfoldable pub max_threads : List ((ℕ × ℕ) × ℕ) → ℕ
max_threads [] = 0
max_threads ((k, n) ∷ m) = max_of n (max_threads m)
