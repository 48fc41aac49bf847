-- ===== src/Collect/Width.antt =====
-- The fields of 32 bits of a collected system.
pub mod System
use archspec.Base.{
  ◌≡◌, refl, ℕ, ◌<◌, true, false, List, [], ◌∷◌, ◌++◌, Bytes, Option, none, some, codes, All,
  All-append, Bool-cases, Option-cases, inl, inr, arith, contains, drop, if◌then◌else◌, is_empty,
}
use archspec.Text.{join_path, starts_with}
use archspec.Number.{u32_mod, parse_u64}
use archspec.Report.Field.{U32Field, Field, init, of_value, unavailable, field_default, nat_default}
use archspec.Report.Cpu.{CpuTopologyEntry, CpuInfo}
use archspec.Report.Cache.{CacheInfo, CacheList}
use archspec.Report.Memory.{NumaNodeInfo, MemoryInfo}
use archspec.Report.System.{SystemInfo, system_info_with}
use archspec.Report.Options.{CollectOptions, has_category}
use archspec.KeyValue.{KeyValueMap, map_value}
use archspec.Host.{Files, Host}
use archspec.Read.{read_u32_field, list_dir}
use archspec.Collect.Sound.{choose-either}
use archspec.Collect.CpuDirs.{u32_from_text, cpu_dirs}
use archspec.Collect.CpuDirs.Laws.{u32_from_text_bound, HasU32, cpu_dirs-Ascends}
use archspec.Collect.Cpu.Topology.{
  u32_from_map, add_cpuinfo_topology, numa_node_of, or_from_block, topology_entry, topology_loop,
  topology_of,
}
use archspec.Collect.Cpu.{collect_cpu}
use archspec.Collect.Cache
use archspec.Collect.Cache.{
  cache_key, keep_cache, read_cache, index_loop, cache_loop, collect_cache,
}
use archspec.Collect.Memory.{node_number, numa_node, numa_nodes, collect_numa_nodes, collect_memory}
use archspec.Collect.Collector.{collect}

unfoldable pub IsU32 : U32Field → Type 0
IsU32 f = f.value < u32_mod

abbrev pub EntryIsU32 : CpuTopologyEntry → Type 0
EntryIsU32 e = IsU32 e.logical_id × IsU32 e.core_id × IsU32 e.package_id × IsU32 e.numa_node

abbrev pub CacheIsU32 : CacheInfo → Type 0
CacheIsU32 c = IsU32 c.cpu_id × IsU32 c.level

abbrev pub NodeIsU32 : NumaNodeInfo → Type 0
NodeIsU32 n = IsU32 n.node_id

-- the fields that the source declares with 32 bits: of the processors, the caches and the nodes
unfoldable pub CpuInfoIsU32 : CpuInfo → Type 0
CpuInfoIsU32 i = All EntryIsU32 i.topology

unfoldable pub CacheListIsU32 : CacheList → Type 0
CacheListIsU32 l = All CacheIsU32 l.entries

unfoldable pub MemoryInfoIsU32 : MemoryInfo → Type 0
MemoryInfoIsU32 m = All NodeIsU32 m.numa_nodes

unfoldable pub SystemIsU32 : SystemInfo → Type 0
SystemIsU32 s =
    CpuInfoIsU32 s.cpu_info × CacheListIsU32 s.cache_list × MemoryInfoIsU32 s.memory_info

pub of_value-IsU32 : (n : ℕ) → n < u32_mod → IsU32 (of_value n)
unfolding IsU32 of_value
of_value-IsU32 n h = h

pub unset-IsU32 : IsU32 init
unfolding IsU32
unset-IsU32 = omega arith

pub read_u32_field-IsU32 : (h : Files) (path : Bytes) → IsU32 (read_u32_field h path)
unfolding IsU32 read_u32_field of_value unavailable
read_u32_field-IsU32 h path = ground arith

u32_from_map_bound :
    (block : KeyValueMap) (key : Bytes) {n : ℕ} → u32_from_map block key ≡ some n → n < u32_mod
unfolding u32_from_map
u32_from_map_bound block key h = elim (Option-cases (map_value block key)) [
  | inl e ↦ absurd (ground arith)
  | inr (text, e) ↦ u32_from_text_bound text (ground arith)
]

found-IsU32 :
    (o : Option ℕ) (otherwise : U32Field)
    → ((n : ℕ) → o ≡ some n → n < u32_mod)
    → IsU32 otherwise
    → IsU32 (elim o as (λ _. U32Field) [ none ↦ otherwise | some n ↦ of_value n ])
found-IsU32 none otherwise h p = p
found-IsU32 (some n) otherwise h p = of_value-IsU32 n (h n refl)

or_from_block-IsU32 :
    (f : U32Field) (block : Option KeyValueMap) (key : Bytes)
    → IsU32 f
    → IsU32 (or_from_block f block key)
unfolding or_from_block
or_from_block-IsU32 f none key p = choose-either IsU32 _ f f p p
or_from_block-IsU32 f (some b) key p =
    choose-either IsU32 _ f _ p (found-IsU32 _ f (λ n. u32_from_map_bound b key) p)

numa_node_of-IsU32 : (children : List Bytes) → IsU32 (numa_node_of children)
unfolding numa_node_of
numa_node_of-IsU32 [] = unset-IsU32
numa_node_of-IsU32 (child ∷ children) =
    let rest = numa_node_of-IsU32 children in
    choose-either IsU32 _ _ _ rest
      (found-IsU32 (u32_from_text (drop 4 child)) _ (λ n. u32_from_text_bound (drop 4 child)) rest)

topology_loop-IsU32 :
    (h : Files) (by_id : List (ℕ × KeyValueMap)) (cpus : List (ℕ × Bytes))
    → All HasU32 cpus
    → All EntryIsU32 (topology_loop h by_id cpus)
unfolding topology_loop topology_entry
topology_loop-IsU32 h by_id [] _ = tt
topology_loop-IsU32 h by_id ((id, path) ∷ cpus) (k, ks) = (
  (
    of_value-IsU32 id k,
    or_from_block-IsU32 _ _ _ (read_u32_field-IsU32 h _),
    or_from_block-IsU32 _ _ _ (read_u32_field-IsU32 h _),
    numa_node_of-IsU32 _,
  ),
  topology_loop-IsU32 h by_id cpus ks,
)

add_cpuinfo_topology-IsU32 :
    (blocks : List KeyValueMap) → All EntryIsU32 (add_cpuinfo_topology blocks)
unfolding add_cpuinfo_topology
add_cpuinfo_topology-IsU32 [] = tt
add_cpuinfo_topology-IsU32 (block ∷ blocks) =
    let rest = add_cpuinfo_topology-IsU32 blocks in
    elim (Option-cases (u32_from_map block (codes "processor"))) [
      | inl e ↦ rw (e, add_cpuinfo_topology) rest
      | inr (n, e) ↦
          rw (e, add_cpuinfo_topology)
            (
              (
                of_value-IsU32 n (u32_from_map_bound block (codes "processor") e),
                found-IsU32 _ init (λ m. u32_from_map_bound block (codes "core id")) unset-IsU32,
                found-IsU32 _ init (λ m. u32_from_map_bound block (codes "physical id"))
                    unset-IsU32,
                unset-IsU32,
              ),
              rest,
            )
    ]

pub topology_of-IsU32 :
    (h : Files) (blocks : List KeyValueMap) (cpus : List (ℕ × Bytes))
    → All HasU32 cpus
    → All EntryIsU32 (topology_of h blocks cpus)
unfolding topology_of
topology_of-IsU32 h blocks cpus p =
    choose-either (All EntryIsU32) _ _ _ (add_cpuinfo_topology-IsU32 blocks)
      (topology_loop-IsU32 h _ cpus p)
