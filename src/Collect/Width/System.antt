-- ===== src/Collect/Width/System.antt =====
-- The same for the caches, the memory and the whole system.
use archspec.Base.{
  ◌≡◌, ℕ, ◌<◌, List, [], ◌∷◌, Bytes, some, All, All-append, Option-cases, inl, inr, arith, drop,
}
use archspec.Number.{u32_mod, parse_u64}
use archspec.Report.Cpu.{ArchType, cpu_info_with}
use archspec.Report.Cache.{CacheInfo, cache_list_default}
use archspec.Report.Memory.{memory_info_default}
use archspec.Report.System.{system_info_with}
use archspec.Report.Options.{CollectOptions}
use archspec.Host.{Files, Host}
use archspec.Collect.Sound.{choose-either}
use archspec.Collect.CpuDirs.{cpu_dirs}
use archspec.Collect.CpuDirs.Laws.{HasU32, cpu_dirs-Ascends}
use archspec.Collect.Cpu.{collect_cpu}
use archspec.Collect.Cache
use archspec.Collect.Cache.{
  cache_key, keep_cache, read_cache, index_loop, cache_loop, collect_cache,
}
use archspec.Collect.Memory.{node_number, numa_node, numa_nodes, collect_numa_nodes, collect_memory}
use archspec.Collect.Collector.{collect}
use archspec.Collect.Width.{
  CpuInfoIsU32, CacheListIsU32, MemoryInfoIsU32, CacheIsU32, NodeIsU32, SystemIsU32, of_value-IsU32,
  read_u32_field-IsU32, topology_of-IsU32,
}

module _ (h : Files) where
  keep_cache-IsU32 :
      (cache : CacheInfo) (s : Cache.Seen)
      → CacheIsU32 cache
      → All CacheIsU32 s.0
      → All CacheIsU32 (keep_cache cache s).0
  unfolding keep_cache
  keep_cache-IsU32 cache (entries, seen) p h =
      choose-either {A = Cache.Seen} (λ t. All CacheIsU32 t.0) _ (entries, seen) _ h
        (All-append CacheIsU32 entries (cache ∷ []) h (p, tt))

  index_loop-IsU32 :
      (cpu : ℕ) (root : Bytes) (names : List Bytes) (s : Cache.Seen)
      → cpu < u32_mod
      → All CacheIsU32 s.0
      → All CacheIsU32 (index_loop h cpu root names s).0
  unfolding index_loop read_cache
  index_loop-IsU32 cpu root [] s k p = p
  index_loop-IsU32 cpu root (index ∷ indices) s k p = index_loop-IsU32 cpu root indices _ k (
      choose-either {A = Cache.Seen} (λ t. All CacheIsU32 t.0) _ _ s
        (keep_cache-IsU32 _ s (of_value-IsU32 cpu k, read_u32_field-IsU32 h _) p) p)

  cache_loop-IsU32 :
      (cpus : List (ℕ × Bytes)) (s : Cache.Seen)
      → All HasU32 cpus
      → All CacheIsU32 s.0
      → All CacheIsU32 (cache_loop h cpus s).0
  unfolding cache_loop
  cache_loop-IsU32 [] s _ p = p
  cache_loop-IsU32 ((cpu, path) ∷ cpus) s (k, ks) p =
      cache_loop-IsU32 cpus _ ks (index_loop-IsU32 cpu _ _ s k p)

node_number_bound : (name : Bytes) {n : ℕ} → node_number name ≡ some n → n < u32_mod
unfolding node_number
node_number_bound name h = elim (Option-cases (parse_u64 (drop 4 name))) [
  | inl e ↦ absurd (ground arith)
  | inr (v, e) ↦ ground arith
]

numa_nodes-IsU32 :
    (h : Files) (root : Bytes) (names : List Bytes) → All NodeIsU32 (numa_nodes h root names)
unfolding numa_nodes numa_node
numa_nodes-IsU32 h root [] = tt
numa_nodes-IsU32 h root (name ∷ names) = elim (Option-cases (node_number name)) [
  | inl e ↦ rw (e, numa_nodes) (numa_nodes-IsU32 h root names)
  | inr (id, e) ↦
      rw (e, numa_nodes)
        (of_value-IsU32 id (node_number_bound name e), numa_nodes-IsU32 h root names)
]

collect_cpu-IsU32 : (h : Host) (o : CollectOptions) → CpuInfoIsU32 (collect_cpu h o)
unfolding collect_cpu CpuInfoIsU32
collect_cpu-IsU32 h o =
    topology_of-IsU32 h.files _ (cpu_dirs h.files o) (cpu_dirs-Ascends h.files o).1

collect_cache-IsU32 : (h : Files) (o : CollectOptions) → CacheListIsU32 (collect_cache h o)
unfolding collect_cache CacheListIsU32
collect_cache-IsU32 h o = cache_loop-IsU32 h (cpu_dirs h o) ([], []) (cpu_dirs-Ascends h o).1 tt

collect_memory-IsU32 : (h : Host) (o : CollectOptions) → MemoryInfoIsU32 (collect_memory h o)
unfolding collect_memory collect_numa_nodes MemoryInfoIsU32
collect_memory-IsU32 h o = numa_nodes-IsU32 h.files _ _

initial-IsU32 : (arch : ArchType) → SystemIsU32 (system_info_with arch)
unfolding system_info_with SystemIsU32 cpu_info_with cache_list_default memory_info_default
    CpuInfoIsU32 CacheListIsU32 MemoryInfoIsU32
initial-IsU32 arch = (tt, tt, tt)

-- In a collected system every field of 32 bits, with or without a value, holds a number that 32 bits
-- can hold.
pub collect-IsU32 : (h : Host) (o : CollectOptions) → SystemIsU32 (collect h o)
unfolding collect SystemIsU32
collect-IsU32 h o =
    let initial = initial-IsU32 h.stale_arch in
    (
      choose-either CpuInfoIsU32 _ _ _ (collect_cpu-IsU32 h o) initial.0,
      choose-either CacheListIsU32 _ _ _ (collect_cache-IsU32 h.files o) initial.1,
      choose-either MemoryInfoIsU32 _ _ _ (collect_memory-IsU32 h o) initial.2,
    )
