-- ===== src/Collect/Sound/Lists.antt =====
-- src/memory.cc, src/cache.cc and src/gpu.cc.
use archspec.Base.{
  ℕ, List, [], ◌∷◌, ◌++◌, Bytes, Option, none, some, codes, All, All-append, Bool-cases,
  Option-cases, inl, inr, arith, contains,
}
use archspec.Base.Dict.{Dict}
use archspec.Text.{join_path, basename}
use archspec.Report.Field.{
  of_value, unavailable, available, bool_default, nat_default, list_default, StringField,
}
use archspec.Report.Cache.{CacheInfo}
use archspec.Report.Gpu.{GpuInfo}
use archspec.Report.Sound.{GpuInfoIsSound}
use archspec.Report.Sound.Machine.{
  CacheInfoIsSound, CacheListIsSound, NumaNodeInfoIsSound, MemoryInfoIsSound, GpuListIsSound,
}
use archspec.Report.Options.{CollectOptions}
use archspec.Host.{Files, Host}
use archspec.Read.{ReadResult, read_first_line, sys_path, field_of}
use archspec.Read.Sound.{IsSound, of_value-IsSound}
use archspec.Collect.Sound.{sound_laws, choose-either, skip-All}
use archspec.Collect.Sound.Devices.{gpu_from_pci-IsSound}
use archspec.Collect.Sound.Machine.{page_size_field-IsSound}
use archspec.Collect.Memory.{
  meminfo_field, meminfo_or_status, hugepages_setting, transparent_hugepages_enabled, numa_node,
  node_number, numa_nodes, collect_numa_nodes, collect_memory,
}
use archspec.Collect.Cache.{
  cache_key, keep_cache, read_cache, index_loop, cache_loop, collect_cache,
}
use archspec.Collect.Gpu.{
  gpu_from_pci, add_card, card_step, card_loop, display_loop, collect_gpu, is_display_class,
}
use archspec.Collect.Gpu
use archspec.Collect.Cache

meminfo_or_status-IsSound : (r : ReadResult) (key : Bytes) → IsSound (meminfo_or_status r key)
unfolding meminfo_or_status meminfo_field IsSound of_value unavailable available
meminfo_or_status-IsSound r key = ground arith

hugepages_setting-IsSound : (value : Bytes) → IsSound (hugepages_setting value)
unfolding hugepages_setting IsSound of_value available
hugepages_setting-IsSound value = ground arith

transparent_hugepages-IsSound :
    (h : Files) (o : CollectOptions) → IsSound (transparent_hugepages_enabled h o)
unfolding transparent_hugepages_enabled field_of IsSound unavailable
transparent_hugepages-IsSound h o =
    let read = read_first_line h (sys_path o (codes "/kernel/mm/transparent_hugepage/enabled")) in
    ground (arith, hugepages_setting-IsSound read.value)

numa_node-IsSound : (h : Files) (path : Bytes) (id : ℕ) → NumaNodeInfoIsSound (numa_node h path id)
unfolding numa_node NumaNodeInfoIsSound
numa_node-IsSound h path id = search (sound_laws, meminfo_or_status-IsSound)

numa_nodes-IsSound :
    (h : Files) (root : Bytes) (names : List Bytes)
    → All NumaNodeInfoIsSound (numa_nodes h root names)
unfolding numa_nodes
numa_nodes-IsSound h root [] = tt
numa_nodes-IsSound h root (name ∷ names) = elim (Option-cases (node_number name)) [
  | inl e ↦ rw (e, numa_nodes) (numa_nodes-IsSound h root names)
  | inr (id, e) ↦ rw (e, numa_nodes) (numa_node-IsSound h _ id, numa_nodes-IsSound h root names)
]

-- Every field for the memory and its nodes has a value exactly when its status is `ok`.
pub collect_memory-IsSound :
    (h : Host) (o : CollectOptions) → MemoryInfoIsSound (collect_memory h o)
unfolding collect_memory collect_numa_nodes MemoryInfoIsSound
collect_memory-IsSound h o = search (
  page_size_field-IsSound, meminfo_or_status-IsSound, transparent_hugepages-IsSound,
  numa_nodes-IsSound,
)

module _ (h : Files) where
  read_cache-IsSound : (cpu : ℕ) (path : Bytes) → CacheInfoIsSound (read_cache h cpu path)
  unfolding read_cache CacheInfoIsSound
  read_cache-IsSound cpu path = search sound_laws

  keep_cache-IsSound :
      (cache : CacheInfo) (s : Cache.Seen)
      → CacheInfoIsSound cache
      → All CacheInfoIsSound s.0
      → All CacheInfoIsSound (keep_cache cache s).0
  unfolding keep_cache
  keep_cache-IsSound cache (entries, seen) p h =
      elim (Bool-cases (contains seen (cache_key cache))) [
        | inl e ↦ rw (e, keep_cache) h
        | inr e ↦ rw (e, keep_cache) (All-append CacheInfoIsSound entries (cache ∷ []) h (p, tt))
      ]

  index_loop-IsSound :
      (cpu : ℕ) (root : Bytes) (names : List Bytes) (s : Cache.Seen)
      → All CacheInfoIsSound s.0
      → All CacheInfoIsSound (index_loop h cpu root names s).0
  unfolding index_loop
  index_loop-IsSound cpu root [] s p = p
  index_loop-IsSound cpu root (index ∷ indices) s p = index_loop-IsSound cpu root indices _ (
      choose-either (λ t. All CacheInfoIsSound t.0) _ _ s
        (keep_cache-IsSound _ s (read_cache-IsSound cpu _) p) p)

  cache_loop-IsSound :
      (cpus : List (ℕ × Bytes)) (s : Cache.Seen)
      → All CacheInfoIsSound s.0
      → All CacheInfoIsSound (cache_loop h cpus s).0
  unfolding cache_loop
  cache_loop-IsSound [] s p = p
  cache_loop-IsSound ((cpu, path) ∷ cpus) s p =
      cache_loop-IsSound cpus _ (index_loop-IsSound cpu _ _ s p)

  -- Every field of every cache has a value exactly when its status is `ok`.
  pub collect_cache-IsSound : (o : CollectOptions) → CacheListIsSound (collect_cache h o)
  unfolding collect_cache CacheListIsSound
  collect_cache-IsSound o = cache_loop-IsSound _ ([], []) tt

with_card-IsSound :
    (gpu : GpuInfo) (card : StringField)
    → GpuInfoIsSound gpu
    → IsSound card
    → GpuInfoIsSound (record gpu { drm_card = card })
unfolding GpuInfoIsSound
with_card-IsSound gpu card p q =
    let (a, b, c, d, e, f, g, i, j, k, l, m, n, r, s) = p in
    (a, q, c, d, e, f, g, i, j, k, l, m, n, r, s)

module _ (h : Files) (o : CollectOptions) (nodes : Dict Bytes) where
  add_card-IsSound :
      (card address : Bytes) (s : Gpu.Seen)
      → All GpuInfoIsSound s.0
      → All GpuInfoIsSound (add_card h o nodes card address s).0
  unfolding add_card
  add_card-IsSound card address (entries, seen) p =
      choose-either {A = Gpu.Seen} (λ t. All GpuInfoIsSound t.0) _ (entries, seen) _ p
        (All-append GpuInfoIsSound entries _ p (
          with_card-IsSound (gpu_from_pci h address _ nodes) _
              (gpu_from_pci-IsSound h address _ nodes) (of_value-IsSound _),
          tt,
        ))

  card_step-IsSound :
      (root card : Bytes) (s : Gpu.Seen)
      → All GpuInfoIsSound s.0
      → All GpuInfoIsSound (card_step h o nodes root card s).0
  unfolding card_step
  card_step-IsSound root card s p =
      choose-either (λ t. All GpuInfoIsSound t.0) _ s _ p
        (target (h.read_symlink (join_path root (card ++ codes "/device"))))
    where
      target :
          (t : Option Bytes)
          → All GpuInfoIsSound
              (elim t as (λ _. Gpu.Seen) [
                | none ↦ s
                | some address ↦ add_card h o nodes card (basename address) s
              ]).0
      target none = p
      target (some address) = add_card-IsSound card (basename address) s p

  card_loop-IsSound :
      (root : Bytes) (cards : List Bytes) (s : Gpu.Seen)
      → All GpuInfoIsSound s.0
      → All GpuInfoIsSound (card_loop h o nodes root cards s).0
  unfolding card_loop
  card_loop-IsSound root [] s p = p
  card_loop-IsSound root (card ∷ cards) s p =
      card_loop-IsSound root cards _ (card_step-IsSound root card s p)

  display_loop-IsSound :
      (seen names : List Bytes) → All GpuInfoIsSound (display_loop h o nodes seen names)
  unfolding display_loop
  display_loop-IsSound seen [] = tt
  display_loop-IsSound seen (name ∷ names) =
      let rest = display_loop-IsSound seen names in
      skip-All _ _ _ _ (gpu_from_pci-IsSound h name _ nodes) rest

-- Every field of every graphics card has a value exactly when its status is `ok`.
pub collect_gpu-IsSound : (h : Files) (o : CollectOptions) → GpuListIsSound (collect_gpu h o)
unfolding collect_gpu GpuListIsSound
collect_gpu-IsSound h o =
    All-append GpuInfoIsSound _ _ (card_loop-IsSound h o _ _ _ ([], []) tt)
      (display_loop-IsSound h o _ _ _)
