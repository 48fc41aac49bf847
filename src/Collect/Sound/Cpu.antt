-- ===== src/Collect/Sound/Cpu.antt =====
-- src/cpu.cc.
use archspec.Base.{
  refl, ℕ, true, List, [], ◌∷◌, Bytes, Option, none, some, codes, All, Option-cases, inl, inr,
  arith, if◌then◌else◌, head_or,
}
use archspec.Report.Field.{
  init, field_default, of_value, unavailable, available, not_found, bool_default, nat_default,
  list_default, U32Field, U64Field,
}
use archspec.Report.Sound.Machine.{CpuTopologyEntryIsSound, CpuInfoIsSound}
use archspec.Report.Options.{CollectOptions}
use archspec.Host.{Files, Host}
use archspec.KeyValue.{KeyValueMap, map_value, u64_from_map, parse_colon_blocks}
use archspec.Read.{ReadResult, read_file, proc_path}
use archspec.Read.Sound.{
  IsSound, of_value-IsSound, failed-IsSound, unset-IsSound, choose-IsSound,
  read_string_field_with-IsSound,
}
use archspec.Collect.Sound.{sound_laws, choose-either}
use archspec.Collect.Sound.Machine.{string_from_map-IsSound}
use archspec.Collect.Cpu.Identity.{
  arch_name_of, AddressSizes, parse_address_sizes, found_size, first_existing_hypervisor_vendor,
  vendor_loop,
}
use archspec.Collect.Cpu.Topology.{
  Counts, u32_from_map, add_cpuinfo_topology, numa_node_of, or_from_block, topology_entry,
  topology_loop, topology_of,
}
use archspec.Collect.Cpu.{
  count_or, sockets_of, cores_per_socket_of, threads_per_core_of, is_virtualized_of, collect_cpu,
}

u64_from_map-IsSound :
    (values : KeyValueMap) (keys : List Bytes) → IsSound (u64_from_map values keys)
unfolding u64_from_map IsSound of_value unavailable available
u64_from_map-IsSound values [] = refl
u64_from_map-IsSound values (key ∷ keys) = ground (arith, u64_from_map-IsSound values keys)

found_size-IsSound : (o : Option ℕ) → IsSound (found_size o)
unfolding found_size IsSound of_value unavailable available
found_size-IsSound o = ground arith

abbrev SizesIsSound : AddressSizes → Type 0
SizesIsSound s = IsSound s.physical × IsSound s.virtual_bits

parse_address_sizes-IsSound : (block : KeyValueMap) → SizesIsSound (parse_address_sizes block)
unfolding parse_address_sizes available
parse_address_sizes-IsSound block = elim (Option-cases (map_value block (codes "address sizes"))) [
  | inl e ↦
      rw (e, parse_address_sizes)
        (failed-IsSound _ _ not_found refl, failed-IsSound _ _ not_found refl)
  | inr (text, e) ↦ rw (e, parse_address_sizes) (found_size-IsSound _, found_size-IsSound _)
]

count_or-IsSound :
    (f : U64Field) (blocks : List KeyValueMap) (threads : ℕ)
    → IsSound f
    → IsSound (count_or f blocks threads)
unfolding count_or
count_or-IsSound f blocks threads p = search (choose-IsSound, of_value-IsSound, p)

sockets_of-IsSound : (c : Counts) → IsSound (sockets_of c)
unfolding sockets_of IsSound of_value unavailable available
sockets_of-IsSound c = ground arith

cores_per_socket_of-IsSound :
    (f : U64Field) (c : Counts) → IsSound f → IsSound (cores_per_socket_of f c)
unfolding cores_per_socket_of IsSound of_value unavailable available
cores_per_socket_of-IsSound f c p = ground arith

threads_per_core_of-IsSound : (f g : U64Field) (c : Counts) → IsSound (threads_per_core_of f g c)
unfolding threads_per_core_of IsSound of_value unavailable available
threads_per_core_of-IsSound f g c = ground arith

is_virtualized_of-IsSound :
    (flags : List Bytes) (r : ReadResult) → IsSound (is_virtualized_of flags r)
unfolding is_virtualized_of IsSound of_value unavailable available
is_virtualized_of-IsSound flags r = ground arith

vendor_loop-IsSound : (h : Files) (paths : List Bytes) → IsSound (vendor_loop h paths)
unfolding vendor_loop available
vendor_loop-IsSound h [] = failed-IsSound _ _ not_found refl
vendor_loop-IsSound h (path ∷ paths) =
    choose-IsSound _ _ _ (read_string_field_with-IsSound h true path) (vendor_loop-IsSound h paths)

vendor-IsSound : (h : Files) (o : CollectOptions) → IsSound (first_existing_hypervisor_vendor h o)
unfolding first_existing_hypervisor_vendor
vendor-IsSound h o = search vendor_loop-IsSound

arch_name_of-IsSound : (h : Host) → IsSound (arch_name_of h)
unfolding arch_name_of IsSound of_value unavailable available
arch_name_of-IsSound h = ground arith

numa_node_of-IsSound : (children : List Bytes) → IsSound (numa_node_of children)
unfolding numa_node_of IsSound of_value available
numa_node_of-IsSound [] = refl
numa_node_of-IsSound (child ∷ children) = ground (arith, numa_node_of-IsSound children)

or_from_block-IsSound :
    (f : U32Field) (block : Option KeyValueMap) (key : Bytes)
    → IsSound f
    → IsSound (or_from_block f block key)
unfolding or_from_block IsSound of_value available
or_from_block-IsSound f block key p = ground arith

topology_entry-IsSound :
    (h : Files) (by_id : List (ℕ × KeyValueMap)) (id : ℕ) (path : Bytes)
    → CpuTopologyEntryIsSound (topology_entry h by_id id path)
unfolding topology_entry CpuTopologyEntryIsSound
topology_entry-IsSound h by_id id path =
    search (sound_laws, or_from_block-IsSound, numa_node_of-IsSound)

topology_loop-IsSound :
    (h : Files) (by_id : List (ℕ × KeyValueMap)) (cpus : List (ℕ × Bytes))
    → All CpuTopologyEntryIsSound (topology_loop h by_id cpus)
unfolding topology_loop
topology_loop-IsSound h by_id [] = tt
topology_loop-IsSound h by_id ((id, path) ∷ cpus) =
    (topology_entry-IsSound h by_id id path, topology_loop-IsSound h by_id cpus)

found-IsSound :
    (o : Option ℕ)
    → IsSound {A = ℕ} (elim o as (λ _. U32Field) [ none ↦ init | some n ↦ of_value n ])
found-IsSound none = unset-IsSound _ _
found-IsSound (some n) = of_value-IsSound n

add_cpuinfo_topology-IsSound :
    (blocks : List KeyValueMap) → All CpuTopologyEntryIsSound (add_cpuinfo_topology blocks)
unfolding add_cpuinfo_topology CpuTopologyEntryIsSound
add_cpuinfo_topology-IsSound [] = tt
add_cpuinfo_topology-IsSound (block ∷ blocks) =
    elim (Option-cases (u32_from_map block (codes "processor"))) [
      | inl e ↦ rw (e, add_cpuinfo_topology) (add_cpuinfo_topology-IsSound blocks)
      | inr (processor, e) ↦
          rw (e, add_cpuinfo_topology)
            (
              (
                of_value-IsSound processor,
                found-IsSound _,
                found-IsSound _,
                unset-IsSound _ _,
                unset-IsSound _ _,
                unset-IsSound _ _,
              ),
              add_cpuinfo_topology-IsSound blocks,
            )
    ]

topology_of-IsSound :
    (h : Files) (blocks : List KeyValueMap) (cpus : List (ℕ × Bytes))
    → All CpuTopologyEntryIsSound (topology_of h blocks cpus)
unfolding topology_of
topology_of-IsSound h blocks cpus =
    choose-either (All CpuTopologyEntryIsSound) _ _ _ (add_cpuinfo_topology-IsSound blocks)
      (topology_loop-IsSound h _ cpus)

-- the first block of `/proc/cpuinfo`
abbrev first_block : Host → CollectOptions → KeyValueMap
first_block h o =
    let cpuinfo = read_file h.files (proc_path o (codes "/cpuinfo")) in
    head_or (if available cpuinfo.status then parse_colon_blocks cpuinfo.value else []) []

no_vendor : IsSound {A = Bytes} (unavailable not_found)
unfolding available
no_vendor = failed-IsSound _ _ not_found refl

-- Every field for the processors and their topology has a value exactly when its status is `ok`.
pub collect_cpu-IsSound : (h : Host) (o : CollectOptions) → CpuInfoIsSound (collect_cpu h o)
unfolding collect_cpu CpuInfoIsSound
collect_cpu-IsSound h o =
    let sizes = parse_address_sizes-IsSound (first_block h o) in
    search (
      sound_laws, arch_name_of-IsSound, string_from_map-IsSound, u64_from_map-IsSound,
      count_or-IsSound, sockets_of-IsSound, cores_per_socket_of-IsSound,
      threads_per_core_of-IsSound, is_virtualized_of-IsSound, vendor-IsSound, topology_of-IsSound,
      sizes.0, sizes.1, no_vendor,
    )
