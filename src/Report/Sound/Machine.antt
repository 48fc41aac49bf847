-- ===== src/Report/Sound/Machine.antt =====
-- include/aview.hh: the same for the processors, their features, the caches, the memory and the
-- graphics cards.
use archspec.Base.{All}
use archspec.Read.Sound.{IsSound}
use archspec.Report.Sound.{GpuInfoIsSound}
use archspec.Report.Cpu.{CpuTopologyEntry, CpuInfo}
use archspec.Report.Isa.{IsaFeatures}
use archspec.Report.Cache.{CacheInfo, CacheList}
use archspec.Report.Memory.{NumaNodeInfo, MemoryInfo}
use archspec.Report.Gpu.{GpuList}

unfoldable pub CpuTopologyEntryIsSound : CpuTopologyEntry → Type 0
CpuTopologyEntryIsSound x =
    IsSound x.logical_id
    × IsSound x.core_id
    × IsSound x.package_id
    × IsSound x.numa_node
    × IsSound x.thread_siblings_mask
    × IsSound x.core_siblings_mask

unfoldable pub CpuInfoIsSound : CpuInfo → Type 0
CpuInfoIsSound x =
    IsSound x.arch_name
    × IsSound x.vendor
    × IsSound x.brand
    × IsSound x.model_name
    × IsSound x.present_cpu_count
    × IsSound x.online_cpu_count
    × IsSound x.possible_cpu_count
    × IsSound x.sockets
    × IsSound x.cores_per_socket
    × IsSound x.threads_per_core
    × IsSound x.family
    × IsSound x.model
    × IsSound x.stepping
    × IsSound x.microcode
    × IsSound x.physical_address_bits
    × IsSound x.virtual_address_bits
    × IsSound x.is_virtualized
    × IsSound x.hypervisor_vendor
    × All CpuTopologyEntryIsSound x.topology

unfoldable pub IsaFeaturesIsSound : IsaFeatures → Type 0
IsaFeaturesIsSound x =
    IsSound x.x86_fpu
    × IsSound x.x86_mmx
    × IsSound x.x86_sse
    × IsSound x.x86_sse2
    × IsSound x.x86_sse3
    × IsSound x.x86_ssse3
    × IsSound x.x86_sse41
    × IsSound x.x86_sse42
    × IsSound x.x86_avx
    × IsSound x.x86_avx2
    × IsSound x.x86_avx512f
    × IsSound x.x86_avx512dq
    × IsSound x.x86_avx512cd
    × IsSound x.x86_avx512bw
    × IsSound x.x86_avx512vl
    × IsSound x.x86_aes
    × IsSound x.x86_sha
    × IsSound x.x86_pclmulqdq
    × IsSound x.x86_rdrand
    × IsSound x.x86_rdseed
    × IsSound x.x86_xsave
    × IsSound x.x86_xsaveopt
    × IsSound x.x86_xsavec
    × IsSound x.x86_vmx
    × IsSound x.x86_ept
    × IsSound x.x86_svm
    × IsSound x.x86_npt
    × IsSound x.x86_tsc
    × IsSound x.x86_constant_tsc
    × IsSound x.x86_nonstop_tsc
    × IsSound x.x86_rdtscp
    × IsSound x.arm_neon
    × IsSound x.arm_asimd
    × IsSound x.arm_sve
    × IsSound x.arm_sve2
    × IsSound x.arm_aes
    × IsSound x.arm_sha1
    × IsSound x.arm_sha2
    × IsSound x.arm_crc32
    × IsSound x.arm_pauth
    × IsSound x.riscv_i
    × IsSound x.riscv_m
    × IsSound x.riscv_a
    × IsSound x.riscv_f
    × IsSound x.riscv_d
    × IsSound x.riscv_c
    × IsSound x.riscv_v
    × IsSound x.riscv_h
    × IsSound x.raw_flags

unfoldable pub CacheInfoIsSound : CacheInfo → Type 0
CacheInfoIsSound x =
    IsSound x.cpu_id
    × IsSound x.level
    × IsSound x.size
    × IsSound x.line_size
    × IsSound x.associativity
    × IsSound x.sets
    × IsSound x.shared_cpu_list

unfoldable pub CacheListIsSound : CacheList → Type 0
CacheListIsSound x = All CacheInfoIsSound x.entries

unfoldable pub NumaNodeInfoIsSound : NumaNodeInfo → Type 0
NumaNodeInfoIsSound x =
    IsSound x.node_id × IsSound x.total_kb × IsSound x.free_kb × IsSound x.cpu_list

unfoldable pub MemoryInfoIsSound : MemoryInfo → Type 0
MemoryInfoIsSound x =
    IsSound x.total_kb
    × IsSound x.free_kb
    × IsSound x.available_kb
    × IsSound x.buffers_kb
    × IsSound x.cached_kb
    × IsSound x.swap_total_kb
    × IsSound x.swap_free_kb
    × IsSound x.page_size_bytes
    × IsSound x.hugepage_size_kb
    × IsSound x.hugepages_total
    × IsSound x.hugepages_free
    × IsSound x.transparent_hugepages_enabled
    × All NumaNodeInfoIsSound x.numa_nodes

unfoldable pub GpuListIsSound : GpuList → Type 0
GpuListIsSound x = All GpuInfoIsSound x.entries
