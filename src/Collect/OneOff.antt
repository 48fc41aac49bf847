-- ===== src/Collect/OneOff.antt =====
-- src/*.cc: the functions that collect one part with the default options.
use archspec.Host.{Host}
use archspec.Report.Os.{OsInfo}
use archspec.Report.Cpu.{CpuInfo}
use archspec.Report.Isa.{IsaFeatures}
use archspec.Report.Cache.{CacheList}
use archspec.Report.Memory.{MemoryInfo}
use archspec.Report.Pci.{PciDeviceList}
use archspec.Report.Gpu.{GpuList}
use archspec.Report.Perf.{PerfCounterInfo}
use archspec.Report.Block.{BlockDeviceList}
use archspec.Report.Net.{NetInterfaceList}
use archspec.Report.Power.{ThermalInfo, PowerInfo}
use archspec.Report.Platform.{VirtualizationInfo, PlatformInfo}
use archspec.Collect.Os.{collect_os}
use archspec.Collect.Cpu.{collect_cpu}
use archspec.Collect.Isa.{collect_isa}
use archspec.Collect.Cache.{collect_cache}
use archspec.Collect.Memory.{collect_memory}
use archspec.Collect.Pci.{collect_pci}
use archspec.Collect.Gpu.{collect_gpu}
use archspec.Collect.Perf.{collect_perf}
use archspec.Collect.Block.{collect_block}
use archspec.Collect.Net.{collect_net}
use archspec.Collect.Thermal.{collect_thermal}
use archspec.Collect.Power.{collect_power}
use archspec.Collect.Virtualization.{collect_virtualization}
use archspec.Collect.Platform.{collect_platform}
use archspec.Collect.Collector.{default_collector}

unfoldable pub one_off_os : Host → OsInfo
one_off_os h = collect_os h default_collector.options

unfoldable pub one_off_cpu : Host → CpuInfo
one_off_cpu h = collect_cpu h default_collector.options

unfoldable pub one_off_isa : Host → IsaFeatures
one_off_isa h = collect_isa h.files default_collector.options

unfoldable pub one_off_cache : Host → CacheList
one_off_cache h = collect_cache h.files default_collector.options

unfoldable pub one_off_memory : Host → MemoryInfo
one_off_memory h = collect_memory h default_collector.options

unfoldable pub one_off_pci : Host → PciDeviceList
one_off_pci h = collect_pci h.files default_collector.options

unfoldable pub one_off_gpu : Host → GpuList
one_off_gpu h = collect_gpu h.files default_collector.options

unfoldable pub one_off_perf : Host → PerfCounterInfo
one_off_perf h = collect_perf h default_collector.options

unfoldable pub one_off_block : Host → BlockDeviceList
one_off_block h = collect_block h.files default_collector.options

unfoldable pub one_off_net : Host → NetInterfaceList
one_off_net h = collect_net h default_collector.options

unfoldable pub one_off_thermal : Host → ThermalInfo
one_off_thermal h = collect_thermal h.files default_collector.options

unfoldable pub one_off_power : Host → PowerInfo
one_off_power h = collect_power h.files default_collector.options

unfoldable pub one_off_virtualization : Host → VirtualizationInfo
one_off_virtualization h = collect_virtualization h.files default_collector.options

unfoldable pub one_off_platform : Host → PlatformInfo
one_off_platform h = collect_platform h.files default_collector.options
