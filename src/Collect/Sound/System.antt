-- ===== src/Collect/Sound/System.antt =====
-- src/core.cc: the collected system and its initial values.
use archspec.Report.Field.{
  init, field_default, bool_default, nat_default, int_default, list_default,
}
use archspec.Report.Os.{os_info_default}
use archspec.Report.Cpu.{cpu_info_with, ArchType}
use archspec.Report.Isa.{isa_features_default}
use archspec.Report.Cache.{cache_list_default}
use archspec.Report.Memory.{memory_info_default}
use archspec.Report.Pci.{pci_device_list_default}
use archspec.Report.Gpu.{gpu_list_default}
use archspec.Report.Perf.{perf_counter_info_default, perf_counter_availability_default}
use archspec.Report.Block.{block_device_list_default}
use archspec.Report.Net.{net_interface_list_default}
use archspec.Report.Power.{thermal_info_default, power_info_default}
use archspec.Report.Platform.{virtualization_info_default, platform_info_default}
use archspec.Report.System.{system_info_with}
use archspec.Report.Sound.{
  OsInfoIsSound, PciDeviceListIsSound, PerfCounterInfoIsSound, BlockDeviceListIsSound,
  NetInterfaceListIsSound, ThermalInfoIsSound, PowerInfoIsSound, VirtualizationInfoIsSound,
  PlatformInfoIsSound, PerfCounterAvailabilityIsSound,
}
use archspec.Report.Sound.Machine.{
  CpuInfoIsSound, IsaFeaturesIsSound, CacheListIsSound, MemoryInfoIsSound, GpuListIsSound,
}
use archspec.Report.Sound.System.{SystemInfoIsSound}
use archspec.Report.Options.{CollectOptions}
use archspec.Host.{Host}
use archspec.Read.Sound.{unset-IsSound}
use archspec.Collect.Collector.{collect}
use archspec.Collect.Sound.{choose-either}
use archspec.Collect.Sound.Machine.{
  collect_os-IsSound, collect_perf-IsSound, collect_virtualization-IsSound,
  collect_platform-IsSound, collect_power-IsSound,
}
use archspec.Collect.Sound.Devices.{
  collect_thermal-IsSound, collect_pci-IsSound, collect_block-IsSound, collect_net-IsSound,
}
use archspec.Collect.Sound.Isa.{collect_isa-IsSound}
use archspec.Collect.Sound.Lists.{
  collect_memory-IsSound, collect_cache-IsSound, collect_gpu-IsSound,
}
use archspec.Collect.Sound.Cpu.{collect_cpu-IsSound}

os_info_default-IsSound : OsInfoIsSound (init ⦃d = os_info_default⦄)
unfolding os_info_default OsInfoIsSound
os_info_default-IsSound = search unset-IsSound

cpu_info_with-IsSound : (arch : ArchType) → CpuInfoIsSound (cpu_info_with arch)
unfolding cpu_info_with CpuInfoIsSound
cpu_info_with-IsSound arch = search unset-IsSound

isa_features_default-IsSound : IsaFeaturesIsSound (init ⦃d = isa_features_default⦄)
unfolding isa_features_default IsaFeaturesIsSound
isa_features_default-IsSound = search unset-IsSound

cache_list_default-IsSound : CacheListIsSound (init ⦃d = cache_list_default⦄)
unfolding cache_list_default CacheListIsSound
cache_list_default-IsSound = tt

memory_info_default-IsSound : MemoryInfoIsSound (init ⦃d = memory_info_default⦄)
unfolding memory_info_default MemoryInfoIsSound
memory_info_default-IsSound = search unset-IsSound

pci_device_list_default-IsSound : PciDeviceListIsSound (init ⦃d = pci_device_list_default⦄)
unfolding pci_device_list_default PciDeviceListIsSound
pci_device_list_default-IsSound = tt

gpu_list_default-IsSound : GpuListIsSound (init ⦃d = gpu_list_default⦄)
unfolding gpu_list_default GpuListIsSound
gpu_list_default-IsSound = tt

perf_counter_info_default-IsSound : PerfCounterInfoIsSound (init ⦃d = perf_counter_info_default⦄)
unfolding perf_counter_info_default perf_counter_availability_default PerfCounterAvailabilityIsSound
    PerfCounterInfoIsSound
perf_counter_info_default-IsSound = search unset-IsSound

block_device_list_default-IsSound : BlockDeviceListIsSound (init ⦃d = block_device_list_default⦄)
unfolding block_device_list_default BlockDeviceListIsSound
block_device_list_default-IsSound = tt

net_interface_list_default-IsSound : NetInterfaceListIsSound (init ⦃d = net_interface_list_default⦄)
unfolding net_interface_list_default NetInterfaceListIsSound
net_interface_list_default-IsSound = tt

thermal_info_default-IsSound : ThermalInfoIsSound (init ⦃d = thermal_info_default⦄)
unfolding thermal_info_default ThermalInfoIsSound
thermal_info_default-IsSound = tt

power_info_default-IsSound : PowerInfoIsSound (init ⦃d = power_info_default⦄)
unfolding power_info_default PowerInfoIsSound
power_info_default-IsSound = search unset-IsSound

virtualization_info_default-IsSound :
    VirtualizationInfoIsSound (init ⦃d = virtualization_info_default⦄)
unfolding virtualization_info_default VirtualizationInfoIsSound
virtualization_info_default-IsSound = search unset-IsSound

platform_info_default-IsSound : PlatformInfoIsSound (init ⦃d = platform_info_default⦄)
unfolding platform_info_default PlatformInfoIsSound
platform_info_default-IsSound = search unset-IsSound

ruleset initial_laws = (
  os_info_default-IsSound, cpu_info_with-IsSound, isa_features_default-IsSound,
  cache_list_default-IsSound, memory_info_default-IsSound, pci_device_list_default-IsSound,
  gpu_list_default-IsSound, perf_counter_info_default-IsSound, block_device_list_default-IsSound,
  net_interface_list_default-IsSound, thermal_info_default-IsSound, power_info_default-IsSound,
  virtualization_info_default-IsSound, platform_info_default-IsSound,
)

system_info_with-IsSound : (arch : ArchType) → SystemInfoIsSound (system_info_with arch)
unfolding system_info_with SystemInfoIsSound
system_info_with-IsSound arch = search initial_laws

-- In a collected system, whatever the categories and the options, every field has a value exactly
-- when its status is `ok`.
pub collect-IsSound : (h : Host) (o : CollectOptions) → SystemInfoIsSound (collect h o)
unfolding collect system_info_with SystemInfoIsSound
collect-IsSound h o = (
  choose-either OsInfoIsSound _ _ _ (collect_os-IsSound h o) (os_info_default-IsSound),
  choose-either CpuInfoIsSound _ _ _ (collect_cpu-IsSound h o) (cpu_info_with-IsSound _),
  choose-either IsaFeaturesIsSound _ _ _ (collect_isa-IsSound h.files o)
      (isa_features_default-IsSound),
  choose-either CacheListIsSound _ _ _ (collect_cache-IsSound h.files o)
      (cache_list_default-IsSound),
  choose-either MemoryInfoIsSound _ _ _ (collect_memory-IsSound h o) (memory_info_default-IsSound),
  choose-either PciDeviceListIsSound _ _ _ (collect_pci-IsSound h.files o)
      (pci_device_list_default-IsSound),
  choose-either GpuListIsSound _ _ _ (collect_gpu-IsSound h.files o) (gpu_list_default-IsSound),
  choose-either PerfCounterInfoIsSound _ _ _ (collect_perf-IsSound h o)
      (perf_counter_info_default-IsSound),
  choose-either BlockDeviceListIsSound _ _ _ (collect_block-IsSound h.files o)
      (block_device_list_default-IsSound),
  choose-either NetInterfaceListIsSound _ _ _ (collect_net-IsSound h o)
      (net_interface_list_default-IsSound),
  choose-either ThermalInfoIsSound _ _ _ (collect_thermal-IsSound h.files o)
      (thermal_info_default-IsSound),
  choose-either PowerInfoIsSound _ _ _ (collect_power-IsSound h.files o)
      (power_info_default-IsSound),
  choose-either VirtualizationInfoIsSound _ _ _ (collect_virtualization-IsSound h.files o)
      (virtualization_info_default-IsSound),
  choose-either PlatformInfoIsSound _ _ _ (collect_platform-IsSound h.files o)
      (platform_info_default-IsSound),
)
