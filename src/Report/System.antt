-- ===== src/Report/System.antt =====
-- include/aview.hh: the whole description of a system.
use archspec.Report.Field.{init}
use archspec.Report.Os.{OsInfo, os_info_default}
use archspec.Report.Cpu.{ArchType, CpuInfo, cpu_info_with}
use archspec.Report.Isa.{IsaFeatures, isa_features_default}
use archspec.Report.Cache.{CacheList, cache_list_default}
use archspec.Report.Memory.{MemoryInfo, memory_info_default}
use archspec.Report.Pci.{PciDeviceList, pci_device_list_default}
use archspec.Report.Gpu.{GpuList, gpu_list_default}
use archspec.Report.Perf.{PerfCounterInfo, perf_counter_info_default}
use archspec.Report.Block.{BlockDeviceList, block_device_list_default}
use archspec.Report.Net.{NetInterfaceList, net_interface_list_default}
use archspec.Report.Power.{ThermalInfo, thermal_info_default, PowerInfo, power_info_default}
use archspec.Report.Platform.{
  VirtualizationInfo, virtualization_info_default, PlatformInfo, platform_info_default,
}

pub record SystemInfo : Type 0 where
  pub os_info : OsInfo
  pub cpu_info : CpuInfo
  pub isa_features : IsaFeatures
  pub cache_list : CacheList
  pub memory_info : MemoryInfo
  pub pci_devices : PciDeviceList
  pub gpu_list : GpuList
  pub perf_info : PerfCounterInfo
  pub block_devices : BlockDeviceList
  pub net_interfaces : NetInterfaceList
  pub thermal_info : ThermalInfo
  pub power_info : PowerInfo
  pub virtualization_info : VirtualizationInfo
  pub platform_info : PlatformInfo

-- `SystemInfo info;`, where `CpuInfo::arch` keeps whatever the memory held.
unfoldable pub system_info_with : ArchType → SystemInfo
system_info_with arch = record {
  os_info = init;
  cpu_info = cpu_info_with arch;
  isa_features = init;
  cache_list = init;
  memory_info = init;
  pci_devices = init;
  gpu_list = init;
  perf_info = init;
  block_devices = init;
  net_interfaces = init;
  thermal_info = init;
  power_info = init;
  virtualization_info = init;
  platform_info = init;
}
