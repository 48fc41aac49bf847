-- ===== src/Report/Sound/System.antt =====
-- include/aview.hh: a whole system of which every field has a value exactly when its status is `ok`.
use archspec.Report.System.{SystemInfo}
use archspec.Report.Sound.{
  OsInfoIsSound, PciDeviceListIsSound, PerfCounterInfoIsSound, BlockDeviceListIsSound,
  NetInterfaceListIsSound, ThermalInfoIsSound, PowerInfoIsSound, VirtualizationInfoIsSound,
  PlatformInfoIsSound,
}
use archspec.Report.Sound.Machine.{
  CpuInfoIsSound, IsaFeaturesIsSound, CacheListIsSound, MemoryInfoIsSound, GpuListIsSound,
}

unfoldable pub SystemInfoIsSound : SystemInfo → Type 0
SystemInfoIsSound x =
    OsInfoIsSound x.os_info
    × CpuInfoIsSound x.cpu_info
    × IsaFeaturesIsSound x.isa_features
    × CacheListIsSound x.cache_list
    × MemoryInfoIsSound x.memory_info
    × PciDeviceListIsSound x.pci_devices
    × GpuListIsSound x.gpu_list
    × PerfCounterInfoIsSound x.perf_info
    × BlockDeviceListIsSound x.block_devices
    × NetInterfaceListIsSound x.net_interfaces
    × ThermalInfoIsSound x.thermal_info
    × PowerInfoIsSound x.power_info
    × VirtualizationInfoIsSound x.virtualization_info
    × PlatformInfoIsSound x.platform_info
