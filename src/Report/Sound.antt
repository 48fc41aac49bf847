-- ===== src/Report/Sound.antt =====
-- include/aview.hh: the structs of which every field has a value exactly when its status is `ok`.
pub mod Machine
pub mod System
use archspec.Base.{All}
use archspec.Read.Sound.{IsSound}
use archspec.Report.Os.{OsInfo}
use archspec.Report.Pci.{PciDeviceInfo, PciDeviceList}
use archspec.Report.Gpu.{GpuInfo}
use archspec.Report.Perf.{PerfCounterAvailability, PerfCounterInfo}
use archspec.Report.Block.{BlockDeviceInfo, BlockDeviceList}
use archspec.Report.Net.{NetInterfaceInfo, NetInterfaceList}
use archspec.Report.Power.{ThermalZoneInfo, ThermalInfo, PowerInfo}
use archspec.Report.Platform.{VirtualizationInfo, PlatformInfo}

unfoldable pub OsInfoIsSound : OsInfo → Type 0
OsInfoIsSound x =
    IsSound x.kernel_name
    × IsSound x.kernel_version
    × IsSound x.kernel_release
    × IsSound x.machine
    × IsSound x.hostname
    × IsSound x.distro_name
    × IsSound x.distro_version
    × IsSound x.distro_id
    × IsSound x.cmdline
    × IsSound x.page_size
    × IsSound x.word_size
    × IsSound x.endianness

unfoldable pub PciDeviceInfoIsSound : PciDeviceInfo → Type 0
PciDeviceInfoIsSound x =
    IsSound x.pci_address
    × IsSound x.vendor_id
    × IsSound x.device_id
    × IsSound x.subsystem_vendor_id
    × IsSound x.subsystem_device_id
    × IsSound x.class_id
    × IsSound x.driver
    × IsSound x.numa_node
    × IsSound x.iommu_group
    × IsSound x.resource_path

unfoldable pub PciDeviceListIsSound : PciDeviceList → Type 0
PciDeviceListIsSound x = All PciDeviceInfoIsSound x.entries

unfoldable pub GpuInfoIsSound : GpuInfo → Type 0
GpuInfoIsSound x =
    IsSound x.name
    × IsSound x.drm_card
    × IsSound x.render_node
    × IsSound x.pci_address
    × IsSound x.vendor_id
    × IsSound x.device_id
    × IsSound x.driver
    × IsSound x.vram_total_bytes
    × IsSound x.vram_used_bytes
    × IsSound x.temp_millidegree_c
    × IsSound x.power_mw
    × IsSound x.graphics_clock_mhz
    × IsSound x.memory_clock_mhz
    × IsSound x.cuda_available
    × IsSound x.cuda_compute_capability

unfoldable pub PerfCounterAvailabilityIsSound : PerfCounterAvailability → Type 0
PerfCounterAvailabilityIsSound x =
    IsSound x.cpu_cycles
    × IsSound x.instructions
    × IsSound x.cache_references
    × IsSound x.cache_misses
    × IsSound x.branch_instructions
    × IsSound x.branch_misses
    × IsSound x.bus_cycles
    × IsSound x.ref_cpu_cycles

unfoldable pub PerfCounterInfoIsSound : PerfCounterInfo → Type 0
PerfCounterInfoIsSound x =
    IsSound x.perf_event_paranoid
    × PerfCounterAvailabilityIsSound x.available
    × IsSound x.rdtsc_available
    × IsSound x.rdtscp_available
    × IsSound x.invariant_tsc

unfoldable pub BlockDeviceInfoIsSound : BlockDeviceInfo → Type 0
BlockDeviceInfoIsSound x =
    IsSound x.name
    × IsSound x.model
    × IsSound x.vendor
    × IsSound x.path
    × IsSound x.rotational
    × IsSound x.size_bytes
    × IsSound x.logical_block_size
    × IsSound x.physical_block_size
    × IsSound x.scheduler

unfoldable pub BlockDeviceListIsSound : BlockDeviceList → Type 0
BlockDeviceListIsSound x = All BlockDeviceInfoIsSound x.entries

unfoldable pub NetInterfaceInfoIsSound : NetInterfaceInfo → Type 0
NetInterfaceInfoIsSound x =
    IsSound x.name
    × IsSound x.mac_address
    × IsSound x.ipv4_addresses
    × IsSound x.ipv6_addresses
    × IsSound x.mtu
    × IsSound x.speed_mbps
    × IsSound x.duplex
    × IsSound x.carrier
    × IsSound x.driver

unfoldable pub NetInterfaceListIsSound : NetInterfaceList → Type 0
NetInterfaceListIsSound x = All NetInterfaceInfoIsSound x.entries

unfoldable pub ThermalZoneInfoIsSound : ThermalZoneInfo → Type 0
ThermalZoneInfoIsSound x = IsSound x.name × IsSound x.type × IsSound x.temp

unfoldable pub ThermalInfoIsSound : ThermalInfo → Type 0
ThermalInfoIsSound x = All ThermalZoneInfoIsSound x.entries

unfoldable pub PowerInfoIsSound : PowerInfo → Type 0
PowerInfoIsSound x =
    IsSound x.on_battery
    × IsSound x.battery_status
    × IsSound x.battery_capacity_percent
    × IsSound x.cpu_governor
    × IsSound x.cpu_current_freq_mhz
    × IsSound x.cpu_min_freq_mhz
    × IsSound x.cpu_max_freq_mhz

unfoldable pub VirtualizationInfoIsSound : VirtualizationInfo → Type 0
VirtualizationInfoIsSound x =
    IsSound x.running_under_hypervisor
    × IsSound x.hypervisor_vendor
    × IsSound x.kvm_available
    × IsSound x.dev_kvm_exists
    × IsSound x.intel_vmx_available
    × IsSound x.amd_svm_available
    × IsSound x.iommu_present

unfoldable pub PlatformInfoIsSound : PlatformInfo → Type 0
PlatformInfoIsSound x =
    IsSound x.system_vendor
    × IsSound x.product_name
    × IsSound x.product_version
    × IsSound x.board_vendor
    × IsSound x.board_name
    × IsSound x.bios_vendor
    × IsSound x.bios_version
    × IsSound x.bios_date
    × IsSound x.uefi
    × IsSound x.secure_boot
