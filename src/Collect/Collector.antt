-- ===== src/Collect/Collector.antt =====
-- src/core.cc: the collection of the selected categories, and the report.
use archspec.Base.{if◌then◌else◌}
use archspec.Report.System.{SystemInfo, system_info_with}
use archspec.Report.Options.{
  CollectOptions, default_options, Report, has_category, os, cpu, isa, cache, memory, pci, gpu,
  perf, block, net, thermal, power, virtualization, platform,
}
use archspec.Host.{Host}
use archspec.Collect.Os.{collect_os}
use archspec.Collect.Cpu.{collect_cpu}
use archspec.Collect.Isa.{collect_isa}
use archspec.Collect.Cache.{collect_cache}
use archspec.Collect.Memory.{collect_memory}
use archspec.Collect.Pci.{collect_pci}
use archspec.Collect.Gpu.{collect_gpu}
use archspec.Collect.Perf.{collect_perf}
use archspec.Collect.Block.{collect_block}
use archspec.Collect.Net.{collect_net}
use archspec.Collect.Thermal.{collect_thermal}
use archspec.Collect.Power.{collect_power}
use archspec.Collect.Virtualization.{collect_virtualization}
use archspec.Collect.Platform.{collect_platform}

-- `Collector::collect`: a category that is not selected keeps its initial value.
unfoldable pub collect : Host → CollectOptions → SystemInfo
collect h o =
    let info = system_info_with h.stale_arch in
    let flags = o.categories in
    record {
      os_info = if has_category flags os then collect_os h o else info.os_info;
      cpu_info = if has_category flags cpu then collect_cpu h o else info.cpu_info;
      isa_features = if has_category flags isa then collect_isa h.files o else info.isa_features;
      cache_list = if has_category flags cache then collect_cache h.files o else info.cache_list;
      memory_info = if has_category flags memory then collect_memory h o else info.memory_info;
      pci_devices = if has_category flags pci then collect_pci h.files o else info.pci_devices;
      gpu_list = if has_category flags gpu then collect_gpu h.files o else info.gpu_list;
      perf_info = if has_category flags perf then collect_perf h o else info.perf_info;
      block_devices =
          if has_category flags block then collect_block h.files o else info.block_devices;
      net_interfaces = if has_category flags net then collect_net h o else info.net_interfaces;
      thermal_info =
          if has_category flags thermal then collect_thermal h.files o else info.thermal_info;
      power_info = if has_category flags power then collect_power h.files o else info.power_info;
      virtualization_info =
          if has_category flags virtualization
          then collect_virtualization h.files o
          else info.virtualization_info;
      platform_info =
          if has_category flags platform then collect_platform h.files o else info.platform_info;
    }

unfoldable pub collect_report : Host → CollectOptions → Report
collect_report h o = record { categories = o.categories; system = collect h o }

-- `class Collector`, which keeps its options
pub record Collector : Type 0 where
  pub options : CollectOptions

-- `Collector()`
abbrev pub default_collector : Collector
default_collector = record { options = default_options }

-- `Collector(options)`
unfoldable pub collector_with : CollectOptions → Collector
collector_with o = record { options = o }

-- `Collector::set_options`
unfoldable pub set_options : CollectOptions → Collector → Collector
set_options o c = record c { options = o }

-- `collect_system`
unfoldable pub collect_system : Host → SystemInfo
collect_system h = collect h default_collector.options

unfoldable pub collect_system_with : Host → CollectOptions → SystemInfo
collect_system_with h o = collect h (collector_with o).options

-- `collect_report` without options
unfoldable pub collect_default_report : Host → Report
collect_default_report h = collect_report h default_options
