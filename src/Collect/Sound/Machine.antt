-- ===== src/Collect/Sound/Machine.antt =====
-- src/os.cc, src/perf.cc, src/virtualization.cc, src/platform.cc and src/power.cc.
use archspec.Base.{
  ◌≡◌, refl, ℕ, ℤ, pos, negsuc, Bool, true, false, ◌||◌, List, [], ◌∷◌, Bytes, codes, Bool-cases,
  inl, inr, arith, if◌then◌else◌,
}
use archspec.Text.{join_path}
use archspec.Report.Field.{
  Status, not_found, of_value, unavailable, available, BoolField, bool_default, nat_default,
  list_default, field_default,
}
use archspec.Report.Sound.{
  OsInfoIsSound, PlatformInfoIsSound, PerfCounterInfoIsSound, PerfCounterAvailabilityIsSound,
  VirtualizationInfoIsSound, PowerInfoIsSound,
}
use archspec.Report.Options.{CollectOptions}
use archspec.Host.{Files, Host, Uname}
use archspec.KeyValue.{KeyValueMap, string_from_map}
use archspec.Read.{ReadResult, sys_path, list_dir, read_u64_field, read_file, field_of}
use archspec.Read.Sound.{
  IsSound, of_value-IsSound, choose-IsSound, failed-IsSound, unset-IsSound,
  read_string_field_with-IsSound, read_scaled_u64_field-IsSound,
}
use archspec.Collect.Sound.{keep_status-fails, redact-IsSound, sound_laws}
use archspec.Collect.CpuFlags.{CpuFlags, bool_from_flag, any_flag}
use archspec.Collect.Os.{uname_field, page_size_field, os_release_field, collect_os}
use archspec.Collect.Perf.{
  flag_field, any_flag_field, probe_result, x86_field, probe_hardware_counter,
  hardware_counter_availability, collect_perf,
}
use archspec.Collect.Virtualization.{
  x86_feature, vendor_loop, detected_hypervisor_vendor, iommu_present, collect_virtualization,
}
use archspec.Collect.Power.{
  keep_status, khz_loop, read_khz_as_mhz, Supplies, no_supplies, supply_step, supply_loop,
  on_battery_of, collect_power,
}
use archspec.Collect.Platform.{
  secure_boot_flag, secure_boot_loop, collect_secure_boot, collect_platform,
}

uname_field-IsSound : (h : Host) (part : Uname → Bytes) → IsSound (uname_field h part)
unfolding uname_field IsSound of_value unavailable available
uname_field-IsSound h part = ground arith

pub page_size_field-IsSound : (n : ℤ) → IsSound (page_size_field n)
unfolding page_size_field IsSound of_value unavailable available
page_size_field-IsSound (pos n) = ground arith
page_size_field-IsSound (negsuc n) = refl

pub string_from_map-IsSound :
    (values : KeyValueMap) (keys : List Bytes) → IsSound (string_from_map values keys)
unfolding string_from_map IsSound of_value unavailable available
string_from_map-IsSound values [] = refl
string_from_map-IsSound values (key ∷ keys) = ground (arith, string_from_map-IsSound values keys)

os_release_field-IsSound : (r : ReadResult) (keys : List Bytes) → IsSound (os_release_field r keys)
unfolding os_release_field IsSound unavailable
os_release_field-IsSound r keys = elim (Bool-cases (available r.status)) [
  | inl e ↦ rw e (string_from_map-IsSound _ keys)
  | inr e ↦ rw e (failed-IsSound Bytes list_default r.status e)
]

-- Every field for the operating system has a value exactly when its status is `ok`.
pub collect_os-IsSound : (h : Host) (o : CollectOptions) → OsInfoIsSound (collect_os h o)
unfolding collect_os OsInfoIsSound
collect_os-IsSound h o = search (
  sound_laws, uname_field-IsSound, page_size_field-IsSound, os_release_field-IsSound,
  redact-IsSound,
)

flag_field-IsSound : (r : CpuFlags) (name : Bytes) → IsSound (flag_field r name)
unfolding flag_field bool_from_flag IsSound of_value unavailable available
flag_field-IsSound r name = ground arith

any_flag_field-IsSound : (r : CpuFlags) (names : List Bytes) → IsSound (any_flag_field r names)
unfolding any_flag_field any_flag IsSound of_value unavailable available
any_flag_field-IsSound r names = ground arith

x86_field-IsSound : (r : CpuFlags) (f : BoolField) → IsSound f → IsSound (x86_field r f)
unfolding x86_field IsSound unavailable available
x86_field-IsSound r f p = ground arith

probe-IsSound :
    (h : Host) (config : ℕ) (allow : Bool) → IsSound (probe_hardware_counter h config allow)
unfolding probe_hardware_counter probe_result IsSound of_value unavailable available
probe-IsSound h config allow = ground arith

-- Every field for the performance counters has a value exactly when its status is `ok`.
pub collect_perf-IsSound :
    (h : Host) (o : CollectOptions) → PerfCounterInfoIsSound (collect_perf h o)
unfolding collect_perf PerfCounterInfoIsSound PerfCounterAvailabilityIsSound
    hardware_counter_availability
collect_perf-IsSound h o =
    search
      (sound_laws, flag_field-IsSound, any_flag_field-IsSound, x86_field-IsSound, probe-IsSound)

x86_feature-IsSound : (r : CpuFlags) (name : Bytes) → IsSound (x86_feature r name)
unfolding x86_feature bool_from_flag IsSound of_value unavailable available
x86_feature-IsSound r name = ground arith

vendor_loop-IsSound : (h : Files) (paths : List Bytes) → IsSound (vendor_loop h paths)
unfolding vendor_loop available
vendor_loop-IsSound h [] = failed-IsSound _ _ not_found refl
vendor_loop-IsSound h (path ∷ paths) =
    choose-IsSound _ _ _ (read_string_field_with-IsSound h true path) (vendor_loop-IsSound h paths)

vendor-IsSound : (h : Files) (o : CollectOptions) → IsSound (detected_hypervisor_vendor h o)
unfolding detected_hypervisor_vendor
vendor-IsSound h o = search vendor_loop-IsSound

iommu_present-IsSound : (h : Files) (o : CollectOptions) → IsSound (iommu_present h o)
unfolding iommu_present IsSound of_value unavailable available
iommu_present-IsSound h o = ground arith

running-IsSound :
    (s : Status) (valid b : Bool)
    → IsSound (if available s || valid then of_value b else unavailable s)
unfolding IsSound of_value unavailable available
running-IsSound s valid b = ground arith

-- Every field for virtualization has a value exactly when its status is `ok`.
pub collect_virtualization-IsSound :
    (h : Files) (o : CollectOptions) → VirtualizationInfoIsSound (collect_virtualization h o)
unfolding collect_virtualization VirtualizationInfoIsSound
collect_virtualization-IsSound h o =
    search (
      of_value-IsSound, x86_feature-IsSound, vendor-IsSound, iommu_present-IsSound, running-IsSound,
    )

secure_boot_flag-IsSound : (content : Bytes) → IsSound (secure_boot_flag content)
unfolding secure_boot_flag IsSound of_value unavailable available
secure_boot_flag-IsSound content = ground arith

secure_boot_loop-IsSound :
    (h : Files) (efivars : Bytes) (names : List Bytes) → IsSound (secure_boot_loop h efivars names)
unfolding secure_boot_loop field_of IsSound unavailable available
secure_boot_loop-IsSound h efivars [] = refl
secure_boot_loop-IsSound h efivars (name ∷ names) = ground (
  arith,
  secure_boot_loop-IsSound h efivars names,
  secure_boot_flag-IsSound (read_file h (join_path efivars name)).value,
)

collect_secure_boot-IsSound : (h : Files) (o : CollectOptions) → IsSound (collect_secure_boot h o)
unfolding collect_secure_boot
collect_secure_boot-IsSound h o = search secure_boot_loop-IsSound

-- Every field for the platform has a value exactly when its status is `ok`.
pub collect_platform-IsSound :
    (h : Files) (o : CollectOptions) → PlatformInfoIsSound (collect_platform h o)
unfolding collect_platform PlatformInfoIsSound available
collect_platform-IsSound h o = search (sound_laws, collect_secure_boot-IsSound)

khz_loop-IsSound :
    (h : Files) (last : Status) (paths : List Bytes)
    → available last ≡ false
    → IsSound (khz_loop h last paths)
unfolding khz_loop IsSound of_value unavailable available
khz_loop-IsSound h last [] p = ground arith
khz_loop-IsSound h last (path ∷ paths) p =
    let here = read_scaled_u64_field-IsSound h 1 path in
    elim (Bool-cases (read_u64_field h path).valid) [
      | inl e ↦ rw (e, khz_loop) refl
      | inr e ↦
          rw (e, khz_loop)
            (khz_loop-IsSound h (keep_status last (read_u64_field h path).status) paths
              (keep_status-fails last _ p (ground arith)))
    ]

read_khz_as_mhz-IsSound : (h : Files) (paths : List Bytes) → IsSound (read_khz_as_mhz h paths)
unfolding read_khz_as_mhz available
read_khz_as_mhz-IsSound h paths = khz_loop-IsSound h not_found paths refl

-- The battery's fields stay sound through the loop.
abbrev SuppliesIsSound : Supplies → Type 0
SuppliesIsSound s = IsSound s.battery_status × IsSound s.battery_capacity_percent

supply_step-IsSound :
    (h : Files) (path : Bytes) (s : Supplies)
    → SuppliesIsSound s
    → SuppliesIsSound (supply_step h path s)
unfolding supply_step IsSound
supply_step-IsSound h path s (p, q) = ground (
  arith,
  read_string_field_with-IsSound h true (join_path path (codes "status")),
  read_scaled_u64_field-IsSound h 1 (join_path path (codes "capacity")),
)

supply_loop-IsSound :
    (h : Files) (root : Bytes) (names : List Bytes) (s : Supplies)
    → SuppliesIsSound s
    → SuppliesIsSound (supply_loop h root names s)
unfolding supply_loop
supply_loop-IsSound h root [] s p = p
supply_loop-IsSound h root (name ∷ names) s p =
    supply_loop-IsSound h root names _ (supply_step-IsSound h _ s p)

on_battery_of-IsSound : (s : Supplies) → IsSound (on_battery_of s)
unfolding on_battery_of IsSound of_value unavailable available
on_battery_of-IsSound s = ground arith

-- Every field for the power supplies has a value exactly when its status is `ok`.
pub collect_power-IsSound : (h : Files) (o : CollectOptions) → PowerInfoIsSound (collect_power h o)
unfolding collect_power PowerInfoIsSound
collect_power-IsSound h o =
    let root = sys_path o (codes "/class/power_supply") in
    let p =
      supply_loop-IsSound h root (list_dir h root) no_supplies
        (unset-IsSound _ _, unset-IsSound _ _) in
    search (sound_laws, p.0, p.1, on_battery_of-IsSound, read_khz_as_mhz-IsSound)
