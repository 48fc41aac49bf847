-- ===== src/Collect/Sound/Devices.antt =====
-- src/thermal.cc, src/pci.cc, src/block.cc, src/net.cc, src/cache.cc and src/gpu.cc.
use archspec.Collect.Power.{keep_status}
use archspec.Collect.Gpu.{
  first_u64_loop, first_u64_file, hwmon_step, hwmon_loop, gpu_from_pci, Hwmon, cuda_of,
}
use archspec.Collect.Net.{
  InterfaceAddresses, Addresses, address_field, speed_of, net_interface, net_interfaces,
  collect_net,
}
use archspec.Read.{read_u64_field, list_dir}
use archspec.Text.{join_path}
use archspec.Base.Dict.{Dict, lookup}
use archspec.Report.Gpu.{GpuVendor}
use archspec.Base.{
  Option, none, some, codes, ℤ, pos, negsuc, ◌≡◌, refl, false, List, [], ◌∷◌, Bytes, All,
  Bool-cases, inl, inr, arith,
}
use archspec.Report.Field.{
  init, field_default, Status, not_found, I64Field, StringField, Field, of_value, unavailable,
  available, bool_default, nat_default, list_default,
}
use archspec.Report.Sound.{
  GpuInfoIsSound, ThermalZoneInfoIsSound, ThermalInfoIsSound, PciDeviceInfoIsSound,
  PciDeviceListIsSound, BlockDeviceInfoIsSound, BlockDeviceListIsSound, NetInterfaceInfoIsSound,
  NetInterfaceListIsSound,
}
use archspec.Report.Options.{CollectOptions}
use archspec.Host.{Files, Host}
use archspec.Collect.Sound.{keep_status-fails, redact-IsSound, sound_laws, keep-All, skip-All}
use archspec.Read.Sound.{
  IsSound, of_value-IsSound, failed-IsSound, unset-IsSound, read_scaled_u64_field-IsSound,
}
use archspec.Collect.Thermal.{thermal_zone, thermal_zones, collect_thermal}
use archspec.Collect.Pci.{pci_device, pci_device_entries, collect_pci}
use archspec.Collect.Block.{
  bool_number, read_bool_number, block_device, block_devices, collect_block,
}

fails : {A : Type 0} (f : Field A) → IsSound f → f.valid ≡ false → available f.status ≡ false
unfolding IsSound
fails f p e = ground arith

module _ (h : Files) where
  first_u64_loop-IsSound :
      (last : Status) (paths : List Bytes)
      → available last ≡ false
      → IsSound (first_u64_loop h last paths)
  unfolding first_u64_loop
  first_u64_loop-IsSound last [] p = failed-IsSound _ _ last p
  first_u64_loop-IsSound last (path ∷ paths) p =
      let here = read_scaled_u64_field-IsSound h 1 path in
      elim (Bool-cases (read_u64_field h path).valid) [
        | inl e ↦ rw (e, first_u64_loop) here
        | inr e ↦
            rw (e, first_u64_loop)
              (first_u64_loop-IsSound (keep_status last (read_u64_field h path).status) paths
                (keep_status-fails last _ p (fails (read_u64_field h path) here e)))
      ]

  thermal_zone-IsSound : (root name : Bytes) → ThermalZoneInfoIsSound (thermal_zone h root name)
  unfolding thermal_zone ThermalZoneInfoIsSound
  thermal_zone-IsSound root name = search sound_laws

  thermal_zones-IsSound :
      (root : Bytes) (names : List Bytes) → All ThermalZoneInfoIsSound (thermal_zones h root names)
  unfolding thermal_zones
  thermal_zones-IsSound root [] = tt
  thermal_zones-IsSound root (name ∷ names) =
      let rest = thermal_zones-IsSound root names in
      keep-All _ _ _ _ (thermal_zone-IsSound root name) rest

  -- Every field of every thermal zone has a value exactly when its status is `ok`.
  pub collect_thermal-IsSound : (o : CollectOptions) → ThermalInfoIsSound (collect_thermal h o)
  unfolding collect_thermal ThermalInfoIsSound
  collect_thermal-IsSound o = thermal_zones-IsSound _ _

  pci_device-IsSound : (path address : Bytes) → PciDeviceInfoIsSound (pci_device h path address)
  unfolding pci_device PciDeviceInfoIsSound available
  pci_device-IsSound path address = search sound_laws

  pci_device_entries-IsSound :
      (root : Bytes) (names : List Bytes)
      → All PciDeviceInfoIsSound (pci_device_entries h root names)
  unfolding pci_device_entries
  pci_device_entries-IsSound root [] = tt
  pci_device_entries-IsSound root (name ∷ names) =
      let rest = pci_device_entries-IsSound root names in
      skip-All _ _ _ _ (pci_device-IsSound _ name) rest

  -- Every field of every PCI device has a value exactly when its status is `ok`.
  pub collect_pci-IsSound : (o : CollectOptions) → PciDeviceListIsSound (collect_pci h o)
  unfolding collect_pci PciDeviceListIsSound
  collect_pci-IsSound o = pci_device_entries-IsSound _ _

  read_bool_number-IsSound : (path : Bytes) → IsSound (read_bool_number h path)
  unfolding read_bool_number bool_number IsSound of_value unavailable available
  read_bool_number-IsSound path = ground (arith, read_scaled_u64_field-IsSound h 1 path)

  block_device-IsSound :
      (o : CollectOptions) (path name : Bytes) → BlockDeviceInfoIsSound (block_device h o path name)
  unfolding block_device BlockDeviceInfoIsSound
  block_device-IsSound o path name = search (sound_laws, read_bool_number-IsSound)

  block_devices-IsSound :
      (o : CollectOptions) (root : Bytes) (names : List Bytes)
      → All BlockDeviceInfoIsSound (block_devices h o root names)
  unfolding block_devices
  block_devices-IsSound o root [] = tt
  block_devices-IsSound o root (name ∷ names) =
      let rest = block_devices-IsSound o root names in
      skip-All _ _ _ _ (block_device-IsSound o _ name) rest

  -- Every field of every block device has a value exactly when its status is `ok`.
  pub collect_block-IsSound : (o : CollectOptions) → BlockDeviceListIsSound (collect_block h o)
  unfolding collect_block BlockDeviceListIsSound
  collect_block-IsSound o = block_devices-IsSound o _ _

  speed_of-IsSound : (f : I64Field) → IsSound f → IsSound (speed_of f)
  unfolding speed_of IsSound of_value unavailable available
  speed_of-IsSound f p = elim (Bool-cases f.valid) [
    | inr e ↦ ground arith
    | inl e ↦ rw e (number f.value)
  ]
    where
      number : (n : ℤ) → IsSound (speed_of (of_value n))
      number (pos n) = refl
      number (negsuc n) = refl

  address_field-IsSound :
      (part : InterfaceAddresses → List Bytes) (a : Option InterfaceAddresses)
      → IsSound (address_field part a)
  unfolding address_field IsSound of_value unavailable available
  address_field-IsSound part a = ground arith

  net_interface-IsSound :
      (o : CollectOptions) (a : Addresses) (path name : Bytes)
      → NetInterfaceInfoIsSound (net_interface h o a path name)
  unfolding net_interface NetInterfaceInfoIsSound
  net_interface-IsSound o a path name = search (
    sound_laws, read_bool_number-IsSound, redact-IsSound, address_field-IsSound, speed_of-IsSound,
  )

  net_interfaces-IsSound :
      (o : CollectOptions) (a : Addresses) (root : Bytes) (names : List Bytes)
      → All NetInterfaceInfoIsSound (net_interfaces h o a root names)
  unfolding net_interfaces
  net_interfaces-IsSound o a root [] = tt
  net_interfaces-IsSound o a root (name ∷ names) =
      let rest = net_interfaces-IsSound o a root names in
      skip-All _ _ _ _ (net_interface-IsSound o a _ name) rest

  net_interfaces-collect :
      (o : CollectOptions) (a : Addresses) (root : Bytes)
      → NetInterfaceListIsSound (record { entries = net_interfaces h o a root (list_dir h root) })
  unfolding NetInterfaceListIsSound
  net_interfaces-collect o a root = net_interfaces-IsSound o a root _

  first_u64_file-IsSound : (paths : List Bytes) → IsSound (first_u64_file h paths)
  unfolding first_u64_file available
  first_u64_file-IsSound paths = first_u64_loop-IsSound not_found paths refl

  abbrev HwmonIsSound : Hwmon → Type 0
  HwmonIsSound w = IsSound w.temp_millidegree_c × IsSound w.power_mw

  hwmon_step-IsSound :
      (path : Bytes) (w : Hwmon) → HwmonIsSound w → HwmonIsSound (hwmon_step h path w)
  unfolding hwmon_step
  hwmon_step-IsSound path w (p, q) = search (sound_laws, p, q)

  hwmon_loop-IsSound :
      (root : Bytes) (names : List Bytes) (w : Hwmon)
      → HwmonIsSound w
      → HwmonIsSound (hwmon_loop h root names w)
  unfolding hwmon_loop
  hwmon_loop-IsSound root [] w p = p
  hwmon_loop-IsSound root (name ∷ names) w p =
      hwmon_loop-IsSound root names _ (hwmon_step-IsSound _ w p)

  cuda_of-IsSound : (v : GpuVendor) → IsSound (cuda_of v)
  unfolding cuda_of IsSound of_value unavailable available
  cuda_of-IsSound v = ground arith

  render-IsSound :
      (o : Option Bytes)
      → IsSound {A = Bytes}
          (elim o as (λ _. StringField) [ none ↦ init | some render ↦ of_value render ])
  render-IsSound none = unset-IsSound _ _
  render-IsSound (some r) = of_value-IsSound r

  -- Every field of a graphics card on the PCI bus has a value exactly when its status is `ok`.
  pub gpu_from_pci-IsSound :
      (address path : Bytes) (nodes : Dict Bytes)
      → GpuInfoIsSound (gpu_from_pci h address path nodes)
  unfolding gpu_from_pci GpuInfoIsSound available
  gpu_from_pci-IsSound address path nodes =
      let w =
        hwmon_loop-IsSound (join_path path (codes "hwmon"))
          (list_dir h (join_path path (codes "hwmon")))
          (record { temp_millidegree_c = init; power_mw = init })
          (unset-IsSound _ _, unset-IsSound _ _) in
      let r = render-IsSound (lookup address nodes) in
      search (sound_laws, first_u64_file-IsSound, cuda_of-IsSound, r, w.0, w.1)

-- Every field of every network interface has a value exactly when its status is `ok`.
pub collect_net-IsSound :
    (h : Host) (o : CollectOptions) → NetInterfaceListIsSound (collect_net h o)
unfolding collect_net
collect_net-IsSound h o = net_interfaces-collect h.files o _ _
