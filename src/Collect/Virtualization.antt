-- ===== src/Collect/Virtualization.antt =====
-- src/virtualization.cc, on a POSIX host.
use archspec.Base.{
  Bool, true, false, not, ◌&&◌, ◌||◌, List, [], ◌∷◌, Bytes, none, some, codes, if◌then◌else◌,
  contains,
}
use archspec.Text.{lower_copy, find_text}
use archspec.Number.{parse_u64}
use archspec.Report.Field.{
  unsupported, not_found, available, of_value, unavailable, BoolField, StringField, bool_default,
  list_default,
}
use archspec.Report.Platform.{VirtualizationInfo}
use archspec.Report.Options.{CollectOptions}
use archspec.Host.{Files}
use archspec.Read.{sys_path, dev_path, list_dir, read_string_field, path_is_dir, path_exists}
use archspec.Collect.CpuFlags.{CpuFlags, cpu_flags, bool_from_flag}

abbrev pub hints : List Bytes
hints =
    codes "kvm"
    ∷ codes "qemu"
    ∷ codes "vmware"
    ∷ codes "virtualbox"
    ∷ codes "hyper-v"
    ∷ codes "hyperv"
    ∷ codes "xen"
    ∷ codes "bochs"
    ∷ codes "parallels"
    ∷ codes "bhyve"
    ∷ codes "wsl"
    ∷ []

unfoldable pub contains_any : Bytes → List Bytes → Bool
contains_any text [] = false
contains_any text (hint ∷ rest) = elim (find_text hint text) [
  | some i ↦ true
  | none ↦ contains_any text rest
]

unfoldable pub contains_virtualization_hint : Bytes → Bool
unfolding contains_any
contains_virtualization_hint value = contains_any (lower_copy value) hints

-- a feature that only an x86 processor has
unfoldable pub x86_feature : CpuFlags → Bytes → BoolField
x86_feature flags name =
    if available flags.status && flags.x86
    then bool_from_flag flags.flags name
    else if available flags.status
    then unavailable unsupported
    else unavailable flags.status

module _ (h : Files) where
  unfoldable pub vendor_loop : List Bytes → StringField
  vendor_loop [] = unavailable not_found
  vendor_loop (path ∷ paths) =
      let value = read_string_field h path in
      if value.valid && contains_virtualization_hint value.value then value else vendor_loop paths

  unfoldable pub detected_hypervisor_vendor : CollectOptions → StringField
  unfolding vendor_loop
  detected_hypervisor_vendor o = vendor_loop (
      sys_path o (codes "/hypervisor/type")
      ∷ sys_path o (codes "/class/dmi/id/product_name")
      ∷ sys_path o (codes "/class/dmi/id/sys_vendor")
      ∷ [])

  unfoldable pub any_number : List Bytes → Bool
  any_number [] = false
  any_number (name ∷ names) = elim (parse_u64 name) [ some id ↦ true | none ↦ any_number names ]

  unfoldable pub iommu_present : CollectOptions → BoolField
  unfolding any_number
  iommu_present o =
      let root = sys_path o (codes "/kernel/iommu_groups") in
      if not (path_is_dir h root)
      then unavailable not_found
      else of_value (any_number (list_dir h root))

  unfoldable pub collect_virtualization : CollectOptions → VirtualizationInfo
  collect_virtualization o =
      let flags = cpu_flags h o (codes "flags" ∷ codes "Features" ∷ []) in
      let cpu_hypervisor = contains flags.flags (codes "hypervisor") in
      let vendor = detected_hypervisor_vendor o in
      let kvm = dev_path o (codes "/kvm") in
      let kvm_exists = path_exists h kvm in
      record {
        running_under_hypervisor =
            if available flags.status || vendor.valid
            then of_value (cpu_hypervisor || vendor.valid)
            else unavailable flags.status;
        hypervisor_vendor = vendor;
        kvm_available = of_value (kvm_exists && h.access_rw kvm);
        dev_kvm_exists = of_value kvm_exists;
        intel_vmx_available = x86_feature flags (codes "vmx");
        amd_svm_available = x86_feature flags (codes "svm");
        iommu_present = iommu_present o;
      }
