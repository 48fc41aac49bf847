-- ===== src/Collect/Pci.antt =====
-- src/pci.cc.
use archspec.Base.{List, [], ◌∷◌, Bytes, codes, if◌then◌else◌, not}
use archspec.Text.{join_path}
use archspec.Report.Field.{of_value, unavailable, not_found, list_default}
use archspec.Report.Pci.{PciDeviceInfo, PciDeviceList}
use archspec.Report.Options.{CollectOptions}
use archspec.Host.{Files}
use archspec.Read.{
  sys_path, list_dir, read_string_field, read_i64_field, read_symlink_basename_field, path_is_dir,
  path_exists,
}

module _ (h : Files) where
  unfoldable pub pci_device : Bytes → Bytes → PciDeviceInfo
  pci_device path address =
      let resource = join_path path (codes "resource") in
      record {
        pci_address = of_value address;
        vendor_id = read_string_field h (join_path path (codes "vendor"));
        device_id = read_string_field h (join_path path (codes "device"));
        subsystem_vendor_id = read_string_field h (join_path path (codes "subsystem_vendor"));
        subsystem_device_id = read_string_field h (join_path path (codes "subsystem_device"));
        class_id = read_string_field h (join_path path (codes "class"));
        driver = read_symlink_basename_field h (join_path path (codes "driver"));
        numa_node = read_i64_field h (join_path path (codes "numa_node"));
        iommu_group = read_symlink_basename_field h (join_path path (codes "iommu_group"));
        resource_path = if path_exists h resource then of_value resource else unavailable not_found;
      }

  unfoldable pub pci_device_entries : Bytes → List Bytes → List PciDeviceInfo
  unfolding pci_device
  pci_device_entries root [] = []
  pci_device_entries root (address ∷ addresses) =
      let path = join_path root address in
      if not (path_is_dir h path)
      then pci_device_entries root addresses
      else pci_device path address ∷ pci_device_entries root addresses

  unfoldable pub collect_pci : CollectOptions → PciDeviceList
  unfolding pci_device_entries
  collect_pci o =
      let root = sys_path o (codes "/bus/pci/devices") in
      record { entries = pci_device_entries root (list_dir h root) }
