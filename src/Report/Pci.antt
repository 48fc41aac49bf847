-- ===== src/Report/Pci.antt =====
-- include/aview.hh: the PCI devices.
use archspec.Base.{List}
use archspec.Report.Field.{
  I64Field, StringField, Default, init, field_default, int_default, list_default, nat_default,
}

pub record PciDeviceInfo : Type 0 where
  pub pci_address : StringField
  pub vendor_id : StringField
  pub device_id : StringField
  pub subsystem_vendor_id : StringField
  pub subsystem_device_id : StringField
  pub class_id : StringField
  pub driver : StringField
  pub numa_node : I64Field
  pub iommu_group : StringField
  pub resource_path : StringField

instance unfoldable pub pci_device_info_default : Default PciDeviceInfo
pci_device_info_default = record {
  default = record {
    pci_address = init;
    vendor_id = init;
    device_id = init;
    subsystem_vendor_id = init;
    subsystem_device_id = init;
    class_id = init;
    driver = init;
    numa_node = init;
    iommu_group = init;
    resource_path = init;
  };
}

pub record PciDeviceList : Type 0 where
  pub entries : List PciDeviceInfo

instance unfoldable pub pci_device_list_default : Default PciDeviceList
pci_device_list_default = record { default = record { entries = init } }
