-- ===== src/Report/Platform.antt =====
-- include/aview.hh: virtualization and firmware.
use archspec.Report.Field.{
  BoolField, StringField, Default, init, bool_default, field_default, list_default, nat_default,
}

pub record VirtualizationInfo : Type 0 where
  pub running_under_hypervisor : BoolField
  pub hypervisor_vendor : StringField
  pub kvm_available : BoolField
  pub dev_kvm_exists : BoolField
  pub intel_vmx_available : BoolField
  pub amd_svm_available : BoolField
  pub iommu_present : BoolField

instance unfoldable pub virtualization_info_default : Default VirtualizationInfo
virtualization_info_default = record {
  default = record {
    running_under_hypervisor = init;
    hypervisor_vendor = init;
    kvm_available = init;
    dev_kvm_exists = init;
    intel_vmx_available = init;
    amd_svm_available = init;
    iommu_present = init;
  };
}

pub record PlatformInfo : Type 0 where
  pub system_vendor : StringField
  pub product_name : StringField
  pub product_version : StringField
  pub board_vendor : StringField
  pub board_name : StringField
  pub bios_vendor : StringField
  pub bios_version : StringField
  pub bios_date : StringField
  pub uefi : BoolField
  pub secure_boot : BoolField

instance unfoldable pub platform_info_default : Default PlatformInfo
platform_info_default = record {
  default = record {
    system_vendor = init;
    product_name = init;
    product_version = init;
    board_vendor = init;
    board_name = init;
    bios_vendor = init;
    bios_version = init;
    bios_date = init;
    uefi = init;
    secure_boot = init;
  };
}
