-- ===== src/Json/Part/Platform.antt =====
-- src/json.cc: virtualization and firmware as JSON, and as a document.
use archspec.Base.{◌≡◌, [], ◌∷◌, Bytes, codes}
use archspec.Report.Platform.{PlatformInfo, VirtualizationInfo}
use archspec.Json.Writer.{add_bool_field, add_string_field, new_object, object_text, ◌▷◌}
use archspec.Json.Value.{Value, object, print}
use archspec.Json.Builder.{builder_laws, bool_tree, string_tree}

-- `to_json(VirtualizationInfo)`
unfoldable pub virtualization_info_to_json : VirtualizationInfo → Bytes
virtualization_info_to_json virtualization_info = object_text (
    new_object
    ▷ add_bool_field "running_under_hypervisor" virtualization_info.running_under_hypervisor
    ▷ add_string_field "hypervisor_vendor" virtualization_info.hypervisor_vendor
    ▷ add_bool_field "kvm_available" virtualization_info.kvm_available
    ▷ add_bool_field "dev_kvm_exists" virtualization_info.dev_kvm_exists
    ▷ add_bool_field "intel_vmx_available" virtualization_info.intel_vmx_available
    ▷ add_bool_field "amd_svm_available" virtualization_info.amd_svm_available
    ▷ add_bool_field "iommu_present" virtualization_info.iommu_present)

abbrev pub virtualization_info_tree : VirtualizationInfo → Value
virtualization_info_tree virtualization_info = object (
    (codes "running_under_hypervisor", bool_tree virtualization_info.running_under_hypervisor)
    ∷ (codes "hypervisor_vendor", string_tree virtualization_info.hypervisor_vendor)
    ∷ (codes "kvm_available", bool_tree virtualization_info.kvm_available)
    ∷ (codes "dev_kvm_exists", bool_tree virtualization_info.dev_kvm_exists)
    ∷ (codes "intel_vmx_available", bool_tree virtualization_info.intel_vmx_available)
    ∷ (codes "amd_svm_available", bool_tree virtualization_info.amd_svm_available)
    ∷ (codes "iommu_present", bool_tree virtualization_info.iommu_present)
    ∷ [])

pub virtualization_info_to_json-tree :
    (virtualization_info : VirtualizationInfo)
    → virtualization_info_to_json virtualization_info
      ≡ print (virtualization_info_tree virtualization_info)
unfolding virtualization_info_to_json
virtualization_info_to_json-tree virtualization_info = simp (builder_laws)

-- `to_json(PlatformInfo)`
unfoldable pub platform_info_to_json : PlatformInfo → Bytes
platform_info_to_json platform_info = object_text (
    new_object
    ▷ add_string_field "system_vendor" platform_info.system_vendor
    ▷ add_string_field "product_name" platform_info.product_name
    ▷ add_string_field "product_version" platform_info.product_version
    ▷ add_string_field "board_vendor" platform_info.board_vendor
    ▷ add_string_field "board_name" platform_info.board_name
    ▷ add_string_field "bios_vendor" platform_info.bios_vendor
    ▷ add_string_field "bios_version" platform_info.bios_version
    ▷ add_string_field "bios_date" platform_info.bios_date
    ▷ add_bool_field "uefi" platform_info.uefi
    ▷ add_bool_field "secure_boot" platform_info.secure_boot)

abbrev pub platform_info_tree : PlatformInfo → Value
platform_info_tree platform_info = object (
    (codes "system_vendor", string_tree platform_info.system_vendor)
    ∷ (codes "product_name", string_tree platform_info.product_name)
    ∷ (codes "product_version", string_tree platform_info.product_version)
    ∷ (codes "board_vendor", string_tree platform_info.board_vendor)
    ∷ (codes "board_name", string_tree platform_info.board_name)
    ∷ (codes "bios_vendor", string_tree platform_info.bios_vendor)
    ∷ (codes "bios_version", string_tree platform_info.bios_version)
    ∷ (codes "bios_date", string_tree platform_info.bios_date)
    ∷ (codes "uefi", bool_tree platform_info.uefi)
    ∷ (codes "secure_boot", bool_tree platform_info.secure_boot)
    ∷ [])

pub platform_info_to_json-tree :
    (platform_info : PlatformInfo)
    → platform_info_to_json platform_info ≡ print (platform_info_tree platform_info)
unfolding platform_info_to_json
platform_info_to_json-tree platform_info = simp (builder_laws)
