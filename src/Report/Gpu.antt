-- ===== src/Report/Gpu.antt =====
-- include/aview.hh: the graphics devices.
use archspec.Base.{Bytes, List, codes}
use archspec.Report.Field.{
  BoolField, StringField, U64Field, Default, init, bool_default, field_default, list_default,
  nat_default,
}

pub data GpuVendor : Type 0 where
  unknown intel amd nvidia : GpuVendor

-- `to_string(GpuVendor)`
unfoldable pub gpu_vendor_text : GpuVendor → Bytes
gpu_vendor_text unknown = codes "unknown"
gpu_vendor_text intel = codes "intel"
gpu_vendor_text amd = codes "amd"
gpu_vendor_text nvidia = codes "nvidia"

pub record GpuInfo : Type 0 where
  pub vendor : GpuVendor
  pub name : StringField
  pub drm_card : StringField
  pub render_node : StringField
  pub pci_address : StringField
  pub vendor_id : StringField
  pub device_id : StringField
  pub driver : StringField
  pub vram_total_bytes : U64Field
  pub vram_used_bytes : U64Field
  pub temp_millidegree_c : U64Field
  pub power_mw : U64Field
  pub graphics_clock_mhz : U64Field
  pub memory_clock_mhz : U64Field
  pub cuda_available : BoolField
  pub cuda_compute_capability : StringField

instance unfoldable pub gpu_info_default : Default GpuInfo
gpu_info_default = record {
  default = record {
    vendor = unknown;
    name = init;
    drm_card = init;
    render_node = init;
    pci_address = init;
    vendor_id = init;
    device_id = init;
    driver = init;
    vram_total_bytes = init;
    vram_used_bytes = init;
    temp_millidegree_c = init;
    power_mw = init;
    graphics_clock_mhz = init;
    memory_clock_mhz = init;
    cuda_available = init;
    cuda_compute_capability = init;
  };
}

pub record GpuList : Type 0 where
  pub entries : List GpuInfo

instance unfoldable pub gpu_list_default : Default GpuList
gpu_list_default = record { default = record { entries = init } }
