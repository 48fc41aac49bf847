-- ===== src/Collect/Gpu.antt =====
-- src/gpu.cc.
pub mod Unique
use archspec.Base.{
  ℕ, ◌/◌, Bool, true, false, not, ◌&&◌, ◌||◌, List, [], ◌∷◌, ◌++◌, Bytes, Option, none, some, codes,
  if◌then◌else◌, eq_bytes, contains,
}
use archspec.Base.Dict.{Dict, lookup, insert}
use archspec.Text.{join_path, starts_with, basename, find}
use archspec.Report.Field.{
  Status, not_found, unsupported, init, field_default, of_value, unavailable, BoolField, U64Field,
  StringField, nat_default, list_default, bool_default,
}
use archspec.Report.Gpu.{GpuVendor, unknown, intel, amd, nvidia, GpuInfo, GpuList}
use archspec.Report.Options.{CollectOptions}
use archspec.Host.{Files}
use archspec.Read.{
  sys_path, dev_path, list_dir, read_string_field, read_u64_field, read_symlink_basename_field,
  read_symlink_target,
}
use archspec.Collect.Power.{keep_status}

unfoldable pub vendor_from_id : StringField → GpuVendor
vendor_from_id vendor_id =
    let id = vendor_id.value in
    if not vendor_id.valid
    then unknown
    else if eq_bytes id (codes "0x8086")
    then intel
    else if eq_bytes id (codes "0x1002") || eq_bytes id (codes "0x1022")
    then amd
    else if eq_bytes id (codes "0x10de")
    then nvidia
    else unknown

unfoldable pub is_display_class : StringField → Bool
is_display_class class_id = class_id.valid && starts_with class_id.value (codes "0x03")

-- `gpu.vendor == GpuVendor::nvidia`
unfoldable pub cuda_of : GpuVendor → BoolField
cuda_of nvidia = unavailable unsupported
cuda_of _ = of_value false

-- the fields that `fill_hwmon_fields` writes
pub record Hwmon : Type 0 where
  pub temp_millidegree_c : U64Field
  pub power_mw : U64Field

module _ (h : Files) where
  unfoldable pub render_loop : CollectOptions → Bytes → List Bytes → Dict Bytes → Dict Bytes
  render_loop o drm_root [] nodes = nodes
  render_loop o drm_root (name ∷ names) nodes = render_loop o drm_root names (
      if not (starts_with name (codes "renderD"))
      then nodes
      else elim (read_symlink_target h (join_path drm_root (name ++ codes "/device"))) [
        | none ↦ nodes
        | some target ↦ insert (basename target) (dev_path o (codes "/dri/" ++ name)) nodes
      ])

  unfoldable pub render_nodes_by_pci : CollectOptions → Dict Bytes
  render_nodes_by_pci o =
      let drm_root = sys_path o (codes "/class/drm") in
      render_loop o drm_root (list_dir h drm_root) []

  -- the loop of `first_u64_file`
  unfoldable pub first_u64_loop : Status → List Bytes → U64Field
  first_u64_loop last_status [] = unavailable last_status
  first_u64_loop last_status (path ∷ paths) =
      let value = read_u64_field h path in
      elim value.valid [
        | true ↦ value
        | false ↦ first_u64_loop (keep_status last_status value.status) paths
      ]

  unfoldable pub first_u64_file : List Bytes → U64Field
  unfolding first_u64_loop
  first_u64_file paths = first_u64_loop not_found paths

  unfoldable pub hwmon_step : Bytes → Hwmon → Hwmon
  hwmon_step path w =
      let power_uw = read_u64_field h (join_path path (codes "power1_average")) in
      record {
        temp_millidegree_c =
            if not w.temp_millidegree_c.valid
            then read_u64_field h (join_path path (codes "temp1_input"))
            else w.temp_millidegree_c;
        power_mw =
            if not w.power_mw.valid && power_uw.valid
            then of_value (power_uw.value / 1000)
            else w.power_mw;
      }

  unfoldable pub hwmon_loop : Bytes → List Bytes → Hwmon → Hwmon
  hwmon_loop root [] w = w
  hwmon_loop root (name ∷ names) w = hwmon_loop root names (hwmon_step (join_path root name) w)

  unfoldable pub gpu_from_pci : Bytes → Bytes → Dict Bytes → GpuInfo
  gpu_from_pci pci_address pci_path render_nodes =
      let vendor_id = read_string_field h (join_path pci_path (codes "vendor")) in
      let device_id = read_string_field h (join_path pci_path (codes "device")) in
      let vendor = vendor_from_id vendor_id in
      let hwmon_root = join_path pci_path (codes "hwmon") in
      let w =
        hwmon_loop hwmon_root (list_dir h hwmon_root)
          (record { temp_millidegree_c = init; power_mw = init }) in
      record {
        vendor = vendor;
        name =
            if vendor_id.valid && device_id.valid
            then of_value (vendor_id.value ++ b':' ∷ device_id.value)
            else of_value pci_address;
        drm_card = init;
        render_node = elim (lookup pci_address render_nodes) [
          | none ↦ init
          | some render ↦ of_value render
        ];
        pci_address = of_value pci_address;
        vendor_id = vendor_id;
        device_id = device_id;
        driver = read_symlink_basename_field h (join_path pci_path (codes "driver"));
        vram_total_bytes = first_u64_file (
            join_path pci_path (codes "mem_info_vram_total")
            ∷ join_path pci_path (codes "mem_info_vis_vram_total")
            ∷ []);
        vram_used_bytes = first_u64_file (
            join_path pci_path (codes "mem_info_vram_used")
            ∷ join_path pci_path (codes "mem_info_vis_vram_used")
            ∷ []);
        temp_millidegree_c = w.temp_millidegree_c;
        power_mw = w.power_mw;
        graphics_clock_mhz = init;
        memory_clock_mhz = init;
        cuda_available = cuda_of vendor;
        cuda_compute_capability = unavailable unsupported;
      }

-- `list.entries`, and the set `seen` of PCI addresses
abbrev pub Seen : Type 0
Seen = List GpuInfo × List Bytes

module _ (h : Files) (o : CollectOptions) (render_nodes : Dict Bytes) where
  abbrev pci_path_of : Bytes → Bytes
  pci_path_of address = join_path (sys_path o (codes "/bus/pci/devices")) address

  -- a card whose PCI address is known
  unfoldable pub add_card : Bytes → Bytes → Seen → Seen
  add_card card address (entries, seen) =
      let gpu = record (gpu_from_pci h address (pci_path_of address) render_nodes) {
        drm_card = of_value (dev_path o (codes "/dri/" ++ card));
      } in
      if contains seen address then (entries, seen) else (entries ++ gpu ∷ [], address ∷ seen)

  abbrev is_card : Bytes → Bool
  is_card card =
      starts_with card (codes "card") && elim (find b'-' card) [ none ↦ true | some i ↦ false ]

  unfoldable pub card_step : Bytes → Bytes → Seen → Seen
  unfolding add_card
  card_step drm_root card state =
      if not (is_card card)
      then state
      else elim (read_symlink_target h (join_path drm_root (card ++ codes "/device"))) [
        | none ↦ state
        | some target ↦ add_card card (basename target) state
      ]

  -- the loop over `/sys/class/drm`
  unfoldable pub card_loop : Bytes → List Bytes → Seen → Seen
  card_loop drm_root [] state = state
  card_loop drm_root (card ∷ cards) state = card_loop drm_root cards (card_step drm_root card state)

  -- the loop over the PCI devices, which leaves `seen` as it is
  unfoldable pub display_loop : List Bytes → List Bytes → List GpuInfo
  display_loop seen [] = []
  display_loop seen (address ∷ addresses) =
      let class_id = read_string_field h (join_path (pci_path_of address) (codes "class")) in
      if contains seen address || not (is_display_class class_id)
      then display_loop seen addresses
      else gpu_from_pci h address (pci_path_of address) render_nodes ∷ display_loop seen addresses

unfoldable pub collect_gpu : Files → CollectOptions → GpuList
collect_gpu h o =
    let drm_root = sys_path o (codes "/class/drm") in
    let pci_root = sys_path o (codes "/bus/pci/devices") in
    let render_nodes = render_nodes_by_pci h o in
    let (entries, seen) = card_loop h o render_nodes drm_root (list_dir h drm_root) ([], []) in
    record { entries = entries ++ display_loop h o render_nodes seen (list_dir h pci_root) }
