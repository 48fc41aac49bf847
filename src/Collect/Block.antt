-- ===== src/Collect/Block.antt =====
-- src/block.cc.
use archspec.Base.{Bool, not, ◌||◌, List, [], ◌∷◌, Bytes, codes, if◌then◌else◌, ◌==◌}
use archspec.Text.{join_path, starts_with}
use archspec.Report.Field.{of_value, unavailable, BoolField, U64Field, bool_default}
use archspec.Report.Block.{BlockDeviceInfo, BlockDeviceList}
use archspec.Report.Options.{CollectOptions}
use archspec.Host.{Files}
use archspec.Read.{
  sys_path, dev_path, list_dir, read_string_field, read_u64_field, read_scaled_u64_field,
  path_is_dir,
}

unfoldable pub is_pseudo_block_device : Bytes → Bool
unfolding starts_with
is_pseudo_block_device name = starts_with name (codes "loop") || starts_with name (codes "ram")

-- `read_bool_number`, on the field that it reads
unfoldable pub bool_number : U64Field → BoolField
bool_number value =
    if not value.valid then unavailable value.status else of_value (not (value.value == 0))

module _ (h : Files) where
  unfoldable pub read_bool_number : Bytes → BoolField
  unfolding bool_number
  read_bool_number path = bool_number (read_u64_field h path)

  unfoldable pub block_device : CollectOptions → Bytes → Bytes → BlockDeviceInfo
  block_device o path name = record {
    name = of_value name;
    model = read_string_field h (join_path path (codes "device/model"));
    vendor = read_string_field h (join_path path (codes "device/vendor"));
    path = of_value (dev_path o (b'/' ∷ name));
    rotational = read_bool_number (join_path path (codes "queue/rotational"));
    size_bytes = read_scaled_u64_field h 512 (join_path path (codes "size"));
    logical_block_size = read_u64_field h (join_path path (codes "queue/logical_block_size"));
    physical_block_size = read_u64_field h (join_path path (codes "queue/physical_block_size"));
    scheduler = read_string_field h (join_path path (codes "queue/scheduler"));
  }

  unfoldable pub block_devices : CollectOptions → Bytes → List Bytes → List BlockDeviceInfo
  unfolding block_device
  block_devices o root [] = []
  block_devices o root (name ∷ names) =
      let path = join_path root name in
      if is_pseudo_block_device name || not (path_is_dir h path)
      then block_devices o root names
      else block_device o path name ∷ block_devices o root names

  unfoldable pub collect_block : CollectOptions → BlockDeviceList
  unfolding block_devices
  collect_block o =
      let root = sys_path o (codes "/block") in
      record { entries = block_devices o root (list_dir h root) }
