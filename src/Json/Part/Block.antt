-- ===== src/Json/Part/Block.antt =====
-- src/json.cc: the block devices as JSON, and as a document.
use archspec.Base.{◌≡◌, [], ◌∷◌, Bytes, codes, map}
use archspec.Report.Block.{BlockDeviceInfo, BlockDeviceList}
use archspec.Json.Writer.{
  add_bool_field, add_raw, add_string_field, add_u64_field, new_object, object_text, vector_to_json,
  ◌▷◌,
}
use archspec.Json.Value.{Value, array, object, print}
use archspec.Json.Builder.{builder_laws, bool_tree, number_tree, string_tree, vector_to_json-tree}

unfoldable pub block_device_to_json : BlockDeviceInfo → Bytes
block_device_to_json block = object_text (
    new_object
    ▷ add_string_field "name" block.name
    ▷ add_string_field "model" block.model
    ▷ add_string_field "vendor" block.vendor
    ▷ add_string_field "path" block.path
    ▷ add_bool_field "rotational" block.rotational
    ▷ add_u64_field "size_bytes" block.size_bytes
    ▷ add_u64_field "logical_block_size" block.logical_block_size
    ▷ add_u64_field "physical_block_size" block.physical_block_size
    ▷ add_string_field "scheduler" block.scheduler)

abbrev pub block_device_tree : BlockDeviceInfo → Value
block_device_tree block = object (
    (codes "name", string_tree block.name)
    ∷ (codes "model", string_tree block.model)
    ∷ (codes "vendor", string_tree block.vendor)
    ∷ (codes "path", string_tree block.path)
    ∷ (codes "rotational", bool_tree block.rotational)
    ∷ (codes "size_bytes", number_tree block.size_bytes)
    ∷ (codes "logical_block_size", number_tree block.logical_block_size)
    ∷ (codes "physical_block_size", number_tree block.physical_block_size)
    ∷ (codes "scheduler", string_tree block.scheduler)
    ∷ [])

pub block_device_to_json-tree :
    (block : BlockDeviceInfo) → block_device_to_json block ≡ print (block_device_tree block)
unfolding block_device_to_json
block_device_to_json-tree block = simp (builder_laws)

-- `to_json(BlockDeviceList)`
unfoldable pub block_device_list_to_json : BlockDeviceList → Bytes
block_device_list_to_json block_devices =
    object_text
      (new_object ▷ add_raw "entries" (vector_to_json block_device_to_json block_devices.entries))

abbrev pub block_device_list_tree : BlockDeviceList → Value
block_device_list_tree block_devices =
    object ((codes "entries", array (map block_device_tree block_devices.entries)) ∷ [])

pub block_device_list_to_json-tree :
    (block_devices : BlockDeviceList)
    → block_device_list_to_json block_devices ≡ print (block_device_list_tree block_devices)
unfolding block_device_list_to_json
block_device_list_to_json-tree block_devices = simp (
  builder_laws,
  vector_to_json-tree block_device_to_json block_device_tree block_device_to_json-tree,
)
