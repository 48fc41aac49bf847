-- ===== src/Json/Part/Cache.antt =====
-- src/json.cc: the caches as JSON, and as a document.
use archspec.Base.{◌≡◌, [], ◌∷◌, Bytes, codes, map}
use archspec.Report.Cache.{CacheInfo, CacheList, cache_type_text}
use archspec.Json.Writer.{
  add_raw, add_string, add_string_field, add_u32_field, add_u64_field, new_object, object_text,
  vector_to_json, ◌▷◌,
}
use archspec.Json.Value.{Value, array, object, print, str}
use archspec.Json.Builder.{builder_laws, number_tree, string_tree, vector_to_json-tree}

unfoldable pub cache_info_to_json : CacheInfo → Bytes
cache_info_to_json cache = object_text (
    new_object
    ▷ add_u32_field "cpu_id" cache.cpu_id
    ▷ add_u32_field "level" cache.level
    ▷ add_string "type" (cache_type_text cache.type)
    ▷ add_u64_field "size" cache.size
    ▷ add_u64_field "line_size" cache.line_size
    ▷ add_u64_field "associativity" cache.associativity
    ▷ add_u64_field "sets" cache.sets
    ▷ add_string_field "shared_cpu_list" cache.shared_cpu_list)

abbrev pub cache_info_tree : CacheInfo → Value
cache_info_tree cache = object (
    (codes "cpu_id", number_tree cache.cpu_id)
    ∷ (codes "level", number_tree cache.level)
    ∷ (codes "type", str (cache_type_text cache.type))
    ∷ (codes "size", number_tree cache.size)
    ∷ (codes "line_size", number_tree cache.line_size)
    ∷ (codes "associativity", number_tree cache.associativity)
    ∷ (codes "sets", number_tree cache.sets)
    ∷ (codes "shared_cpu_list", string_tree cache.shared_cpu_list)
    ∷ [])

pub cache_info_to_json-tree :
    (cache : CacheInfo) → cache_info_to_json cache ≡ print (cache_info_tree cache)
unfolding cache_info_to_json
cache_info_to_json-tree cache = simp (builder_laws)

-- `to_json(CacheList)`
unfoldable pub cache_list_to_json : CacheList → Bytes
cache_list_to_json cache_list =
    object_text
      (new_object ▷ add_raw "entries" (vector_to_json cache_info_to_json cache_list.entries))

abbrev pub cache_list_tree : CacheList → Value
cache_list_tree cache_list =
    object ((codes "entries", array (map cache_info_tree cache_list.entries)) ∷ [])

pub cache_list_to_json-tree :
    (cache_list : CacheList) → cache_list_to_json cache_list ≡ print (cache_list_tree cache_list)
unfolding cache_list_to_json
cache_list_to_json-tree cache_list =
    simp
      (builder_laws, vector_to_json-tree cache_info_to_json cache_info_tree cache_info_to_json-tree)
