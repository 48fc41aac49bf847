-- ===== src/Json/Part/Os.antt =====
-- src/json.cc: the operating system as JSON, and as a document.
use archspec.Base.{◌≡◌, [], ◌∷◌, Bytes, codes}
use archspec.Report.Os.{OsInfo}
use archspec.Json.Writer.{add_string_field, add_u64_field, new_object, object_text, ◌▷◌}
use archspec.Json.Value.{Value, object, print}
use archspec.Json.Builder.{builder_laws, number_tree, string_tree}

-- `to_json(OsInfo)`
unfoldable pub os_info_to_json : OsInfo → Bytes
os_info_to_json info = object_text (
    new_object
    ▷ add_string_field "kernel_name" info.kernel_name
    ▷ add_string_field "kernel_version" info.kernel_version
    ▷ add_string_field "kernel_release" info.kernel_release
    ▷ add_string_field "machine" info.machine
    ▷ add_string_field "hostname" info.hostname
    ▷ add_string_field "distro_name" info.distro_name
    ▷ add_string_field "distro_version" info.distro_version
    ▷ add_string_field "distro_id" info.distro_id
    ▷ add_string_field "cmdline" info.cmdline
    ▷ add_u64_field "page_size" info.page_size
    ▷ add_u64_field "word_size" info.word_size
    ▷ add_string_field "endianness" info.endianness)

abbrev pub os_info_tree : OsInfo → Value
os_info_tree info = object (
    (codes "kernel_name", string_tree info.kernel_name)
    ∷ (codes "kernel_version", string_tree info.kernel_version)
    ∷ (codes "kernel_release", string_tree info.kernel_release)
    ∷ (codes "machine", string_tree info.machine)
    ∷ (codes "hostname", string_tree info.hostname)
    ∷ (codes "distro_name", string_tree info.distro_name)
    ∷ (codes "distro_version", string_tree info.distro_version)
    ∷ (codes "distro_id", string_tree info.distro_id)
    ∷ (codes "cmdline", string_tree info.cmdline)
    ∷ (codes "page_size", number_tree info.page_size)
    ∷ (codes "word_size", number_tree info.word_size)
    ∷ (codes "endianness", string_tree info.endianness)
    ∷ [])

pub os_info_to_json-tree : (info : OsInfo) → os_info_to_json info ≡ print (os_info_tree info)
unfolding os_info_to_json
os_info_to_json-tree info = simp (builder_laws)
