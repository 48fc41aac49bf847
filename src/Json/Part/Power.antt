-- ===== src/Json/Part/Power.antt =====
-- src/json.cc: thermal zones and power as JSON, and as a document.
use archspec.Base.{◌≡◌, [], ◌∷◌, Bytes, codes, map}
use archspec.Report.Power.{PowerInfo, ThermalInfo, ThermalZoneInfo}
use archspec.Json.Writer.{
  add_bool_field, add_raw, add_string_field, add_u64_field, new_object, object_text, vector_to_json,
  ◌▷◌,
}
use archspec.Json.Value.{Value, array, object, print}
use archspec.Json.Builder.{builder_laws, bool_tree, number_tree, string_tree, vector_to_json-tree}

unfoldable pub thermal_zone_to_json : ThermalZoneInfo → Bytes
thermal_zone_to_json zone = object_text (
    new_object
    ▷ add_string_field "name" zone.name
    ▷ add_string_field "type" zone.type
    ▷ add_string_field "temp" zone.temp)

abbrev pub thermal_zone_tree : ThermalZoneInfo → Value
thermal_zone_tree zone = object (
    (codes "name", string_tree zone.name)
    ∷ (codes "type", string_tree zone.type)
    ∷ (codes "temp", string_tree zone.temp)
    ∷ [])

pub thermal_zone_to_json-tree :
    (zone : ThermalZoneInfo) → thermal_zone_to_json zone ≡ print (thermal_zone_tree zone)
unfolding thermal_zone_to_json
thermal_zone_to_json-tree zone = simp (builder_laws)

-- `to_json(ThermalInfo)`
unfoldable pub thermal_info_to_json : ThermalInfo → Bytes
thermal_info_to_json thermal_info =
    object_text
      (new_object ▷ add_raw "entries" (vector_to_json thermal_zone_to_json thermal_info.entries))

abbrev pub thermal_info_tree : ThermalInfo → Value
thermal_info_tree thermal_info =
    object ((codes "entries", array (map thermal_zone_tree thermal_info.entries)) ∷ [])

pub thermal_info_to_json-tree :
    (thermal_info : ThermalInfo)
    → thermal_info_to_json thermal_info ≡ print (thermal_info_tree thermal_info)
unfolding thermal_info_to_json
thermal_info_to_json-tree thermal_info = simp (
  builder_laws,
  vector_to_json-tree thermal_zone_to_json thermal_zone_tree thermal_zone_to_json-tree,
)

-- `to_json(PowerInfo)`
unfoldable pub power_info_to_json : PowerInfo → Bytes
power_info_to_json power_info = object_text (
    new_object
    ▷ add_bool_field "on_battery" power_info.on_battery
    ▷ add_string_field "battery_status" power_info.battery_status
    ▷ add_u64_field "battery_capacity_percent" power_info.battery_capacity_percent
    ▷ add_string_field "cpu_governor" power_info.cpu_governor
    ▷ add_u64_field "cpu_current_freq_mhz" power_info.cpu_current_freq_mhz
    ▷ add_u64_field "cpu_min_freq_mhz" power_info.cpu_min_freq_mhz
    ▷ add_u64_field "cpu_max_freq_mhz" power_info.cpu_max_freq_mhz)

abbrev pub power_info_tree : PowerInfo → Value
power_info_tree power_info = object (
    (codes "on_battery", bool_tree power_info.on_battery)
    ∷ (codes "battery_status", string_tree power_info.battery_status)
    ∷ (codes "battery_capacity_percent", number_tree power_info.battery_capacity_percent)
    ∷ (codes "cpu_governor", string_tree power_info.cpu_governor)
    ∷ (codes "cpu_current_freq_mhz", number_tree power_info.cpu_current_freq_mhz)
    ∷ (codes "cpu_min_freq_mhz", number_tree power_info.cpu_min_freq_mhz)
    ∷ (codes "cpu_max_freq_mhz", number_tree power_info.cpu_max_freq_mhz)
    ∷ [])

pub power_info_to_json-tree :
    (power_info : PowerInfo) → power_info_to_json power_info ≡ print (power_info_tree power_info)
unfolding power_info_to_json
power_info_to_json-tree power_info = simp (builder_laws)
