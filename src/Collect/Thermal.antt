-- ===== src/Collect/Thermal.antt =====
-- src/thermal.cc.
use archspec.Base.{List, [], ◌∷◌, Bytes, codes, if◌then◌else◌}
use archspec.Text.{join_path, starts_with}
use archspec.Report.Field.{of_value}
use archspec.Report.Power.{ThermalZoneInfo, ThermalInfo}
use archspec.Report.Options.{CollectOptions}
use archspec.Host.{Files}
use archspec.Read.{sys_path, list_dir, read_string_field}

module _ (h : Files) where
  unfoldable pub thermal_zone : Bytes → Bytes → ThermalZoneInfo
  thermal_zone root name =
      let path = join_path root name in
      record {
        name = of_value name;
        type = read_string_field h (join_path path (codes "type"));
        temp = read_string_field h (join_path path (codes "temp"));
      }

  unfoldable pub thermal_zones : Bytes → List Bytes → List ThermalZoneInfo
  unfolding thermal_zone
  thermal_zones root [] = []
  thermal_zones root (name ∷ names) =
      if starts_with name (codes "thermal_zone")
      then thermal_zone root name ∷ thermal_zones root names
      else thermal_zones root names

  unfoldable pub collect_thermal : CollectOptions → ThermalInfo
  unfolding thermal_zones
  collect_thermal o =
      let root = sys_path o (codes "/class/thermal") in
      record { entries = thermal_zones root (list_dir h root) }
