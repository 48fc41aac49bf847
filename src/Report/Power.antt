-- ===== src/Report/Power.antt =====
-- include/aview.hh: thermal zones and the power state.
use archspec.Base.{List}
use archspec.Report.Field.{
  BoolField, StringField, U64Field, Default, init, bool_default, field_default, list_default,
  nat_default,
}

pub record ThermalZoneInfo : Type 0 where
  pub name : StringField
  pub type : StringField
  pub temp : StringField

instance unfoldable pub thermal_zone_info_default : Default ThermalZoneInfo
thermal_zone_info_default = record { default = record { name = init; type = init; temp = init } }

pub record ThermalInfo : Type 0 where
  pub entries : List ThermalZoneInfo

instance unfoldable pub thermal_info_default : Default ThermalInfo
thermal_info_default = record { default = record { entries = init } }

pub record PowerInfo : Type 0 where
  pub on_battery : BoolField
  pub battery_status : StringField
  pub battery_capacity_percent : U64Field
  pub cpu_governor : StringField
  pub cpu_current_freq_mhz : U64Field
  pub cpu_min_freq_mhz : U64Field
  pub cpu_max_freq_mhz : U64Field

instance unfoldable pub power_info_default : Default PowerInfo
power_info_default = record {
  default = record {
    on_battery = init;
    battery_status = init;
    battery_capacity_percent = init;
    cpu_governor = init;
    cpu_current_freq_mhz = init;
    cpu_min_freq_mhz = init;
    cpu_max_freq_mhz = init;
  };
}
