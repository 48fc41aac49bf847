-- ===== src/Collect/Power.antt =====
-- src/power.cc.
use archspec.Base.{
  ◌/◌, Bool, true, false, not, ◌||◌, ◌&&◌, List, [], ◌∷◌, Bytes, codes, if◌then◌else◌, eq_bytes,
  ◌==◌,
}
use archspec.Text.{join_path}
use archspec.Report.Field.{
  Status, not_found, of_value, unavailable, BoolField, U64Field, StringField, field_default, init,
  nat_default, list_default, bool_default,
}
use archspec.Report.Power.{PowerInfo}
use archspec.Report.Options.{CollectOptions}
use archspec.Host.{Files}
use archspec.Read.{sys_path, list_dir, read_string_field, read_u64_field}

-- `last_status`, after a field that is not valid
unfoldable pub keep_status : Status → Status → Status
keep_status last_status not_found = last_status
keep_status last_status other = other

unfoldable pub is_mains_type : Bytes → Bool
is_mains_type type =
    eq_bytes type (codes "Mains")
    || eq_bytes type (codes "AC")
    || eq_bytes type (codes "USB")
    || eq_bytes type (codes "USB_C")

-- the variables of the loop over the supplies
pub record Supplies : Type 0 where
  pub battery_status : StringField
  pub battery_capacity_percent : U64Field
  pub saw_battery : Bool
  pub saw_mains : Bool
  pub any_mains_online : Bool

abbrev pub no_supplies : Supplies
no_supplies = record {
  battery_status = init;
  battery_capacity_percent = init;
  saw_battery = false;
  saw_mains = false;
  any_mains_online = false;
}

-- `on_battery`, from what the loop has seen
unfoldable pub on_battery_of : Supplies → BoolField
on_battery_of s =
    if s.saw_battery
    then (if s.saw_mains
        then of_value (not s.any_mains_online)
        else if s.battery_status.valid
        then of_value (eq_bytes s.battery_status.value (codes "Discharging"))
        else unavailable not_found)
    else if s.saw_mains
    then of_value false
    else unavailable not_found

module _ (h : Files) where
  -- the loop of `read_khz_as_mhz`
  unfoldable pub khz_loop : Status → List Bytes → U64Field
  unfolding keep_status
  khz_loop last_status [] = unavailable last_status
  khz_loop last_status (path ∷ paths) =
      let khz = read_u64_field h path in
      elim khz.valid [
        | true ↦ of_value (khz.value / 1000)
        | false ↦ khz_loop (keep_status last_status khz.status) paths
      ]

  unfoldable pub read_khz_as_mhz : List Bytes → U64Field
  unfolding khz_loop
  read_khz_as_mhz paths = khz_loop not_found paths

  -- one supply
  unfoldable pub supply_step : Bytes → Supplies → Supplies
  supply_step path s =
      let type = read_string_field h (join_path path (codes "type")) in
      let online = read_u64_field h (join_path path (codes "online")) in
      if not type.valid
      then s
      else if eq_bytes type.value (codes "Battery")
      then record s {
        saw_battery = true;
        battery_status =
            if not s.battery_status.valid
            then read_string_field h (join_path path (codes "status"))
            else s.battery_status;
        battery_capacity_percent =
            if not s.battery_capacity_percent.valid
            then read_u64_field h (join_path path (codes "capacity"))
            else s.battery_capacity_percent;
      }
      else if is_mains_type type.value
      then record s {
        saw_mains = true;
        any_mains_online = s.any_mains_online || (online.valid && not (online.value == 0));
      }
      else s

  unfoldable pub supply_loop : Bytes → List Bytes → Supplies → Supplies
  supply_loop root [] s = s
  supply_loop root (name ∷ names) s = supply_loop root names (supply_step (join_path root name) s)

  unfoldable pub collect_power : CollectOptions → PowerInfo
  collect_power o =
      let root = sys_path o (codes "/class/power_supply") in
      let s = supply_loop root (list_dir h root) no_supplies in
      let cpufreq = sys_path o (codes "/devices/system/cpu/cpu0/cpufreq") in
      record {
        on_battery = on_battery_of s;
        battery_status = s.battery_status;
        battery_capacity_percent = s.battery_capacity_percent;
        cpu_governor = read_string_field h (join_path cpufreq (codes "scaling_governor"));
        cpu_current_freq_mhz = read_khz_as_mhz (
            join_path cpufreq (codes "scaling_cur_freq")
            ∷ join_path cpufreq (codes "cpuinfo_cur_freq")
            ∷ []);
        cpu_min_freq_mhz = read_khz_as_mhz (
            join_path cpufreq (codes "scaling_min_freq")
            ∷ join_path cpufreq (codes "cpuinfo_min_freq")
            ∷ []);
        cpu_max_freq_mhz = read_khz_as_mhz (
            join_path cpufreq (codes "scaling_max_freq")
            ∷ join_path cpufreq (codes "cpuinfo_max_freq")
            ∷ []);
      }
