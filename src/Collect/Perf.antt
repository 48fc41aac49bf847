-- ===== src/Collect/Perf.antt =====
-- src/perf.cc, on Linux.
use archspec.Base.{ℕ, Bool, true, false, not, ◌&&◌, List, [], ◌∷◌, Bytes, codes, if◌then◌else◌}
use archspec.Report.Field.{
  unsupported, perm_denied, internal_error, available, of_value, unavailable, BoolField, I64Field,
  bool_default, int_default,
}
use archspec.Report.Perf.{PerfCounterAvailability, PerfCounterInfo}
use archspec.Report.Options.{CollectOptions}
use archspec.Host.{
  Files, Host, PerfOpen, opened, eacces, eperm, enodev, enoent, eopnotsupp, einval, other_errno,
}
use archspec.Read.{proc_path, read_i64_field}
use archspec.Collect.CpuFlags.{CpuFlags, cpu_flags, bool_from_flag, any_flag}

unfoldable pub flag_field : CpuFlags → Bytes → BoolField
flag_field result name =
    if available result.status then bool_from_flag result.flags name else unavailable result.status

unfoldable pub any_flag_field : CpuFlags → List Bytes → BoolField
any_flag_field result names =
    if available result.status then any_flag result.flags names else unavailable result.status

-- the body is that of `read_i64_field`, written again
abbrev pub read_perf_event_paranoid : Files → CollectOptions → I64Field
read_perf_event_paranoid h o =
    read_i64_field h (proc_path o (codes "/sys/kernel/perf_event_paranoid"))

-- what the answer of the kernel says of a counter
unfoldable pub probe_result : PerfOpen → BoolField
probe_result opened = of_value true
probe_result eacces = unavailable perm_denied
probe_result eperm = unavailable perm_denied
probe_result enodev = of_value false
probe_result enoent = of_value false
probe_result eopnotsupp = of_value false
probe_result einval = of_value false
probe_result other_errno = unavailable internal_error

-- a field that only an x86 processor has
unfoldable pub x86_field : CpuFlags → BoolField → BoolField
x86_field flags field =
    if available flags.status && not flags.x86 then unavailable unsupported else field

module _ (h : Host) where
  unfoldable pub probe_hardware_counter : ℕ → Bool → BoolField
  unfolding probe_result
  probe_hardware_counter config allow_probe =
      if not allow_probe then unavailable unsupported else probe_result (h.perf_event_open config)

  -- The numbers are those of `enum perf_hw_id`.
  unfoldable pub hardware_counter_availability : Bool → PerfCounterAvailability
  unfolding probe_hardware_counter
  hardware_counter_availability allow_probe = record {
    cpu_cycles = probe_hardware_counter 0 allow_probe;
    instructions = probe_hardware_counter 1 allow_probe;
    cache_references = probe_hardware_counter 2 allow_probe;
    cache_misses = probe_hardware_counter 3 allow_probe;
    branch_instructions = probe_hardware_counter 4 allow_probe;
    branch_misses = probe_hardware_counter 5 allow_probe;
    bus_cycles = probe_hardware_counter 6 allow_probe;
    ref_cpu_cycles = probe_hardware_counter 9 allow_probe;
  }

  unfoldable pub perf_flags : CollectOptions → CpuFlags
  perf_flags o = cpu_flags h.files o (codes "flags" ∷ codes "Features" ∷ codes "isa" ∷ [])

  unfoldable pub collect_perf : CollectOptions → PerfCounterInfo
  collect_perf o =
      let flags = perf_flags o in
      record {
        perf_event_paranoid = read_perf_event_paranoid h.files o;
        available = hardware_counter_availability o.allow_perf_open;
        rdtsc_available = x86_field flags (flag_field flags (codes "tsc"));
        rdtscp_available = x86_field flags (flag_field flags (codes "rdtscp"));
        invariant_tsc =
            x86_field flags
              (any_flag_field flags (codes "constant_tsc" ∷ codes "nonstop_tsc" ∷ []));
      }
