-- ===== src/Report/Perf.antt =====
-- include/aview.hh: the performance counters.
use archspec.Report.Field.{
  BoolField, I64Field, Default, init, bool_default, field_default, int_default,
}

pub record PerfCounterAvailability : Type 0 where
  pub cpu_cycles : BoolField
  pub instructions : BoolField
  pub cache_references : BoolField
  pub cache_misses : BoolField
  pub branch_instructions : BoolField
  pub branch_misses : BoolField
  pub bus_cycles : BoolField
  pub ref_cpu_cycles : BoolField

instance unfoldable pub perf_counter_availability_default : Default PerfCounterAvailability
perf_counter_availability_default = record {
  default = record {
    cpu_cycles = init;
    instructions = init;
    cache_references = init;
    cache_misses = init;
    branch_instructions = init;
    branch_misses = init;
    bus_cycles = init;
    ref_cpu_cycles = init;
  };
}

pub record PerfCounterInfo : Type 0 where
  pub perf_event_paranoid : I64Field
  pub available : PerfCounterAvailability
  pub rdtsc_available : BoolField
  pub rdtscp_available : BoolField
  pub invariant_tsc : BoolField

instance unfoldable pub perf_counter_info_default : Default PerfCounterInfo
perf_counter_info_default = record {
  default = record {
    perf_event_paranoid = init;
    available = init;
    rdtsc_available = init;
    rdtscp_available = init;
    invariant_tsc = init;
  };
}
