-- ===== src/Json/Part/Perf.antt =====
-- src/json.cc: the performance counters as JSON, and as a document.
use archspec.Base.{◌≡◌, [], ◌∷◌, Bytes, codes}
use archspec.Report.Perf.{PerfCounterAvailability, PerfCounterInfo}
use archspec.Json.Writer.{add_bool_field, add_i64_field, add_raw, new_object, object_text, ◌▷◌}
use archspec.Json.Value.{Value, object, print}
use archspec.Json.Builder.{builder_laws, bool_tree, int_tree}

-- the object `available` of `to_json(PerfCounterInfo)`
unfoldable pub available_to_json : PerfCounterAvailability → Bytes
available_to_json available = object_text (
    new_object
    ▷ add_bool_field "cpu_cycles" available.cpu_cycles
    ▷ add_bool_field "instructions" available.instructions
    ▷ add_bool_field "cache_references" available.cache_references
    ▷ add_bool_field "cache_misses" available.cache_misses
    ▷ add_bool_field "branch_instructions" available.branch_instructions
    ▷ add_bool_field "branch_misses" available.branch_misses
    ▷ add_bool_field "bus_cycles" available.bus_cycles
    ▷ add_bool_field "ref_cpu_cycles" available.ref_cpu_cycles)

abbrev pub available_tree : PerfCounterAvailability → Value
available_tree available = object (
    (codes "cpu_cycles", bool_tree available.cpu_cycles)
    ∷ (codes "instructions", bool_tree available.instructions)
    ∷ (codes "cache_references", bool_tree available.cache_references)
    ∷ (codes "cache_misses", bool_tree available.cache_misses)
    ∷ (codes "branch_instructions", bool_tree available.branch_instructions)
    ∷ (codes "branch_misses", bool_tree available.branch_misses)
    ∷ (codes "bus_cycles", bool_tree available.bus_cycles)
    ∷ (codes "ref_cpu_cycles", bool_tree available.ref_cpu_cycles)
    ∷ [])

pub available_to_json-tree :
    (available : PerfCounterAvailability)
    → available_to_json available ≡ print (available_tree available)
unfolding available_to_json
available_to_json-tree available = simp (builder_laws)

-- `to_json(PerfCounterInfo)`
unfoldable pub perf_counter_info_to_json : PerfCounterInfo → Bytes
perf_counter_info_to_json perf_info = object_text (
    new_object
    ▷ add_i64_field "perf_event_paranoid" perf_info.perf_event_paranoid
    ▷ add_raw "available" (available_to_json perf_info.available)
    ▷ add_bool_field "rdtsc_available" perf_info.rdtsc_available
    ▷ add_bool_field "rdtscp_available" perf_info.rdtscp_available
    ▷ add_bool_field "invariant_tsc" perf_info.invariant_tsc)

abbrev pub perf_counter_info_tree : PerfCounterInfo → Value
perf_counter_info_tree perf_info = object (
    (codes "perf_event_paranoid", int_tree perf_info.perf_event_paranoid)
    ∷ (codes "available", available_tree perf_info.available)
    ∷ (codes "rdtsc_available", bool_tree perf_info.rdtsc_available)
    ∷ (codes "rdtscp_available", bool_tree perf_info.rdtscp_available)
    ∷ (codes "invariant_tsc", bool_tree perf_info.invariant_tsc)
    ∷ [])

pub perf_counter_info_to_json-tree :
    (perf_info : PerfCounterInfo)
    → perf_counter_info_to_json perf_info ≡ print (perf_counter_info_tree perf_info)
unfolding perf_counter_info_to_json
perf_counter_info_to_json-tree perf_info = simp (builder_laws, available_to_json-tree)
