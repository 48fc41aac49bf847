-- ===== src/Report/Memory.antt =====
-- include/aview.hh: the description of the memory.
use archspec.Base.{List}
use archspec.Report.Field.{
  BoolField, StringField, U32Field, U64Field, Default, init, bool_default, field_default,
  list_default, nat_default,
}

pub record NumaNodeInfo : Type 0 where
  pub node_id : U32Field
  pub total_kb : U64Field
  pub free_kb : U64Field
  pub cpu_list : StringField

instance unfoldable pub numa_node_info_default : Default NumaNodeInfo
numa_node_info_default = record {
  default = record { node_id = init; total_kb = init; free_kb = init; cpu_list = init };
}

pub record MemoryInfo : Type 0 where
  pub total_kb : U64Field
  pub free_kb : U64Field
  pub available_kb : U64Field
  pub buffers_kb : U64Field
  pub cached_kb : U64Field
  pub swap_total_kb : U64Field
  pub swap_free_kb : U64Field
  pub page_size_bytes : U64Field
  pub hugepage_size_kb : U64Field
  pub hugepages_total : U64Field
  pub hugepages_free : U64Field
  pub transparent_hugepages_enabled : BoolField
  pub numa_nodes : List NumaNodeInfo

instance unfoldable pub memory_info_default : Default MemoryInfo
memory_info_default = record {
  default = record {
    total_kb = init;
    free_kb = init;
    available_kb = init;
    buffers_kb = init;
    cached_kb = init;
    swap_total_kb = init;
    swap_free_kb = init;
    page_size_bytes = init;
    hugepage_size_kb = init;
    hugepages_total = init;
    hugepages_free = init;
    transparent_hugepages_enabled = init;
    numa_nodes = init;
  };
}
