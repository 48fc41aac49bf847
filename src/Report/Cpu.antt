-- ===== src/Report/Cpu.antt =====
-- include/aview.hh: the description of the processors.
use archspec.Base.{Bytes, List, codes}
use archspec.Report.Field.{
  BoolField, StringField, U32Field, U64Field, Default, init, bool_default, field_default,
  list_default, nat_default,
}

pub data ArchType : Type 0 where
  unknown x86 x86_64 arm aarch64 riscv32 riscv64 ppc64 s390x : ArchType

-- `to_string(ArchType)`
unfoldable pub arch_text : ArchType → Bytes
arch_text unknown = codes "unknown"
arch_text x86 = codes "x86"
arch_text x86_64 = codes "x86_64"
arch_text arm = codes "arm"
arch_text aarch64 = codes "aarch64"
arch_text riscv32 = codes "riscv32"
arch_text riscv64 = codes "riscv64"
arch_text ppc64 = codes "ppc64"
arch_text s390x = codes "s390x"

pub record CpuTopologyEntry : Type 0 where
  pub logical_id : U32Field
  pub core_id : U32Field
  pub package_id : U32Field
  pub numa_node : U32Field
  pub thread_siblings_mask : StringField
  pub core_siblings_mask : StringField

instance unfoldable pub cpu_topology_entry_default : Default CpuTopologyEntry
cpu_topology_entry_default = record {
  default = record {
    logical_id = init;
    core_id = init;
    package_id = init;
    numa_node = init;
    thread_siblings_mask = init;
    core_siblings_mask = init;
  };
}

pub record CpuInfo : Type 0 where
  pub arch : ArchType
  pub arch_name : StringField
  pub vendor : StringField
  pub brand : StringField
  pub model_name : StringField
  pub present_cpu_count : U64Field
  pub online_cpu_count : U64Field
  pub possible_cpu_count : U64Field
  pub sockets : U64Field
  pub cores_per_socket : U64Field
  pub threads_per_core : U64Field
  pub family : U64Field
  pub model : U64Field
  pub stepping : U64Field
  pub microcode : StringField
  pub physical_address_bits : U64Field
  pub virtual_address_bits : U64Field
  pub is_virtualized : BoolField
  pub hypervisor_vendor : StringField
  pub topology : List CpuTopologyEntry

-- The member `arch` has no initialiser: its value is the argument.
unfoldable pub cpu_info_with : ArchType → CpuInfo
cpu_info_with arch = record {
  arch = arch;
  arch_name = init;
  vendor = init;
  brand = init;
  model_name = init;
  present_cpu_count = init;
  online_cpu_count = init;
  possible_cpu_count = init;
  sockets = init;
  cores_per_socket = init;
  threads_per_core = init;
  family = init;
  model = init;
  stepping = init;
  microcode = init;
  physical_address_bits = init;
  virtual_address_bits = init;
  is_virtualized = init;
  hypervisor_vendor = init;
  topology = init;
}
