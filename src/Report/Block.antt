-- ===== src/Report/Block.antt =====
-- include/aview.hh: the block devices.
use archspec.Base.{List}
use archspec.Report.Field.{
  BoolField, StringField, U64Field, Default, init, bool_default, field_default, list_default,
  nat_default,
}

pub record BlockDeviceInfo : Type 0 where
  pub name : StringField
  pub model : StringField
  pub vendor : StringField
  pub path : StringField
  pub rotational : BoolField
  pub size_bytes : U64Field
  pub logical_block_size : U64Field
  pub physical_block_size : U64Field
  pub scheduler : StringField

instance unfoldable pub block_device_info_default : Default BlockDeviceInfo
block_device_info_default = record {
  default = record {
    name = init;
    model = init;
    vendor = init;
    path = init;
    rotational = init;
    size_bytes = init;
    logical_block_size = init;
    physical_block_size = init;
    scheduler = init;
  };
}

pub record BlockDeviceList : Type 0 where
  pub entries : List BlockDeviceInfo

instance unfoldable pub block_device_list_default : Default BlockDeviceList
block_device_list_default = record { default = record { entries = init } }
