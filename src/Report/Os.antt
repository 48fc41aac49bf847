-- ===== src/Report/Os.antt =====
-- include/aview.hh: the description of the operating system.
use archspec.Report.Field.{
  StringField, U64Field, Default, init, field_default, list_default, nat_default,
}

pub record OsInfo : Type 0 where
  pub kernel_name : StringField
  pub kernel_version : StringField
  pub kernel_release : StringField
  pub machine : StringField
  pub hostname : StringField
  pub distro_name : StringField
  pub distro_version : StringField
  pub distro_id : StringField
  pub cmdline : StringField
  pub page_size : U64Field
  pub word_size : U64Field
  pub endianness : StringField

instance unfoldable pub os_info_default : Default OsInfo
os_info_default = record {
  default = record {
    kernel_name = init;
    kernel_version = init;
    kernel_release = init;
    machine = init;
    hostname = init;
    distro_name = init;
    distro_version = init;
    distro_id = init;
    cmdline = init;
    page_size = init;
    word_size = init;
    endianness = init;
  };
}
