-- ===== src/Report/Net.antt =====
-- include/aview.hh: the network interfaces.
use archspec.Base.{List}
use archspec.Report.Field.{
  BoolField, StringField, U64Field, Default, init, bool_default, field_default, list_default,
  nat_default,
}

pub record NetInterfaceInfo : Type 0 where
  pub name : StringField
  pub mac_address : StringField
  pub ipv4_addresses : StringField
  pub ipv6_addresses : StringField
  pub mtu : U64Field
  pub speed_mbps : U64Field
  pub duplex : StringField
  pub carrier : BoolField
  pub driver : StringField

instance unfoldable pub net_interface_info_default : Default NetInterfaceInfo
net_interface_info_default = record {
  default = record {
    name = init;
    mac_address = init;
    ipv4_addresses = init;
    ipv6_addresses = init;
    mtu = init;
    speed_mbps = init;
    duplex = init;
    carrier = init;
    driver = init;
  };
}

pub record NetInterfaceList : Type 0 where
  pub entries : List NetInterfaceInfo

instance unfoldable pub net_interface_list_default : Default NetInterfaceList
net_interface_list_default = record { default = record { entries = init } }
