-- ===== src/Collect/Net.antt =====
-- src/net.cc, on a POSIX host.
pub mod Grouped
use archspec.Base.{
  not, List, [], ◌∷◌, ◌++◌, Bytes, Option, none, some, codes, if◌then◌else◌, eq_bytes, ℤ, pos,
  negsuc,
}
use archspec.Base.Dict.{Dict, lookup, insert}
use archspec.Text.{join_path}
use archspec.Report.Field.{
  of_value, unavailable, not_found, I64Field, U64Field, StringField, nat_default, list_default,
}
use archspec.Report.Net.{NetInterfaceInfo, NetInterfaceList}
use archspec.Report.Options.{CollectOptions}
use archspec.Host.{Files, Host, Address, no_address, other_family, inet, inet6}
use archspec.Read.{
  sys_path, list_dir, read_string_field, read_u64_field, read_i64_field,
  read_symlink_basename_field, path_is_dir,
}
use archspec.Collect.Block.{read_bool_number}
use archspec.Collect.Os.{redact}

pub record InterfaceAddresses : Type 0 where
  pub ipv4 : List Bytes
  pub ipv6 : List Bytes

unfoldable pub join_values : List Bytes → Bytes
join_values [] = []
join_values (value ∷ []) = value
join_values (value ∷ next ∷ values) = value ++ b',' ∷ join_values (next ∷ values)

abbrev pub Addresses : Type 0
Addresses = Dict InterfaceAddresses

-- `addresses[name]`, which is empty where the name is new
abbrev pub addresses_of : Bytes → Addresses → InterfaceAddresses
addresses_of name addresses = elim (lookup name addresses) [
  | none ↦ record { ipv4 = []; ipv6 = [] }
  | some found ↦ found
]

-- one entry of `getifaddrs`
unfoldable pub add_address : Bytes → Address → Addresses → Addresses
add_address name no_address addresses = addresses
add_address name other_family addresses = addresses
add_address name (inet none) addresses = addresses
add_address name (inet (some text)) addresses =
    let found = addresses_of name addresses in
    insert name (record found { ipv4 = found.ipv4 ++ text ∷ [] }) addresses
add_address name (inet6 none) addresses = addresses
add_address name (inet6 (some text)) addresses =
    let found = addresses_of name addresses in
    insert name (record found { ipv6 = found.ipv6 ++ text ∷ [] }) addresses

unfoldable pub add_addresses : List (Bytes × Address) → Addresses → Addresses
unfolding add_address
add_addresses [] addresses = addresses
add_addresses ((name, address) ∷ entries) addresses =
    add_addresses entries (add_address name address addresses)

unfoldable pub collect_addresses : Host → CollectOptions → Addresses
unfolding add_addresses
collect_addresses h o =
    if not (eq_bytes o.sysfs_root (codes "/sys"))
    then []
    else elim h.getifaddrs [ none ↦ [] | some interfaces ↦ add_addresses interfaces [] ]

-- `read_speed_mbps`, on the field that it reads: a negative speed is an unknown one
unfoldable pub speed_of : I64Field → U64Field
speed_of value = if not value.valid then unavailable value.status else speed value.value
  where
    speed : ℤ → U64Field
    speed (pos n) = of_value n
    speed (negsuc n) = unavailable not_found

-- the addresses of an interface, joined
unfoldable pub address_field :
    (InterfaceAddresses → List Bytes) → Option InterfaceAddresses → StringField
unfolding join_values
address_field part none = unavailable not_found
address_field part (some found) = of_value (join_values (part found))

module _ (h : Files) (o : CollectOptions) (addresses : Addresses) where
  unfoldable pub net_interface : Bytes → Bytes → NetInterfaceInfo
  net_interface path name =
      let found = lookup name addresses in
      record {
        name = of_value name;
        mac_address = redact o (read_string_field h (join_path path (codes "address")));
        ipv4_addresses = redact o (address_field (λ a. a.ipv4) found);
        ipv6_addresses = redact o (address_field (λ a. a.ipv6) found);
        mtu = read_u64_field h (join_path path (codes "mtu"));
        speed_mbps = speed_of (read_i64_field h (join_path path (codes "speed")));
        duplex = read_string_field h (join_path path (codes "duplex"));
        carrier = read_bool_number h (join_path path (codes "carrier"));
        driver = read_symlink_basename_field h (join_path path (codes "device/driver"));
      }

  unfoldable pub net_interfaces : Bytes → List Bytes → List NetInterfaceInfo
  net_interfaces root [] = []
  net_interfaces root (name ∷ names) =
      let path = join_path root name in
      if not (path_is_dir h path)
      then net_interfaces root names
      else net_interface path name ∷ net_interfaces root names

unfoldable pub collect_net : Host → CollectOptions → NetInterfaceList
collect_net h o =
    let root = sys_path o (codes "/class/net") in
    record {
      entries = net_interfaces h.files o (collect_addresses h o) root (list_dir h.files root);
    }
