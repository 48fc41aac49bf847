-- ===== src/Json/Part/Net.antt =====
-- src/json.cc: the network interfaces as JSON, and as a document.
use archspec.Base.{◌≡◌, [], ◌∷◌, Bytes, codes, map}
use archspec.Report.Net.{NetInterfaceInfo, NetInterfaceList}
use archspec.Json.Writer.{
  add_bool_field, add_raw, add_string_field, add_u64_field, new_object, object_text, vector_to_json,
  ◌▷◌,
}
use archspec.Json.Value.{Value, array, object, print}
use archspec.Json.Builder.{builder_laws, bool_tree, number_tree, string_tree, vector_to_json-tree}

unfoldable pub net_interface_to_json : NetInterfaceInfo → Bytes
net_interface_to_json net = object_text (
    new_object
    ▷ add_string_field "name" net.name
    ▷ add_string_field "mac_address" net.mac_address
    ▷ add_string_field "ipv4_addresses" net.ipv4_addresses
    ▷ add_string_field "ipv6_addresses" net.ipv6_addresses
    ▷ add_u64_field "mtu" net.mtu
    ▷ add_u64_field "speed_mbps" net.speed_mbps
    ▷ add_string_field "duplex" net.duplex
    ▷ add_bool_field "carrier" net.carrier
    ▷ add_string_field "driver" net.driver)

abbrev pub net_interface_tree : NetInterfaceInfo → Value
net_interface_tree net = object (
    (codes "name", string_tree net.name)
    ∷ (codes "mac_address", string_tree net.mac_address)
    ∷ (codes "ipv4_addresses", string_tree net.ipv4_addresses)
    ∷ (codes "ipv6_addresses", string_tree net.ipv6_addresses)
    ∷ (codes "mtu", number_tree net.mtu)
    ∷ (codes "speed_mbps", number_tree net.speed_mbps)
    ∷ (codes "duplex", string_tree net.duplex)
    ∷ (codes "carrier", bool_tree net.carrier)
    ∷ (codes "driver", string_tree net.driver)
    ∷ [])

pub net_interface_to_json-tree :
    (net : NetInterfaceInfo) → net_interface_to_json net ≡ print (net_interface_tree net)
unfolding net_interface_to_json
net_interface_to_json-tree net = simp (builder_laws)

-- `to_json(NetInterfaceList)`
unfoldable pub net_interface_list_to_json : NetInterfaceList → Bytes
net_interface_list_to_json net_interfaces =
    object_text
      (new_object ▷ add_raw "entries" (vector_to_json net_interface_to_json net_interfaces.entries))

abbrev pub net_interface_list_tree : NetInterfaceList → Value
net_interface_list_tree net_interfaces =
    object ((codes "entries", array (map net_interface_tree net_interfaces.entries)) ∷ [])

pub net_interface_list_to_json-tree :
    (net_interfaces : NetInterfaceList)
    → net_interface_list_to_json net_interfaces ≡ print (net_interface_list_tree net_interfaces)
unfolding net_interface_list_to_json
net_interface_list_to_json-tree net_interfaces = simp (
  builder_laws,
  vector_to_json-tree net_interface_to_json net_interface_tree net_interface_to_json-tree,
)
