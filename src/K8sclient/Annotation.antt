-- ===== src/K8sclient/Annotation.antt =====
-- parsePodNetworkObjectName and parsePodNetworkAnnotation: the selection annotations of a pod.
pub mod Names
pub mod RoundTrip
pub mod Lists
use Prim.Native.Char.{Char, code}
use Prim.Native.String.{[], ◌∷◌, len}
use multus_cni.Base.{
  ℕ, String, ◌<>◌, Bool, true, false, not, ◌&&◌, ◌||◌, Option, none, some, List, [], ◌∷◌, map, ltb,
  leb, ◌==◌, nat_eq, string_eq, if◌then◌else◌,
}
use multus_cni.Base.Result.{Result, ok, err, panic, errorf, context, or_err, or_panic, ◌>>=◌, ◌>>◌}
use multus_cni.Types.{NetworkSelectionElement}
use multus_cni.Text.{split, trim_space, contains_any}

-- The characters [a-z0-9] and [-a-z0-9].
abbrev pub is_alnum : ℕ → Bool
is_alnum c = (leb b'a' c && leb c b'z') || (leb b'0' c && leb c b'9')

abbrev pub is_label_char : ℕ → Bool
is_label_char c = is_alnum c || c == b'-'

-- ([-a-z0-9]*[a-z0-9])? up to the end of the text
unfoldable pub label_tail : String → Bool
label_tail [] = true
label_tail (c ∷ []) = is_alnum (code c)
label_tail (c ∷ d ∷ s) = is_label_char (code c) && label_tail (d ∷ s)

-- ^[a-z0-9]([-a-z0-9]*[a-z0-9])?$
unfoldable pub is_label : String → Bool
unfolding label_tail
is_label [] = false
is_label (c ∷ s) = is_alnum (code c) && label_tail s

-- One round of the loop over `allItems`: an empty item is let through.
unfoldable pub check_item : String → Result (Unit {0})
check_item item =
    if is_label item || item == ""
    then ok tt
    else err (
        errorf (
          "parsePodNetworkObjectName: Failed to parse: one or more items did not match, mismatch @ "
          <> item))

-- The characters " \t\n\v\f\r/".
abbrev pub is_bad_in_ifname : ℕ → Bool
is_bad_in_ifname c = c == 32 || (leb 9 c && leb c 13) || c == b'/'

-- syscall.IFNAMSIZ - 1
abbrev pub max_ifname : ℕ
max_ifname = 15

unfoldable pub check_ifname : String → Result (Unit {0})
check_ifname name =
    if not (name == "") && (ltb max_ifname (len name) || contains_any is_bad_in_ifname name)
    then err (
        errorf (
          "parsePodNetworkObjectName: Failed to parse interface name: must be less than 15 chars and not contain '/' or spaces. interface name "
          <> name))
    else ok tt

-- The part before "/" and the part behind it.
split_namespace : List String → Result (String × String)
split_namespace (ns ∷ name ∷ []) = ok (trim_space ns, name)
split_namespace (name ∷ []) = ok ("", name)
split_namespace _ = err (errorf "parsePodNetworkObjectName: Invalid network object (failed at '/')")

-- The part before "@" and the part behind it.
split_interface : List String → Result (String × String)
split_interface (name ∷ ifname ∷ []) = ok (trim_space name, trim_space ifname)
split_interface (name ∷ []) = ok (trim_space name, "")
split_interface _ = err (errorf "parsePodNetworkObjectName: Invalid network object (failed at '@')")

check_names : String → String × String → Result (String × String × String)
unfolding check_item check_ifname
check_names ns (name, ifname) = do
  check_item ns
  check_item name
  check_ifname ifname
  ok (ns, name, ifname)

-- The namespace, the network and the interface of `<namespace>/<network>@<interface>`.
unfoldable pub parse_pod_network_object_name : String → Result (String × String × String)
unfolding split_namespace split_interface check_names
parse_pod_network_object_name podnetwork = do
  (ns, network) ← split_namespace (split b'/' podnetwork)
  names ← split_interface (split b'@' network)
  check_names ns names

-- What the source takes from packages json and net. An element of a JSON list may be null.
pub record Parsers : Type 0 where
  pub json_networks : String → Option (List (Option NetworkSelectionElement))
  pub is_mac : String → Bool
  pub is_cidr : String → Bool
  pub is_ip : String → Bool

abbrev pub named_element : String × String × String → NetworkSelectionElement
named_element (ns, name, ifname) = record {
  name = name;
  namespace = ns;
  ip_request = none;
  mac_request = "";
  infiniband_guid_request = "";
  interface_request = ifname;
  deprecated_interface_request = "";
  port_mappings_request = none;
  bandwidth_request = none;
  device_id = "";
  cni_args = none;
  gateway_request = none;
}

-- The loop over the comma-delimited items.
unfoldable pub parse_items : List String → Result (List (Option NetworkSelectionElement))
parse_items [] = ok []
parse_items (item ∷ rest) = do
  names ← context "parsePodNetworkAnnotation: " (parse_pod_network_object_name (trim_space item))
  more ← parse_items rest
  ok (some (named_element names) ∷ more)

abbrev is_json_char : ℕ → Bool
is_json_char c = c == b'[' || c == b'{' || c == 34

module _ (P : Parsers) where
  parse_networks : String → Result (List (Option NetworkSelectionElement))
  parse_networks pod_networks =
      if contains_any is_json_char pod_networks
      then or_err
          "parsePodNetworkAnnotation: failed to parse pod Network Attachment Selection Annotation JSON format"
          (P.json_networks pod_networks)
      else parse_items (split b',' pod_networks)

  check_mac : String → String → Result (Unit {0})
  check_mac text mac = if mac == "" || P.is_mac mac then ok tt else err (errorf text)

  unfoldable pub is_address : String → Bool
  is_address ip = if contains_any (λ c. c == b'/') ip then P.is_cidr ip else P.is_ip ip

  unfoldable pub check_ips : List String → Result (Unit {0})
  check_ips [] = ok tt
  check_ips (ip ∷ ips) =
      let rest = check_ips ips in
      if is_address ip then rest else err (errorf ("failed to parse IP address " <> ip))

  check_ip_request : Option (List String) → Result (Unit {0})
  unfolding check_ips
  check_ip_request none = ok tt
  check_ip_request (some ips) = check_ips ips

  -- The changes that one round of the last loop makes to its element.
  abbrev pub completed : String → NetworkSelectionElement → NetworkSelectionElement
  completed default_namespace n = record n {
    namespace = if n.namespace == "" then default_namespace else n.namespace;
    interface_request =
        if not (n.deprecated_interface_request == "") && n.interface_request == ""
        then n.deprecated_interface_request
        else n.interface_request;
  }

  unfoldable pub check_element :
      String → Option NetworkSelectionElement → Result NetworkSelectionElement
  unfolding check_mac check_ip_request is_address
  check_element default_namespace element = do
    n ← or_panic element
    check_mac "parsePodNetworkAnnotation: failed to mac" n.mac_request
    check_mac "parsePodNetworkAnnotation: failed to validate infiniband GUID"
        n.infiniband_guid_request
    check_ip_request n.ip_request
    ok (completed default_namespace n)

  unfoldable pub check_elements :
      String → List (Option NetworkSelectionElement) → Result (List NetworkSelectionElement)
  unfolding check_element
  check_elements default_namespace [] = ok []
  check_elements default_namespace (n ∷ networks) = do
    checked ← check_element default_namespace n
    rest ← check_elements default_namespace networks
    ok (checked ∷ rest)

  unfoldable pub parse_pod_network_annotation :
      String → String → Result (List NetworkSelectionElement)
  unfolding parse_networks parse_items check_elements
  parse_pod_network_annotation pod_networks default_namespace =
      if pod_networks == ""
      then err (errorf "parsePodNetworkAnnotation: pod annotation does not have \"network\" as key")
      else parse_networks pod_networks >>= check_elements default_namespace
