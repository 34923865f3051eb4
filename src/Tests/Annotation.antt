-- ===== src/Tests/Annotation.antt =====
-- Names of networks in the annotations of a pod.
use multus_cni.Base.{
  String, ◌≡◌, ◌↔◌, refl, true, false, none, [], ◌∷◌, map, string_eq, nat_eq, arith,
}
use multus_cni.Base.Result.{ok}
use multus_cni.K8sclient.Annotation.{Parsers, is_label, parse_pod_network_annotation}
use multus_cni.K8sclient.Annotation.Names.{IsLabel, is_label_iff}
use multus_cni.K8sclient.Annotation.RoundTrip.{IsWritable}
use multus_cni.K8sclient.Annotation.Lists.{
  Selection, element, written_list, parse_pod_network_annotation-written_list,
}

is_label_iff_example : (is_label "macvlan-1" ≡ true) ↔ IsLabel "macvlan-1"
is_label_iff_example = is_label_iff "macvlan-1"

abbrev namespace : String
namespace = "default"

abbrev network : String
network = "macvlan-1"

abbrev ifname : String
ifname = "net1"

default-IsLabel : IsLabel "default"
unfolding is_label nat_eq
default-IsLabel = (is_label_iff "default").0 refl

macvlan-IsLabel : IsLabel "macvlan-1"
unfolding is_label nat_eq
macvlan-IsLabel = (is_label_iff "macvlan-1").0 refl

net1-IsWritable : IsWritable "default" "macvlan-1" "net1"
net1-IsWritable = record {
  namespace = default-IsLabel;
  network = macvlan-IsLabel;
  interface = ground arith;
  short = ground arith;
}

-- Parsers that know no JSON and no address.
abbrev parsers : Parsers
parsers = record {
  json_networks = λ _. none;
  is_mac = λ _. false;
  is_cidr = λ _. false;
  is_ip = λ _. false;
}

abbrev selection : Selection
selection = ("default", "macvlan-1", "net1")

parse_pod_network_annotation-written_list_example :
    parse_pod_network_annotation parsers (written_list selection (selection ∷ [])) "kube-system"
    ≡ ok (map element (selection ∷ selection ∷ []))
parse_pod_network_annotation-written_list_example =
    parse_pod_network_annotation-written_list parsers "kube-system" selection (selection ∷ [])
      (net1-IsWritable, (net1-IsWritable, tt))
