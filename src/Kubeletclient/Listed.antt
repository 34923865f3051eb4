-- ===== src/Kubeletclient/Listed.antt =====
-- The devices of a resource, as the kubelet lists them for a pod.
use mathlib.Core.List.{append-nil}
use multus_cni.Base.{
  String, ◌≡◌, ◌≢◌, sym, Bool-cases, inl, inr, ◌&&◌, List, [], ◌∷◌, ◌++◌, ◌==◌, string_eq,
  if◌then◌else◌, arith,
}
use multus_cni.Base.Result.{ok}
use multus_cni.Base.Dict.{lookup}
use multus_cni.Types.{ResourceMap}
use multus_cni.K8sclient.Client.{Pod}
use multus_cni.Kubeletclient.{
  ContainerDevices, DynamicResource, Container, PodResources, claim_ids,
  get_device_plugin_resources, get_dra_resources, add_containers, add_pods, kubelet_resource_map,
}
use multus_cni.Resources.{devices, devices-add_ids, append_twice}

-- The devices of a resource from device plugins, from claims, of containers, and of a pod, each in
-- the order of the list.
abbrev pub plugin_ids : String → List ContainerDevices → List String
plugin_ids r [] = []
plugin_ids r (dev ∷ devs) =
    (if r == dev.resource_name then dev.device_ids else []) ++ plugin_ids r devs

abbrev pub dra_ids : String → List DynamicResource → List String
dra_ids r [] = []
dra_ids r (dynamic ∷ more) =
    (if r == dynamic.class_name then claim_ids dynamic.claim_resources else []) ++ dra_ids r more

abbrev pub container_ids : String → List Container → List String
container_ids r [] = []
container_ids r (cnt ∷ more) =
    (plugin_ids r cnt.devices ++ dra_ids r cnt.dynamic_resources) ++ container_ids r more

abbrev pub pod_ids : String → String → String → List PodResources → List String
pod_ids name ns r [] = []
pod_ids name ns r (pr ∷ more) =
    (if pr.name == name && pr.namespace == ns then container_ids r pr.containers else [])
    ++ pod_ids name ns r more

module _ (r : String) where
  devices-plugin_ids :
      (devs : List ContainerDevices) (m : ResourceMap)
      → devices r (get_device_plugin_resources devs m) ≡ devices r m ++ plugin_ids r devs
  unfolding get_device_plugin_resources
  devices-plugin_ids [] m = sym (append-nil (devices r m))
  devices-plugin_ids (dev ∷ devs) m =
      append_twice _ _ _ (devices-add_ids r dev.resource_name dev.device_ids m)
        (devices-plugin_ids devs _)

  devices-dra_ids :
      (dynamic : List DynamicResource) (m : ResourceMap)
      → devices r (get_dra_resources dynamic m) ≡ devices r m ++ dra_ids r dynamic
  unfolding get_dra_resources
  devices-dra_ids [] m = sym (append-nil (devices r m))
  devices-dra_ids (d ∷ more) m =
      append_twice _ _ _ (devices-add_ids r d.class_name (claim_ids d.claim_resources) m)
        (devices-dra_ids more _)

  devices-container_ids :
      (containers : List Container) (m : ResourceMap)
      → devices r (add_containers containers m) ≡ devices r m ++ container_ids r containers
  unfolding add_containers
  devices-container_ids [] m = sym (append-nil (devices r m))
  devices-container_ids (cnt ∷ more) m =
      append_twice _ _ _
        (append_twice _ _ _ (devices-plugin_ids cnt.devices m)
          (devices-dra_ids cnt.dynamic_resources _))
        (devices-container_ids more _)

  devices-pod_ids :
      (name ns : String) (pods : List PodResources) (m : ResourceMap)
      → devices r (add_pods name ns pods m) ≡ devices r m ++ pod_ids name ns r pods
  unfolding add_pods
  devices-pod_ids name ns [] m = sym (append-nil (devices r m))
  devices-pod_ids name ns (pr ∷ more) m =
      elim (Bool-cases (pr.name == name && pr.namespace == ns)) [
        | inl h ↦ rw h (
            append_twice _ _ _ (devices-container_ids pr.containers m)
              (devices-pod_ids name ns more _))
        | inr h ↦ rw h (devices-pod_ids name ns more m)
      ]

-- The kubelet gives a pod with a name and a namespace exactly the devices that it lists for a
-- resource, of all its containers and in their order, those of device plugins before those that
-- the claims of a container name.
pub kubelet_resource_map-pod_ids :
    (resources : List PodResources) (pod : Pod) (r : String)
    → pod.name ≢ ""
    → pod.namespace ≢ ""
    → (m : ResourceMap) × (kubelet_resource_map resources pod ≡ ok m)
      × (devices r m ≡ pod_ids pod.name pod.namespace r resources)
unfolding kubelet_resource_map lookup
kubelet_resource_map-pod_ids resources pod r name ns = (
  add_pods pod.name pod.namespace resources [],
  ground (arith, name, ns),
  devices-pod_ids r pod.name pod.namespace resources [],
)
