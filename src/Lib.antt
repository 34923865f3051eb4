-- ===== src/Lib.antt =====
-- The core of Multus, the CNI meta-plugin that attaches a pod to several networks.
--
-- Multus reads its own configuration (pkg/types/conf.go, LoadNetConf). For a pod it then collects
-- delegates: those of the configuration or of the cluster network, the default networks, and those
-- that the annotations of the pod select (pkg/k8sclient/k8sclient.go). Each delegate is a CNI
-- configuration with the requests of its selection and, where its resource has devices, with one of
-- them. A delegate is called with a runtime configuration that merges all of these, and where a
-- selection asks for a default route the cached result of a plugin is rewritten
-- (pkg/netutils/netutils.go). The commands check and delete the delegates one by one, and keep on
-- deleting when a plugin fails (pkg/multus/multus.go). An addition that fails is torn down again, and
-- its delegates are kept in a file for the deletion. The daemon generates the configuration of Multus
-- from that of the primary plugin and follows its changes (pkg/server/config), and runs the commands
-- for the requests that a shim sends (pkg/server/server.go). A controller of its own
-- approves the certificates of the nodes (cmd/cert-approver/main.go). The thin image has no daemon: its
-- entry point copies the plugin, writes the kubeconfig and the configuration, and regenerates both
-- while they change (cmd/thin_entrypoint/main.go).
--
-- Base holds equality tests, lists, maps and the results of Go functions: a value, an error with
-- its text and kind, or a panic. Json is the part of encoding/json that the source uses on values
-- of type interface{}; byte strings are modelled up to what they parse to. Text is the part of
-- package strings, on the code points of a text, and Os a map of files with faults.
--   Types                 pkg/types/types.go, the structures of the same names
--   Conf/Inject           delegateAddDeviceID, addDeviceIDInConfList, injectCNIArgs, addCNIArgsIn*
--   Conf/Delegate         LoadDelegateNetConf and LoadDelegateNetConfList
--   Conf/Runtime          CreateCNIRuntimeConf and the functions that it calls
--   Conf/Gateway          CheckGatewayConfig and CheckSystemNamespaces
--   Conf/Netconf          LoadNetConf, GetDefaultNetConf and AddDelegates
--   K8sclient/Annotation  parsePodNetworkObjectName and parsePodNetworkAnnotation
--   K8sclient/Client      the client, its construction in GetK8sClient, and IsStaticPod
--   K8sclient/Device      getKubernetesDelegate and the device that it takes
--   K8sclient/Delegates   GetNetworkDelegates, GetPodNetwork, TryLoadPodDelegates
--   K8sclient/Defaults    getNetDelegate and GetDefaultNetworks
--   K8sclient/Status      SetNetworkStatus and SetPodNetworkStatusAnnotation
--   Conf/Readiness        GetReadinessIndicatorFile and ReadinessIndicatorExistsNow
--   Checkpoint            pkg/checkpoint/checkpoint.go
--   Kubeletclient         pkg/kubeletclient/kubeletclient.go; Resources has the map both build
--   Multus/Plugins        DelegateAdd, DelegateCheck, DelegateDel and the functions around libcni
--   Multus/Commands       getIfname, delPlugins and CmdCheck (pkg/multus/multus.go)
--   Multus/Pod            GetPod, cmdErr and isCriticalRequestRetriable
--   Multus/Scratch        saveDelegates, consumeScratchNetConf, and the cached delegates of CmdDel
--   Multus/Attach         the loop of CmdAdd over the delegates; Multus/Add is CmdAdd around it
--   Multus/Del            CmdDel
--   Multus/Gc             CmdStatus, CmdGC and gatherValidAttachmentsFromCache
--   Server/Config         pkg/server/config: Generator and Manager are the files of these names,
--                         Primary is findMasterPlugin of generator.go, and Monitor is the loop of
--                         manager.go that watches the files
--   Netutils/Delete, Add  the removal and the addition of default routes in a result
--   Netutils/Cache        the cached result as a file
--   Netutils/Routes       DeleteDefaultGW and SetDefaultGW, on a table of routes
--   Server/Api            the requests that pkg/server/api makes; Server/Api/Shim is the shim itself
--   Server/Requests       the requests of pkg/server/server.go, and Server/Handlers their handlers
--   Server/Start          LoadDaemonNetConf and NewCNIServer, and Server/Router the endpoints
--   MultusDaemon          cmd/multus-daemon/main.go
--   CertApprover          cmd/cert-approver/main.go
--   Logging               pkg/logging/logging.go
--   Disk                  files as texts, for the two modules below
--   Cmdutils              pkg/cmdutils/utils.go
--   ThinEntrypoint        cmd/thin_entrypoint/main.go
-- A child of such a module is a part of it, or holds proofs about it and is named for what they
-- show. Tests applies the theorems to concrete inputs.
--
-- Every loop of these parts runs over a list or down an index. The one fuel is that of the digits of
-- a number in Multus/Commands, which is above the number. What plugins answer is a function of all
-- the calls before, so it can change from one call to the next. The polling of GetPod runs over the
-- answers that come before its timeout. A function that changes a map or
-- a list that its caller shares returns the changed one: Allocated pairs the result of a function of
-- k8sclient with the resource map behind it. The calls of the logger are left out of the other parts,
-- except in the shim; Logging models the logger itself. The API server, the kubelet, the
-- CNI library and the JSON decoders of structures are fields of records that the definitions take.
-- The commands run on a World: the calls that were made, the files, and the routes of each
-- namespace. The number of tries of the search for the primary plugin is that of the source; what a
-- directory lists can change between them. The loop of the daemon is a relation on its states, with
-- one step for each signal and one for a change of the files by other processes.
-- The entry point and the copies run on a Disk, whose calls can each be refused, and whose refused
-- writes leave a part of the text; the text of a file stands for its bytes. What other processes do
-- before each round of the watch loop is a list of changes, and a signal is the end of the list.
-- Not modelled: the metrics and the informers of the HTTP server, the HTTP client and its polling,
-- events and other calls that are only passed on, and the flags of the programs.
pub mod Base
pub mod Json
pub mod Types
pub mod Os
pub mod Netutils
pub mod Text
pub mod Resources
pub mod Checkpoint
pub mod Kubeletclient
pub mod K8sclient
pub mod Conf
pub mod Multus
pub mod Server
pub mod CertApprover
pub mod Logging
pub mod Disk
pub mod Cmdutils
pub mod ThinEntrypoint
pub mod MultusDaemon
pub mod Tests
