-- ===== src/Multus/Gc.antt =====
-- CmdStatus and CmdGC, with the attachments that the cache of libcni holds.
pub mod Attachments
use multus_cni.Base.{
  String, ◌<>◌, Bool, true, false, ◌||◌, Option, none, some, List, [], ◌∷◌, ◌==◌, string_eq,
  if◌then◌else◌,
}
use multus_cni.Base.Result.{
  Result, ok, err, panic, Error, errorf, context, ◌>>=◌ as ◌then◌, ◌>>◌ as ◌also◌,
}
use multus_cni.Json.{Bytes}
use multus_cni.Os.{Os, read_file}
use multus_cni.Types.{DelegateNetConf, NetConf, CmdArgs}
use multus_cni.Conf.Netconf.{load_net_conf}
use multus_cni.K8sclient.Client.{Client, get_k8s_client}
use multus_cni.Multus.Add.{blame, await_ready, add_defaults}
use multus_cni.Multus.Host.{Host}
use multus_cni.Multus.World.{restated}

-- cnitypes.GCAttachment: a container and an interface of it.
pub record Attachment : Type 0 where
  pub container_id : String
  pub if_name : String

-- What the two commands ask of libraries: os.ReadDir, json.Unmarshal of the two names of a cached
-- result, ConfListFromBytes, and the operations of libcni on a list of configurations.
pub record Operations : Type 0 where
  pub read_dir : String → Result (List String)
  pub cached_names : Bytes → Option (String × String)
  pub parse_list : Bytes → Option Error
  pub status_list : Bytes → Option Error
  pub gc_list : Bytes → List Attachment → Option Error

module _ (quote : String → String) where
  require_names : Option (String × String) → Result (String × String)
  require_names none = err (errorf "getValidAttachmentFromCache: invalid json")
  require_names (some (id, name)) =
      if id == "" || name == ""
      then err (errorf ("invalid cache: containerID:" <> quote id <> ", ifName:" <> quote name))
      else ok (id, name)

  unfoldable pub get_valid_attachment_from_cache : Operations → Bytes → Result (String × String)
  unfolding require_names
  get_valid_attachment_from_cache G bytes = require_names (G.cached_names bytes)

  -- The attachment is appended unless there is an error.
  pick : Result (String × String) → Result (List Attachment) → Result (List Attachment)
  pick (ok (id, name)) rest =
      rest then λ more. ok (record { container_id = id; if_name = name } ∷ more)
  pick (err e) rest = rest
  pick panic rest = panic

  -- The loop over the entries of the directory.
  unfoldable pub gather_entries : Operations → Os → String → List String → Result (List Attachment)
  unfolding pick get_valid_attachment_from_cache
  gather_entries G os dir [] = ok []
  gather_entries G os dir (name ∷ names) =
      pick (read_file os (os.join (dir ∷ name ∷ [])) then get_valid_attachment_from_cache G)
        (gather_entries G os dir names)

  unfoldable pub gather_valid_attachments_from_cache :
      Operations → Os → String → Result (List Attachment)
  unfolding gather_entries
  gather_valid_attachments_from_cache G os cni_dir =
      let dir = os.join (cni_dir ∷ "results" ∷ []) in G.read_dir dir then gather_entries G os dir

-- The error of a library in the words of a command.
abbrev pub of_fault : String → Option Error → Result (Unit {0})
of_fault what none = ok tt
of_fault what (some e) = err (errorf (what <> e.text))

-- `n.Delegates[0]`
abbrev pub first : NetConf → Result DelegateNetConf
first conf = elim conf.delegates [ [] ↦ panic | d ∷ _ ↦ ok d ]

module _ (H : Host) (G : Operations) (args : CmdArgs) where
  -- What both commands begin with: the first delegate of the configuration and the directory of
  -- the cache.
  unfoldable pub first_delegate : Option Client → Result (NetConf × DelegateNetConf)
  unfolding await_ready add_defaults
  first_delegate client =
      restated (blame none "error loading netconf: ") (load_net_conf H.reader args.stdin_data)
      then λ conf.
          restated (blame none "error getting k8s client: ")
            (get_k8s_client H.factory conf.kubeconfig client)
          then λ found.
              await_ready H none conf
              also (add_defaults H (blame none "failed to get clusterNetwork: ") none conf found
                  then λ defaults. first defaults.0 then λ d.
                      of_fault "error in converting the raw bytes to conf: " (G.parse_list d.bytes)
                      also ok (defaults.0, d))

  unfoldable pub cmd_status : Option Client → Result (Unit {0})
  unfolding first_delegate
  cmd_status client = first_delegate client then λ (conf, d).
      of_fault "error in STATUS command: " (G.status_list d.bytes)

  unfoldable pub cmd_gc : Os → Option Client → Result (Unit {0})
  unfolding first_delegate gather_valid_attachments_from_cache
  cmd_gc os client = first_delegate client then λ (conf, d).
      context "error in gather valid attachments: "
        (gather_valid_attachments_from_cache H.codec.quote G os conf.cni_dir)
      then λ attachments. of_fault "error in GC command: " (G.gc_list d.bytes attachments)
