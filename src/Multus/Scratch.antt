-- ===== src/Multus/Scratch.antt =====
-- saveScratchNetConf, saveDelegates, consumeScratchNetConf and what CmdDel makes of the file that
-- they share; getValidAttachmentFromCache and gatherValidAttachmentsFromCache.
pub mod RoundTrip
use multus_cni.Base.{
  String, ◌<>◌, Bool, true, false, ◌||◌, Option, none, some, List, [], ◌∷◌, map, ◌==◌, string_eq,
  if◌then◌else◌,
}
use multus_cni.Base.Result.{Result, ok, err, panic, Error, errorf, wrap, ◌>>=◌}
use multus_cni.Json.{Bytes}
use multus_cni.Os.{Os, read_file, write_file}
use multus_cni.Types.{CniConf, DelegateNetConf}
use multus_cni.Conf.Netconf.{mark_master}

-- What the operating system and encoding/json give: the error of os.MkdirAll, json.Marshal and
-- json.Unmarshal on delegates, and the quoting of package fmt.
pub record Codec : Type 0 where
  pub mkdir_fault : String → Option Error
  pub encode : List DelegateNetConf → Result Bytes
  pub decode : Bytes → Option (List DelegateNetConf)
  pub quote : String → String

abbrev pub scratch_path : Os → String → String → String
scratch_path os container_id data_dir = os.join (data_dir ∷ container_id ∷ [])

module _ (C : Codec) where
  written_scratch : String → Result (Unit {0}) × Os → Result (Unit {0}) × Os
  written_scratch path (err e, os) = (
    err (
        wrap
          ("saveScratchNetConf: failed to write container data in the path("
            <> C.quote path
            <> "): ")
          e),
    os,
  )
  written_scratch path (r, os) = (r, os)

  made_directory : String → String → Bytes → Os → Option Error → Result (Unit {0}) × Os
  unfolding written_scratch
  made_directory path data_dir netconf os (some e) = (
    err (
        wrap
          ("saveScratchNetConf: failed to create the multus data directory("
            <> C.quote data_dir
            <> "): ")
          e),
    os,
  )
  made_directory path data_dir netconf os none = written_scratch path (write_file os path netconf)

  unfoldable pub save_scratch_net_conf : String → String → Bytes → Os → Result (Unit {0}) × Os
  unfolding made_directory
  save_scratch_net_conf container_id data_dir netconf os =
      made_directory (scratch_path os container_id data_dir) data_dir netconf os
        (C.mkdir_fault data_dir)

  saved_delegates : Result (Unit {0}) × Os → Result (Unit {0}) × Os
  saved_delegates (err e, os) = (err (wrap "saveDelegates: error in saving the delegates : " e), os)
  saved_delegates (r, os) = (r, os)

  save_encoded : String → String → Result Bytes → Os → Result (Unit {0}) × Os
  unfolding saved_delegates
  save_encoded container_id data_dir (ok bytes) os =
      saved_delegates (save_scratch_net_conf container_id data_dir bytes os)
  save_encoded container_id data_dir (err e) os =
      (err (wrap "saveDelegates: error serializing delegate netconf: " e), os)
  save_encoded container_id data_dir panic os = (panic, os)

  unfoldable pub save_delegates :
      String → String → List DelegateNetConf → Os → Result (Unit {0}) × Os
  unfolding save_encoded
  save_delegates container_id data_dir delegates os =
      save_encoded container_id data_dir (C.encode delegates) os

  unfoldable pub consume_scratch_net_conf : String → String → Os → Result Bytes × String
  consume_scratch_net_conf container_id data_dir os =
      (read_file os (scratch_path os container_id data_dir), scratch_path os container_id data_dir)

  enable_for : DelegateNetConf → Option (List CniConf) → DelegateNetConf
  enable_for d none = d
  enable_for d (some []) = d
  enable_for d (some (_ ∷ _)) = record d { conf_list_plugin = true }

  -- "check plugins field and enable ConfListPlugin if there is"
  unfoldable pub enable_list : DelegateNetConf → DelegateNetConf
  unfolding enable_for
  enable_list d = enable_for d d.conf_list.plugins

  decoded_delegates : Option (List DelegateNetConf) → Result (Option (List DelegateNetConf))
  unfolding enable_list mark_master
  decoded_delegates none = ok none
  decoded_delegates (some delegates) = do
    marked ← mark_master (map enable_list delegates)
    ok (some marked)

  -- The delegates of CmdDel where the file can be read and decoded (`useCacheConf`).
  unfoldable pub cached_delegates : Result Bytes → Result (Option (List DelegateNetConf))
  unfolding decoded_delegates
  cached_delegates (ok bytes) = decoded_delegates (C.decode bytes)
  cached_delegates (err e) = ok none
  cached_delegates panic = panic
