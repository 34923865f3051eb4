-- ===== src/ThinEntrypoint/Watch.antt =====
-- cmd/thin_entrypoint/main.go: the start of the entry point and its watch loop. What other processes do to
-- the disk before each round of the loop is a list of changes, and a signal ends it.
pub mod Cleaned
use multus_cni.Base.{
  String, ◌<>◌, Bool, true, false, not, ◌&&◌, Option, none, some, List, [], ◌∷◌, ◌==◌, ◌!=◌,
  string_eq, if◌then◌else◌,
}
use multus_cni.Base.Result.{ok, err, panic, Error, wrap}
use multus_cni.Base.Outcome.{Outcome, next}
use multus_cni.Os.{is_not_exist}
use multus_cni.Disk.{Disk, Io, ◌>>=◌, ◌>>◌, give, saying, reworded, stat_file}
use multus_cni.Cmdutils.{copy_file_atomic}
use multus_cni.ThinEntrypoint.{Options, Libraries}
use multus_cni.ThinEntrypoint.Files.{verify_file_exists, cleanup_multus_conf}
use multus_cni.ThinEntrypoint.Config.{create_multus_config}
use multus_cni.ThinEntrypoint.Kubeconfig.{create_kube_config}

-- The variables of the loop.
pub record Watching : Type 0 where
  pub options : Options
  pub ca_hash : Option String
  pub sa_token_hash : Option String
  pub master_config_file_path : String
  pub master_config_hash : Option String
  pub master_config_exists : Bool

abbrev pub is_watching : Options → Bool
is_watching o =
    o.cleanup_config_on_exit && o.multus_conf_file == "auto" && not o.skip_multus_conf_watch

module _ (L : Libraries) where
  unfoldable pub binary_copied : Options → Io (Unit {0})
  unfolding copy_file_atomic
  binary_copied o =
      if not o.skip_multus_binary_copy
      then saying "failed at multus copy: "
          (copy_file_atomic L.join o.multus_bin_file o.cni_bin_dir "_multus" "multus")
      else give tt

  -- A configuration of the user is copied, or one is generated.
  configured : Options → String × String → Io Watching
  unfolding copy_file_atomic create_multus_config
  configured o (ca, token) =
      if o.multus_conf_file != "auto"
      then (saying "failed at copy multus conf file: " (
            copy_file_atomic L.join o.multus_conf_file o.cni_conf_dir
              (L.base o.multus_conf_file <> ".temp") (L.base o.multus_conf_file))
          >> give (record {
            options = o;
            ca_hash = some ca;
            sa_token_hash = some token;
            master_config_file_path = "";
            master_config_hash = none;
            master_config_exists = true;
          }))
      else (saying "failed to create multus config: " (create_multus_config L none o)
          >>= λ (o', path, hash). give (record {
            options = o';
            ca_hash = some ca;
            sa_token_hash = some token;
            master_config_file_path = path;
            master_config_hash = some hash;
            master_config_exists = true;
          }))

  unfoldable pub start : Options → Io Watching
  unfolding verify_file_exists binary_copied create_kube_config configured
  start o =
      verify_file_exists o
      >> binary_copied o
      >> saying "failed to create multus kubeconfig: " (create_kube_config L none none o)
      >>= configured o

  regenerated : Watching → Io Watching
  unfolding create_multus_config
  regenerated w =
      saying "failed to create multus config: "
        (create_multus_config L w.master_config_hash w.options)
      >>= λ (o', path, hash). give (record w {
        options = o';
        master_config_file_path = path;
        master_config_hash = some hash;
        master_config_exists = true;
      })

  -- A master's file that is gone is waited for; whatever else os.Stat says, the configuration is checked.
  after_stat : Watching → Outcome Disk (Unit {0}) → Outcome Disk Watching
  unfolding is_not_exist regenerated
  after_stat w (err e, d) =
      if is_not_exist e.kind
      then (ok (record w { master_config_exists = false }), d)
      else regenerated w d
  after_stat w (ok _, d) = regenerated w d
  after_stat w (panic, d) = (panic, d)

  -- One round of the loop.
  unfoldable pub tick : Watching → Io Watching
  unfolding create_kube_config after_stat stat_file
  tick w =
      saying "failed to update multus kubeconfig: "
        (create_kube_config L w.ca_hash w.sa_token_hash w.options)
      >>= λ (ca, token) d.
          after_stat (record w { ca_hash = some ca; sa_token_hash = some token })
            (stat_file w.master_config_file_path d)

  unfoldable pub watch : List (Disk → Disk) → Watching → Io (Unit {0})
  unfolding tick
  watch [] w d = (ok tt, d)
  watch (change ∷ changes) w d = next (watch changes) (tick w (change d))

  -- The deferred removal comes also behind an error and a panic.
  abbrev deferred : Io (Unit {0}) → Outcome Disk (Unit {0}) → Outcome Disk (Unit {0})
  deferred cleanup (r, d) = (r, (cleanup d).1)

  unfoldable pub served : List (Disk → Disk) → Watching → Io (Unit {0})
  unfolding watch
  served changes w d = if is_watching w.options then watch changes w d else (ok tt, d)

  unfoldable pub run : List (Disk → Disk) → Watching → Io (Unit {0})
  unfolding served cleanup_multus_conf
  run changes w d =
      if w.options.cleanup_config_on_exit
      then deferred (cleanup_multus_conf L w.options) (served changes w d)
      else served changes w d

  unfoldable pub entry : List (Disk → Disk) → Options → Io (Unit {0})
  unfolding start run
  entry changes o = start o >>= run changes
