-- ===== src/MultusDaemon.antt =====
-- cmd/multus-daemon/main.go: the start of the daemon.
use multus_cni.Base.{
  ℕ, String, ◌<>◌, Bool, true, false, Option, none, some, List, [], ◌∷◌, ◌!=◌, string_eq,
  if◌then◌else◌,
}
use multus_cni.Base.Outcome.{Outcome, next}
use multus_cni.Base.Result.{Result, ok, err, panic, context, ◌>>=◌ as ◌then◌}
use multus_cni.Json.{Bytes, malformed}
use multus_cni.Os.{Os, read_file, write_file}
use multus_cni.Conf.Readiness.{FileStat, get_readiness_indicator_file}
use multus_cni.Logging.{Logging}
use multus_cni.Server.Config.Generator.{MultusConf, Semver, parse_multus_config}
use multus_cni.Server.Config.Manager.{Manager, Paths, new_manager}
use multus_cni.Server.Config.Monitor.{Daemon, start}
use multus_cni.Server.Start.{
  ControllerNetConf, Libraries, System, Started, filesystem_pre_requirements, get_listener,
  load_daemon_net_conf, new_cni_server,
}

-- What the program takes from libraries: filepath.Abs and Base, json.Unmarshal into the configuration of
-- Multus, what the directory of the plugins lists at each try, whether the program runs as root, the
-- calls for the directory of the socket, filepath.Join for its name, and WaitUntilAPIReady.
pub record Programs (V : Type 0) : Type 0 where
  pub abs : String → Result String
  pub base : String → String
  pub fill : MultusConf → Bytes → Option MultusConf
  pub read_dir : ℕ → Result (List String)
  pub semver : Semver V
  pub paths : Paths
  pub files : FileStat
  pub server : Libraries
  pub run_as_root : Result (Unit {0})
  pub system : System
  pub socket_path : String → String
  pub ready : String → Result (Unit {0})

-- How the start ends: the process exits with a code, main returns, or the loop of the manager runs until a
-- signal, with its requests served meanwhile.
pub data End : Type 0 where
  exits : ℕ → End
  returns : End
  watches : Daemon → End

-- An error ends the program with a code.
abbrev pub or_exit : {A : Type 0} → ℕ → Result A → (A → Result End) → Result End
or_exit code (ok a) k = k a
or_exit code (err e) k = ok (exits code)
or_exit code panic k = panic

abbrev is_user_given : MultusConf → Bool
is_user_given conf = conf.multus_config_file != "auto"

module _ {V : Type 0} (P : Programs V) where
  open P use {server, semver, paths}

  unfoldable pub cni_server_config :
      String → Os → Logging → Result (ControllerNetConf × Bytes) × Logging
  unfolding read_file load_daemon_net_conf
  cni_server_config config_file_path os s =
      elim (context "illegal path in server config path: " (P.abs config_file_path)
        then read_file os) [
          | ok contents ↦
              let (c, s') = load_daemon_net_conf server contents s in
              (c then λ conf. ok (conf, contents), s')
          | err e ↦ (err e, s)
          | panic ↦ (panic, s)
        ]

  copied_to : String → Bytes → Os → Outcome Os (Unit {0})
  unfolding write_file
  copied_to path contents os =
      next (λ _ os'. write_file os' path contents) (write_file os path (malformed ""))

  -- os.Create empties the file before it is written.
  unfoldable pub copy_user_provided_config : String → String → Os → Outcome Os (Unit {0})
  unfolding copied_to read_file
  copy_user_provided_config multus_config_path cni_config_dir os =
      elim (context "illegal path in multusConfigPath: " (P.abs multus_config_path)
        then read_file os) [
          | ok contents ↦ copied_to (cni_config_dir <> "/" <> P.base multus_config_path) contents os
          | err e ↦ (err e, os)
          | panic ↦ (panic, os)
        ]

  unfoldable pub start_multus_daemon : ControllerNetConf → Bytes → Bool → Result Started
  unfolding new_cni_server filesystem_pre_requirements get_listener
  start_multus_daemon c contents ignore =
      context "failed to run multus-daemon with root: " P.run_as_root then λ _.
      context "failed to prepare the cni-socket for communicating with the shim: "
        (filesystem_pre_requirements P.system c.socket_dir)
      then λ _.
          context "failed to create the server: " (new_cni_server server c contents ignore)
          then λ started.
              context "failed to start the CNI server using socket: "
                (get_listener P.system (P.socket_path c.socket_dir))
              then λ _. ok started

  -- The indicator file is waited for where one is named.
  unfoldable pub awaited : MultusConf → Result (Unit {0})
  unfolding get_readiness_indicator_file
  awaited conf =
      if conf.readiness_indicator_file != ""
      then get_readiness_indicator_file P.files conf.readiness_indicator_file
      else ok tt

  -- `wg.Wait()`, over the loops that were added to the group.
  waited : List Daemon → End
  waited [] = returns
  waited (d ∷ _) = watches d

  -- The manager, where there is one, adds its loop to the group.
  managed : Option Manager → Os → Result End
  unfolding start waited
  managed none os = ok (waited [])
  managed (some m) os = or_exit 3 (start semver m os) λ d. ok (waited (d ∷ []))

  served : ControllerNetConf → Bytes → Bool → Option Manager → Os → Result End
  unfolding start_multus_daemon managed
  served c contents ignore m os =
      or_exit 3 (start_multus_daemon c contents ignore)
        λ _. or_exit 1 (P.ready c.socket_dir) λ _. managed m os

  managing : ControllerNetConf → Bytes → Result Manager × Os → Result End
  unfolding served
  managing c contents (m, os) = or_exit 2 m λ manager. served c contents true (some manager) os

  -- An error of the copy is logged, and the daemon goes on.
  copying : ControllerNetConf → Bytes → Outcome Os (Unit {0}) → Result End
  unfolding served
  copying c contents (ok _, os) = served c contents false none os
  copying c contents (err _, os) = served c contents false none os
  copying c contents (panic, os) = panic

  configured : ControllerNetConf → Bytes → MultusConf → Os → Result End
  unfolding copying managing copy_user_provided_config new_manager
  configured c contents conf os =
      if is_user_given conf
      then copying c contents
          (copy_user_provided_config conf.multus_config_file conf.cni_config_dir os)
      else managing c contents (new_manager semver paths P.read_dir conf os)

  unfoldable pub daemon_main : String → Os → Logging → Result End
  unfolding cni_server_config parse_multus_config awaited configured
  daemon_main config_file_path os s =
      or_exit 1 (cni_server_config config_file_path os s).0 λ (c, contents).
        or_exit 1 (parse_multus_config P.fill os config_file_path)
          λ conf. or_exit 1 (awaited conf) λ _. configured c contents conf os
