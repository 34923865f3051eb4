-- ===== src/Server/Config/Monitor.antt =====
-- monitorPluginConfiguration and what Start does around it, as a step relation on the daemon.
pub mod Settled
--pub mod Repeated
use multus_cni.Base.{
  String, Bool, true, false, ◌&&◌, ◌||◌, Option, none, some, ◌≡◌, ◌==◌, ◌!=◌, string_eq,
  if◌then◌else◌,
}
use multus_cni.Base.Outcome.{Outcome, next}
use multus_cni.Base.Result.{Result, ok, err, panic, Error, context}
use multus_cni.Json.{Bytes, malformed}
use multus_cni.Os.{Os, remove}
use multus_cni.Server.Config.Generator.{Semver}
use multus_cni.Server.Config.Manager.{
  Manager, load_primary_cni_config_from_file, generate_config, persist_multus_config,
}

-- fsnotify.Event: the file, and which operations it has.
pub record Event : Type 0 where
  pub name : String
  pub writes : Bool
  pub creates : Bool
  pub removes : Bool
  pub renames : Bool

-- What the loop waits for.
pub data Signal : Type 0 where
  event : Event → Signal
  fault : Option Error → Signal
  cancelled : Signal

-- The loop waits, has returned, has ended the process with code 2, or has panicked.
pub data Status : Type 0 where
  waiting stopped exited crashed : Status

pub record Daemon : Type 0 where
  pub manager : Manager
  pub os : Os
  pub status : Status

unfoldable pub should_regenerate_config : Manager → Event → Bool
should_regenerate_config m e =
    if e.name == m.readiness_indicator_file_path
    then e.removes || e.renames
    else if e.name == m.primary_cni_config_path
    then e.writes || e.creates
    else false

abbrev pub daemon : Manager → Os → Status → Daemon
daemon m os status = record { manager = m; os = os; status = status }

-- The end of the loop or of the process, with the file removed.
abbrev pub ended : Manager → Os → Status → Daemon
ended m os status = daemon m (remove os m.multus_config_file_path) status

-- The error of the second load is logged, and the loop goes on.
reloaded : Os → Outcome Manager (Unit {0}) → Daemon
reloaded os (panic, m) = daemon m os crashed
reloaded os (ok _, m) = daemon m os waiting
reloaded os (err _, m) = daemon m os waiting

module _ {V : Type 0} (S : Semver V) where
  persisted : Bytes → Manager → Os → Daemon
  unfolding persist_multus_config reloaded load_primary_cni_config_from_file
  persisted text m os =
      let os' = (persist_multus_config text m os).1 in
      reloaded os' (load_primary_cni_config_from_file S os' m)

  -- After an error the text is empty; it is persisted all the same.
  regenerated : Os → Outcome Manager Bytes → Daemon
  unfolding persisted
  regenerated os (ok text, m) = persisted text m os
  regenerated os (err _, m) = persisted (malformed "") m os
  regenerated os (panic, m) = daemon m os crashed

  unfoldable pub react : Signal → Manager → Os → Daemon
  unfolding should_regenerate_config regenerated generate_config
  react (fault _) m os = daemon m os waiting
  react cancelled m os = ended m os stopped
  react (event e) m os =
      if should_regenerate_config m e
      then if m.readiness_indicator_file_path != "" && m.readiness_indicator_file_path == e.name
        then ended m os exited
        else regenerated os (generate_config S os m)
      else daemon m os waiting

  written : Manager → Os → Result (Unit {0}) × Os → Result Daemon
  written m os (r, os') = elim r [
    | ok _ ↦ ok (daemon m os' waiting)
    | err e ↦ context "failed to persist the multus configuration: " (err e)
    | panic ↦ panic
  ]

  -- Start up to the loop: no loop begins after an error.
  unfoldable pub start : Manager → Os → Result Daemon
  unfolding generate_config persist_multus_config written
  start m os = elim (generate_config S os m).0 [
    | ok text ↦
        written (generate_config S os m).1 os
          (persist_multus_config text (generate_config S os m).1 os)
    | err e ↦ context "failed to generated the multus configuration: " (err e)
    | panic ↦ panic
  ]

  -- The states that the loop reaches from one in which it waits, while other processes change the
  -- files between the signals.
  pub data Reaches (d : Daemon) : Daemon → Type 0 where
    begun : Reaches d d
    signalled :
        {m : Manager} {os : Os}
        → (s : Signal) → Reaches d (daemon m os waiting)
        → Reaches d (react s m os)
    edited :
        {m : Manager} {os os' : Os}
        → os'.write_fault ≡ os.write_fault
        → Reaches d (daemon m os waiting)
        → Reaches d (daemon m os' waiting)
