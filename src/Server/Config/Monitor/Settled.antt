-- ===== src/Server/Config/Monitor/Settled.antt =====
-- What stays the same while the loop runs, and what it leaves behind.
use multus_cni.Base.{
  String, ◌≡◌, refl, ap, ◌∙◌, Bool-cases, inl, inr, ◌&&◌, Option, none, ◌==◌, ◌!=◌, string_eq,
  eq_self, arith,
}
use multus_cni.Base.Outcome.{Outcome}
use multus_cni.Base.Result.{ok, err, panic, Error}
use multus_cni.Json.{Bytes, malformed}
use multus_cni.Os.{Os, remove, store, write_file, remove-stores}
use multus_cni.Server.Config.Generator.{Semver}
use multus_cni.Server.Config.Manager.{
  Manager, load_primary_cni_config_from_file, generate_config, persist_multus_config,
}
use multus_cni.Server.Config.Manager.Kept.{places, IsLoaded, Kept, load-Kept, generate_config-Kept}
use multus_cni.Server.Config.Monitor.{
  Signal, event, fault, cancelled, Status, waiting, stopped, exited, crashed, Daemon, daemon, ended,
  should_regenerate_config, reloaded, persisted, regenerated, react, Reaches, begun, signalled,
  edited,
}

-- The manager has its places and its cluster network, in a system that refuses some writes.
abbrev pub Runs : Manager → (String → Option Error) → Manager → Os → Type 0
Runs m faults m' os = (places m' ≡ places m) × (os.write_fault ≡ faults) × IsLoaded m'

-- The file of the configuration is gone once the loop has returned or has ended the process.
abbrev pub IsCleared : String → Status → Os → Type 0
IsCleared path waiting os = Unit
IsCleared path crashed os = Unit
IsCleared path stopped os = os.files path ≡ none
IsCleared path exited os = os.files path ≡ none

abbrev pub Settles : Manager → (String → Option Error) → Daemon → Type 0
Settles m faults d =
    Runs m faults d.manager d.os × IsCleared m.multus_config_file_path d.status d.os

write_file-faults :
    (os : Os) (path : String) (text : Bytes)
    → (write_file os path text).1.write_fault ≡ os.write_fault
unfolding write_file
write_file-faults os path text = ground arith

cleared :
    (path : String) (status : Status) (os : Os) → os.files path ≡ none → IsCleared path status os
cleared path waiting os e = tt
cleared path crashed os e = tt
cleared path stopped os e = e
cleared path exited os e = e

store-gone : (os : Os) (path : String) → (store os path none).files path ≡ none
store-gone os path = rw (eq_self path) refl

remove-gone :
    (os : Os) (path : String) {path' : String}
    → path ≡ path'
    → os.write_fault path' ≡ none
    → (remove os path).files path' ≡ none
remove-gone os path {path'} e writes = rw (e, remove-stores os path' writes) (store-gone os path')

remove-faults : (os : Os) (path : String) → (remove os path).write_fault ≡ os.write_fault
unfolding remove
remove-faults os path = ground arith

module _ (m : Manager) (faults : String → Option Error) where
  Runs-Kept :
      (m' m'' : Manager) (os : Os) → Kept m' m'' → Runs m faults m' os → Runs m faults m'' os
  Runs-Kept m' m'' os (e, k) (p, f, l) = (e ∙ p, f, k l)

  reloaded-Settles :
      (m' : Manager) (os : Os) (x : Outcome Manager (Unit {0}))
      → Kept m' x.1
      → Runs m faults m' os
      → Settles m faults (reloaded os x)
  unfolding reloaded
  reloaded-Settles m' os (ok _, m'') kept runs = (Runs-Kept m' m'' os kept runs, tt)
  reloaded-Settles m' os (err _, m'') kept runs = (Runs-Kept m' m'' os kept runs, tt)
  reloaded-Settles m' os (panic, m'') kept runs = (Runs-Kept m' m'' os kept runs, tt)

  ended-Settles :
      (m' : Manager) (os : Os) (status : Status)
      → faults m.multus_config_file_path ≡ none
      → Runs m faults m' os
      → Settles m faults (ended m' os status)
  ended-Settles m' os status writes (p, f, l) =
      let path = m'.multus_config_file_path in
      let gone =
        remove-gone os path (ap (λ x. x.0) p) (ap (λ g. g m.multus_config_file_path) f ∙ writes) in
      (
        (p, remove-faults os path ∙ f, l),
        cleared m.multus_config_file_path status (remove os path) gone,
      )

module _ {V : Type 0} (S : Semver V) (m : Manager) (faults : String → Option Error) where
  persisted-Settles :
      (text : Bytes) (m' : Manager) (os : Os)
      → Runs m faults m' os
      → Settles m faults (persisted S text m' os)
  unfolding persisted persist_multus_config
  persisted-Settles text m' os (p, f, l) =
      let os' = (write_file os m'.multus_config_file_path text).1 in
      reloaded-Settles m faults m' os' (load_primary_cni_config_from_file S os' m')
        (load-Kept S os' m') (p, write_file-faults os m'.multus_config_file_path text ∙ f, l)

  regenerated-Settles :
      (os : Os) (x : Outcome Manager Bytes)
      → Runs m faults x.1 os
      → Settles m faults (regenerated S os x)
  unfolding regenerated
  regenerated-Settles os (ok text, m') runs = persisted-Settles text m' os runs
  regenerated-Settles os (err _, m') runs = persisted-Settles (malformed "") m' os runs
  regenerated-Settles os (panic, m') runs = (runs, tt)

  react-Settles :
      (s : Signal) (m' : Manager) (os : Os)
      → faults m.multus_config_file_path ≡ none
      → Runs m faults m' os
      → Settles m faults (react S s m' os)
  unfolding react
  react-Settles (fault _) m' os writes runs = (runs, tt)
  react-Settles cancelled m' os writes runs = ended-Settles m faults m' os stopped writes runs
  react-Settles (event e) m' os writes runs = elim (Bool-cases (should_regenerate_config m' e)) [
    | inr h ↦ rw h (runs, tt)
    | inl h ↦
        elim (Bool-cases
          (m'.readiness_indicator_file_path != "" && m'.readiness_indicator_file_path == e.name)) [
            | inl g ↦ rw (h, g) (ended-Settles m faults m' os exited writes runs)
            | inr g ↦
                rw (h, g)
                  (regenerated-Settles os (generate_config S os m') (
                    Runs-Kept m faults m' (generate_config S os m').1 os
                      (generate_config-Kept S os m') runs))
          ]
  ]

-- While the loop runs, whatever signals arrive and whatever other processes do to the files, the
-- manager keeps the paths of its files and delegates to the primary configuration; and once the
-- loop has been cancelled or the readiness indicator file has gone, the configuration of Multus is
-- removed. The manager has loaded the primary configuration before, and its file can be written.
pub Reaches-Settles :
    {V : Type 0} (S : Semver V) (m : Manager) (os : Os) (d : Daemon)
    → IsLoaded m
    → os.write_fault m.multus_config_file_path ≡ none
    → Reaches S (daemon m os waiting) d
    → Settles m os.write_fault d
Reaches-Settles S m os d loaded writes begun = ((refl, refl, loaded), tt)
Reaches-Settles S m os d loaded writes (signalled {m = m'} {os = os'} s before) =
    react-Settles S m os.write_fault s m' os' writes
      (Reaches-Settles S m os (daemon m' os' waiting) loaded writes before).0
Reaches-Settles S m os d loaded writes (edited {m = m'} {os = os'} e before) =
    let ((p, f, l), _) = Reaches-Settles S m os (daemon m' os' waiting) loaded writes before in
    ((p, e ∙ f, l), tt)
