-- ===== src/Multus/World.antt =====
-- The state that a command changes, and commands as functions on it.
use multus_cni.Base.{String, Option, none, some, List, ◌==◌, string_eq, if◌then◌else◌}
use multus_cni.Base.Outcome.{Outcome, next}
use multus_cni.Base.Result.{Result, ok, err, panic, Error}
use multus_cni.Os.{Os}
use multus_cni.Netutils.Routes.{Route, Edited}
use multus_cni.Multus.Calls.{Trace}

-- The calls made so far, the files, and the routes of each network namespace.
pub record World : Type 0 where
  pub calls : Trace
  pub os : Os
  pub routes : String → List Route

abbrev pub Act {ℓ} : Type ℓ → Type ℓ
Act A = World → Outcome World A

infixl 5 ◌>>=◌ ◌>>◌
abbrev pub ◌>>=◌ {ℓ κ} : {A : Type ℓ} {B : Type κ} → Act A → (A → Act B) → Act B
(act >>= f) w = next f (act w)

abbrev pub ◌>>◌ {ℓ} : {A : Type ℓ} → Act (Unit {0}) → Act A → Act A
act >> rest = act >>= λ _. rest

abbrev pub give {ℓ} : {A : Type ℓ} → A → Act A
give a w = (ok a, w)

-- A result that no state is needed for.
abbrev pub lift {ℓ} : {A : Type ℓ} → Result A → Act A
lift r w = (r, w)

abbrev pub of_error : Option Error → Result (Unit {0})
of_error none = ok tt
of_error (some e) = err e

abbrev pub restated {ℓ} : {A : Type ℓ} → (String → Error) → Result A → Result A
restated f (ok a) = ok a
restated f (err e) = err (f e.text)
restated f panic = panic

-- An error of the act in other words.
abbrev pub rephrase {ℓ} : {A : Type ℓ} → (String → Error) → Act A → Act A
rephrase f act w = let (r, w') = act w in (restated f r, w')

-- A change of the files, of the routes of a namespace, and of the calls alone.
abbrev pub on_files {ℓ} : {A : Type ℓ} → (Os → Result A × Os) → Act A
on_files f w = let (r, os) = f w.os in (r, record w { os = os })

unfoldable pub edit_routes : String → (List Route → Edited) → Act (Unit {0})
edit_routes netns f w =
    let (e, table) = f (w.routes netns) in
    (of_error e, record w { routes = λ p. if p == netns then table else w.routes p })

abbrev pub note : (Trace → Trace) → Act (Unit {0})
note f w = (ok tt, record w { calls = f w.calls })
