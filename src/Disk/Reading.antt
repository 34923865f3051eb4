-- ===== src/Disk/Reading.antt =====
-- Calls that read: they leave the disk as it is.
use multus_cni.Base.{String, ◌≡◌, refl, Option, none, some}
use multus_cni.Base.Result.{Result, ok, err, panic, Error}
use multus_cni.Base.Outcome.{Outcome, next}
use multus_cni.Disk.{
  FileAction, read, stat, Disk, lift, reworded, attempt, answered, stat_file, read_text, found,
}

pub data Reading {A : Type 0} (d : Disk) (P : A → Type 0) : Outcome Disk A → Type 0 where
  reads : {a : A} → P a → Reading d P (ok a, d)
  fails : {e : Error} → Reading d P (err e, d)
  unwinds : Reading d P (panic, d)

module _ {A : Type 0} {d : Disk} {P : A → Type 0} where
  -- What follows a reading is shown of its value, and of an outcome that leaves the disk.
  pub Reading-then {ℓ} :
      {B : Type 0} (C : Outcome Disk B → Type ℓ) {x : Outcome Disk A}
      (f : A → Disk → Outcome Disk B)
      → Reading d P x
      → ((r : Result B) → C (r, d))
      → ((a : A) → P a → C (f a d))
      → C (next f x)
  Reading-then C f (reads p) keep h = h _ p
  Reading-then C f fails keep h = keep (err _)
  Reading-then C f unwinds keep h = keep panic

  pub Reading-next :
      {B : Type 0} {Q : B → Type 0} {x : Outcome Disk A} (f : A → Disk → Outcome Disk B)
      → Reading d P x
      → ((a : A) → P a → Reading d Q (f a d))
      → Reading d Q (next f x)
  Reading-next f (reads p) h = h _ p
  Reading-next f fails h = fails
  Reading-next f unwinds h = unwinds

  pub Reading-reworded :
      {x : Outcome Disk A} (text : String) → Reading d P x → Reading d P (reworded text x)
  Reading-reworded text (reads p) = reads p
  Reading-reworded text fails = fails
  Reading-reworded text unwinds = unwinds

pub lift-Reading : {A : Type 0} (d : Disk) (r : Result A) → Reading d (λ a. r ≡ ok a) (lift r d)
lift-Reading d (ok a) = reads refl
lift-Reading d (err e) = fails
lift-Reading d panic = unwinds

answered-Reading : (d : Disk) (o : Option Error) → Reading d (λ _. Unit {0}) (answered o d)
unfolding answered
answered-Reading d none = reads tt
answered-Reading d (some e) = fails

pub attempt-Reading :
    (d : Disk) (action : FileAction) (path : String)
    → Reading d (λ _. Unit {0}) (attempt action path d)
unfolding attempt
attempt-Reading d action path = answered-Reading d (d.fault action path)

found-Reading : (d : Disk) (o : Option String) → Reading d (λ text. o ≡ some text) (found o, d)
unfolding found
found-Reading d none = fails
found-Reading d (some text) = reads refl

pub stat_file-Reading : (d : Disk) (path : String) → Reading d (λ _. Unit {0}) (stat_file path d)
unfolding stat_file
stat_file-Reading d path =
    Reading-next _ (attempt-Reading d stat path)
      λ _ _. Reading-next _ (found-Reading d (d.files path)) λ _ _. reads tt

pub read_text-Reading :
    (d : Disk) (path : String) → Reading d (λ text. d.files path ≡ some text) (read_text path d)
unfolding read_text
read_text-Reading d path =
    Reading-next _ (attempt-Reading d read path) λ _ _. found-Reading d (d.files path)
