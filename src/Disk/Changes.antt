-- ===== src/Disk/Changes.antt =====
-- Calls that change one file, for any property of the disk.
use multus_cni.Base.{String, ◌≡◌, refl, Option, none, some}
use multus_cni.Base.Result.{Error}
use multus_cni.Disk.{
  remove, rename, write, Disk, store, overlay, text_of, remove_file, dropped, write_text,
  written_by, rename_file, moved,
}
use multus_cni.Disk.Ends.{Ends, succeeds, refuses, Ends-next, attempt-Ends}

module _ {P : Disk → Type 0} where
  dropped-Ends :
      (path : String) (o : Option String) (d : Disk)
      → ((d : Disk) → P d → P (store path none d))
      → P d
      → Ends (λ _. P) P (dropped o path d)
  unfolding dropped
  dropped-Ends path none d keeps h = refuses h
  dropped-Ends path (some text) d keeps h = succeeds (keeps d h)

  pub remove_file-Ends :
      (path : String) (d : Disk)
      → ((d : Disk) → P d → P (store path none d))
      → P d
      → Ends (λ _. P) P (remove_file path d)
  unfolding remove_file
  remove_file-Ends path d keeps h =
      Ends-next (attempt-Ends remove path d h)
        λ _ d' p. dropped-Ends path (d'.files path) d' keeps p

module _ {R Q : Disk → Type 0} where
  written_by-any :
      (o : Option Error) (path text : String) (d : Disk)
      → R (store path (some (overlay text (text_of (d.files path)))) d)
      → ((t : String) → Q (store path (some t) d))
      → Ends (λ _. R) Q (written_by o path text d)
  unfolding written_by
  written_by-any none path text d whole part = succeeds whole
  written_by-any (some e) path text d whole part = refuses (part _)

  pub write_text-any :
      (path text : String) (d : Disk)
      → R (store path (some (overlay text (text_of (d.files path)))) d)
      → ((t : String) → Q (store path (some t) d))
      → Ends (λ _. R) Q (write_text path text d)
  unfolding write_text
  write_text-any path text d whole part = written_by-any (d.fault write path) path text d whole part

module _ {P R : Disk → Type 0} where
  moved-any :
      (from to : String) (o : Option String) (d : Disk)
      → d.files from ≡ o
      → ((t : String) (d : Disk)
          → P d
          → d.files from ≡ some t
          → R (store to (some t) (store from none d)))
      → P d
      → Ends (λ _. R) P (moved o from to d)
  unfolding moved
  moved-any from to none d e there h = refuses h
  moved-any from to (some t) d e there h = succeeds (there t d h e)

  pub rename_file-any :
      (from to : String) (d : Disk)
      → ((t : String) (d : Disk)
          → P d
          → d.files from ≡ some t
          → R (store to (some t) (store from none d)))
      → P d
      → Ends (λ _. R) P (rename_file from to d)
  unfolding rename_file
  rename_file-any from to d there h =
      Ends-next (attempt-Ends rename from d h)
        λ _ d' p. moved-any from to (d'.files from) d' refl there p
