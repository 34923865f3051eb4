-- ===== src/Disk/Install.antt =====
-- A file that is replaced by writing a temporary one and renaming it.
use multus_cni.Base.{
  String, ◌≡◌, ◌≢◌, eq_self, Bool, Option, none, some, string_eq, if◌then◌else◌, arith,
}
use multus_cni.Disk.{
  FileAction, rename, sync, close, Disk, Io, ◌>>◌, saying, cleaning, text_of, overlay, attempt,
  open_file, write_text, rename_file, moved, remove_file,
}
use multus_cni.Disk.Ends.{
  Ends, succeeds, refuses, Ends-next, Ends-reworded, Ends-after_error, OnlyAt, Holds, attempt-Holds,
  open_file-Ends, write_text-Ends, remove_file-OnlyAt,
}

-- The names of the steps in the errors.
pub record Labels : Type 0 where
  pub create : String
  pub execute : String
  pub flush : String
  pub close : String
  pub replace : String

unfoldable pub install : Labels → Bool → String → String → String → Io (Unit {0})
unfolding open_file write_text attempt rename_file remove_file
install l truncate temp target text =
    saying l.create (open_file truncate temp)
    >> saying l.execute (write_text temp text)
    >> cleaning (remove_file temp) (saying l.flush (attempt sync temp))
    >> cleaning (remove_file temp) (saying l.close (attempt close temp))
    >> saying l.replace (rename_file temp target)

module _ (temp target : String) (differ : target ≢ temp) (d : Disk) where
  -- The text is in place, and the files besides it and the temporary one are as they were.
  abbrev pub Placed : String → Disk → Type 0
  Placed text d' =
      (d'.files target ≡ some text)
      × ((p : String) → p ≢ temp → p ≢ target → d'.files p ≡ d.files p)

  moved-Ends :
      (o : Option String) (text : String) (d' : Disk)
      → o ≡ some text
      → OnlyAt temp d d'
      → Ends (λ _. Placed text) (OnlyAt temp d) (moved o temp target d')
  unfolding moved
  moved-Ends none text d' e h = refuses h
  moved-Ends (some t) text d' e h =
      succeeds (rw (eq_self target) e, λ p nt ng. ground (arith, nt, ng, h p nt))

  rename_file-Ends :
      (text : String) (d' : Disk)
      → Holds temp text d d'
      → Ends (λ _. Placed text) (OnlyAt temp d) (rename_file temp target d')
  unfolding rename_file
  rename_file-Ends text d' h =
      Ends-next (attempt-Holds d temp rename text temp d' h)
        λ _ d2 (e, only). moved-Ends (d2.files temp) text d2 e only

  tidied :
      (action : FileAction) (label text : String) (d' : Disk)
      → Holds temp text d d'
      → Ends
          (λ _. Holds temp text d)
          (OnlyAt temp d)
          (cleaning (remove_file temp) (saying label (attempt action temp)) d')
  tidied action label text d' h =
      Ends-after_error (remove_file temp) (remove_file-OnlyAt d temp)
        (Ends-reworded label (attempt-Holds d temp action text temp d' h))

  -- An installation that succeeds has the whole text in place; one that fails has left the file in place
  -- as it was, and only the temporary file can differ.
  pub install-Ends :
      (l : Labels) (truncate : Bool) (text : String)
      → Ends
          (λ _. Placed (overlay text (if truncate then "" else text_of (d.files temp))))
          (OnlyAt temp d)
          (install l truncate temp target text d)
  unfolding install
  install-Ends l truncate text =
      let old = if truncate then "" else text_of (d.files temp) in
      let new = overlay text old in
      Ends-next
        (Ends-next
          (Ends-next
            (Ends-next (Ends-reworded l.create (open_file-Ends d temp truncate))
              λ _ d1 h. Ends-reworded l.execute (write_text-Ends d temp text old d1 h))
            λ _ d2 h. tidied sync l.flush new d2 h)
          λ _ d3 h. tidied close l.close new d3 h)
        λ _ d4 h. Ends-reworded l.replace (rename_file-Ends new d4 h)
