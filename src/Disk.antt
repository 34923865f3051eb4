-- ===== src/Disk.antt =====
-- The calls of package os that the installers make on files: a file is its text, each call can be
-- refused, and a write that is refused leaves a part of its text behind.
pub mod Ends
pub mod Changes
pub mod Install
pub mod Reading
pub mod Removal
use Prim.Native.String.{[], ◌∷◌}
use multus_cni.Base.{String, Option, none, some, Bool, ◌==◌, string_eq, if◌then◌else◌}
use multus_cni.Base.Result.{Result, ok, err, panic, Error, wrap}
use multus_cni.Base.Outcome.{Outcome, next}
use multus_cni.Os.{no_such_file}

pub data FileAction : Type 0 where
  stat read open_for_read open_for_write write sync close rename mkdir chmod remove create_temp :
      FileAction

-- `fault` is the error that a call on a path is answered with, `cut` the part of a text that a refused
-- write leaves, and `temp_name` the name that os.CreateTemp finds for a directory and a pattern.
pub record Disk : Type 0 where
  pub files : String → Option String
  pub fault : FileAction → String → Option Error
  pub cut : String → String → String
  pub temp_name : String → String → String

abbrev pub Io : Type 0 → Type 0
Io A = Disk → Outcome Disk A

infixl 5 ◌>>=◌ ◌>>◌
abbrev pub ◌>>=◌ : {A B : Type 0} → Io A → (A → Io B) → Io B
◌>>=◌ m f d = next f (m d)

abbrev pub ◌>>◌ : {B : Type 0} → Io (Unit {0}) → Io B → Io B
m >> rest = m >>= λ _. rest

abbrev pub give : {A : Type 0} → A → Io A
give a d = (ok a, d)

abbrev pub lift : {A : Type 0} → Result A → Io A
lift r d = (r, d)

-- `if err != nil { return fmt.Errorf(…, err) }`
abbrev pub reworded : {A : Type 0} → String → Outcome Disk A → Outcome Disk A
reworded prefix (ok a, d) = (ok a, d)
reworded prefix (err e, d) = (err (wrap prefix e), d)
reworded prefix (panic, d) = (panic, d)

abbrev pub saying : {A : Type 0} → String → Io A → Io A
saying prefix m d = reworded prefix (m d)

-- What follows if the call fails, before its error is returned.
abbrev pub after_error : Io (Unit {0}) → Outcome Disk (Unit {0}) → Outcome Disk (Unit {0})
after_error cleanup (err e, d) = (err e, (cleanup d).1)
after_error cleanup (ok u, d) = (ok u, d)
after_error cleanup (panic, d) = (panic, d)

abbrev pub cleaning : Io (Unit {0}) → Io (Unit {0}) → Io (Unit {0})
cleaning cleanup m d = after_error cleanup (m d)

abbrev pub text_of : Option String → String
text_of none = ""
text_of (some text) = text

abbrev pub store : String → Option String → Disk → Disk
store path text d = record d { files = λ p. if p == path then text else d.files p }

-- A text that is written from the start of a file which holds another one.
unfoldable pub overlay : String → String → String
overlay [] old = old
overlay (c ∷ text) [] = c ∷ text
overlay (c ∷ text) (o ∷ old) = c ∷ overlay text old

answered : Option Error → Io (Unit {0})
answered none d = (ok tt, d)
answered (some e) d = (err e, d)

-- A call that changes no text.
unfoldable pub attempt : FileAction → String → Io (Unit {0})
unfolding answered
attempt action path d = answered (d.fault action path) d

found : Option String → Result String
found none = err no_such_file
found (some text) = ok text

-- os.Stat, which yields nothing here, and os.ReadFile
unfoldable pub stat_file : String → Io (Unit {0})
unfolding attempt found
stat_file path = attempt stat path >> (λ d. (lift (found (d.files path)) >>= λ _. give tt) d)

unfoldable pub read_text : String → Io String
unfolding attempt found
read_text path = attempt read path >> (λ d. (found (d.files path), d))

-- os.Open
unfoldable pub open_text : String → Io (Unit {0})
unfolding attempt found
open_text path =
    attempt open_for_read path >> (λ d. (lift (found (d.files path)) >>= λ _. give tt) d)

-- os.OpenFile for writing, which creates the file, and empties it with O_TRUNC
unfoldable pub open_file : Bool → String → Io (Unit {0})
unfolding attempt
open_file truncate path =
    attempt open_for_write path
    >> (λ d. (ok tt, store path (some (if truncate then "" else text_of (d.files path))) d))

written_by : Option Error → String → String → Io (Unit {0})
unfolding overlay
written_by none path text d = (ok tt, store path (some (overlay text (text_of (d.files path)))) d)
written_by (some e) path text d =
    (err e, store path (some (overlay (d.cut path text) (text_of (d.files path)))) d)

unfoldable pub write_text : String → String → Io (Unit {0})
unfolding written_by
write_text path text d = written_by (d.fault write path) path text d

moved : Option String → String → String → Io (Unit {0})
moved none from to d = (err no_such_file, d)
moved (some text) from to d = (ok tt, store to (some text) (store from none d))

unfoldable pub rename_file : String → String → Io (Unit {0})
unfolding attempt moved
rename_file from to = attempt rename from >> (λ d. moved (d.files from) from to d)

dropped : Option String → String → Io (Unit {0})
dropped none path d = (err no_such_file, d)
dropped (some _) path d = (ok tt, store path none d)

unfoldable pub remove_file : String → Io (Unit {0})
unfolding attempt dropped
remove_file path = attempt remove path >> (λ d. dropped (d.files path) path d)
