-- ===== src/Os.antt =====
-- The calls of package os and filepath that the source makes on files. What the operating system
-- holds and refuses is the state of the model: each path's contents, and the error that a read or a
-- write of a path is answered with, if any.
use multus_cni.Base.{
  String, ◌≡◌, refl, eq_self, Bool, true, false, Option, none, some, List, ◌==◌, string_eq,
  if◌then◌else◌,
}
use multus_cni.Base.Result.{Result, ok, err, Error, Kind}
use multus_cni.Json.{Bytes}

pub record Os : Type 0 where
  pub files : String → Option Bytes
  pub read_fault : String → Option Error
  pub write_fault : String → Option Error
  -- filepath.Join
  pub join : List String → String

abbrev pub no_such_file : Error
no_such_file = record { kind = Kind.not_exist; text = "no such file or directory" }

-- os.IsNotExist
unfoldable pub is_not_exist : Kind → Bool
is_not_exist Kind.not_exist = true
is_not_exist _ = false

-- os.ReadFile
unfoldable pub read_file : Os → String → Result Bytes
read_file os path = elim (os.read_fault path) [
  | some e ↦ err e
  | none ↦ elim (os.files path) [ none ↦ err no_such_file | some b ↦ ok b ]
]

abbrev pub store : Os → String → Option Bytes → Os
store os path b = record os { files = λ p. if p == path then b else os.files p }

-- os.WriteFile
unfoldable pub write_file : Os → String → Bytes → Result (Unit {0}) × Os
write_file os path b = elim (os.write_fault path) [
  | some e ↦ (err e, os)
  | none ↦ (ok tt, store os path (some b))
]

-- `_ = os.Remove(path)`
unfoldable pub remove : Os → String → Os
remove os path = elim (os.write_fault path) [ some e ↦ os | none ↦ store os path none ]

pub write_file-stores :
    (os : Os) (path : String) (b : Bytes)
    → os.write_fault path ≡ none
    → write_file os path b ≡ (ok tt, store os path (some b))
unfolding write_file string_eq
write_file-stores os path b writes = rw (writes, write_file) refl

pub write_file-refuses :
    (os : Os) (path : String) (b : Bytes) {e : Error}
    → os.write_fault path ≡ some e
    → write_file os path b ≡ (err e, os)
unfolding write_file
write_file-refuses os path b refuses = rw (refuses, write_file) refl

pub read_file-store :
    (os : Os) (path : String) (b : Bytes)
    → os.read_fault path ≡ none
    → read_file (store os path (some b)) path ≡ ok b
unfolding read_file
read_file-store os path b reads = rw (reads, read_file) (rw (eq_self path) refl)

pub remove-stores :
    (os : Os) (path : String) → os.write_fault path ≡ none → remove os path ≡ store os path none
unfolding remove
remove-stores os path writes = rw (writes, remove) refl

pub read_file-removed :
    (os : Os) (path : String)
    → os.read_fault path ≡ none
    → read_file (store os path none) path ≡ err no_such_file
unfolding read_file
read_file-removed os path reads = rw (reads, read_file) (rw (eq_self path) refl)
