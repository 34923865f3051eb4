-- ===== src/Cmdutils.antt =====
-- pkg/cmdutils/utils.go: the copy of a file into a directory.
pub mod Copied
use multus_cni.Base.{
  String, ◌<>◌, Bool, true, false, Option, none, some, List, [], ◌∷◌, if◌then◌else◌,
}
use multus_cni.Base.Result.{ok, err, panic, Error}
use multus_cni.Base.Outcome.{Outcome, next}
use multus_cni.Os.{is_not_exist}
use multus_cni.Disk.{
  sync, close, chmod, create_temp, Disk, Io, ◌>>=◌, ◌>>◌, give, saying, reworded, cleaning,
  after_error, store, attempt, stat_file, open_text, read_text, write_text, rename_file,
  remove_file,
}

-- os.Stat that succeeds is followed by the removal.
stale_removed : String → Outcome Disk (Unit {0}) → Outcome Disk (Unit {0})
unfolding remove_file
stale_removed path (ok _, d) = saying "cannot remove old temp file: " (remove_file path) d
stale_removed path (err _, d) = (ok tt, d)
stale_removed path (panic, d) = (panic, d)

-- os.CreateTemp makes an empty file of a new name.
created : String → Io String
unfolding attempt
created path = attempt create_temp path >> (λ d. (ok path, store path (some "") d))

unless_missing : Outcome Disk (Unit {0}) → Outcome Disk (Unit {0})
unfolding is_not_exist
unless_missing (ok u, d) = (ok u, d)
unless_missing (err e, d) = if is_not_exist e.kind then (ok tt, d) else (err e, d)
unless_missing (panic, d) = (panic, d)

-- `join` is filepath.Join of two parts. io.Copy reads the source and writes what it read.
unfoldable pub copy_file_atomic :
    (String → String → String) → String → String → String → String → Io (Unit {0})
unfolding stale_removed created unless_missing stat_file open_text read_text write_text rename_file
    remove_file attempt
copy_file_atomic join src dir temp dest d0 =
    let path = join dir temp in
    let name = d0.temp_name dir temp in
    ((λ d. stale_removed path (stat_file path d))
        >> saying "cannot create temp file: " (created name)
        >>= (λ _.
            saying "cannot open file: " (open_text src)
            >> cleaning (λ d. (remove_file path d))
                (saying "cannot write data to temp file: " (read_text src >>= write_text name))
            >> saying "cannot flush temp file: " (attempt sync name)
            >> saying "cannot close temp file: " (attempt close name)
            >> (λ d. unless_missing (stat_file (join dir dest) d))
            >> stat_file src
            >> saying "cannot set stat on temp file: " (attempt chmod name)
            >> saying "cannot replace: " (rename_file name (join dir dest))))
      d0
