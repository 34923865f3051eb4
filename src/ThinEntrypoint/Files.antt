-- ===== src/ThinEntrypoint/Files.antt =====
-- cmd/thin_entrypoint/main.go: the files that the entry point checks and reads.
use multus_cni.Base.{
  String, ◌<>◌, Bool, not, Option, none, some, List, [], ◌∷◌, ◌==◌, ◌!=◌, string_eq, if◌then◌else◌,
}
use multus_cni.Base.Result.{Result, ok, err, errorf}
use multus_cni.Text.{starts_with}
use multus_cni.Disk.{Io, ◌>>=◌, ◌>>◌, give, lift, saying, stat_file, read_text, remove_file}
use multus_cni.ThinEntrypoint.{Options, Libraries}

unfoldable pub verify_file_exists : Options → Io (Unit {0})
unfolding stat_file
verify_file_exists o =
    saying "cni-conf-dir is not found: " (stat_file o.cni_conf_dir)
    >> saying "cni-bin-dir is not found: " (stat_file o.cni_bin_dir)
    >> saying "multus-bin-file is not found: " (stat_file o.multus_bin_file)
    >> (if o.multus_conf_file != "auto"
        then saying "multus-conf-file is not found: " (stat_file o.multus_conf_file)
        else give tt)

-- Does the hash of before fit?
abbrev pub is_hash : Option String → String → Bool
is_hash none hash = Bool.false
is_hash (some h) hash = h == hash

-- The first file that is no configuration of Multus.
first_master : Libraries → String → List String → Result String
unfolding starts_with
first_master L dir [] = err (errorf ("cannot find valid master CNI config in " <> dir))
first_master L dir (file ∷ files) =
    if not (starts_with "00-multus.conf" (L.base file)) then ok file else first_master L dir files

module _ (L : Libraries) where
  unfoldable pub get_file_and_hash : String → Io (String × String)
  unfolding stat_file read_text
  get_file_and_hash path =
      saying ("file " <> path <> " not found: ") (stat_file path)
      >> saying ("cannot read " <> path <> " file: ") (read_text path)
      >>= λ content. give (content, L.sha256 content)

  unfoldable pub get_master_config_path : Options → Io String
  unfolding first_master
  get_master_config_path o =
      if o.multus_master_cni_file_name != ""
      then give (L.join o.multus_autoconfig_dir o.multus_master_cni_file_name)
      else saying "cannot find master CNI config: "
          (λ d. lift (L.conf_files d o.multus_autoconfig_dir) d)
        >>= λ files. lift (first_master L o.multus_autoconfig_dir files)

  -- Whether a removal fails is not looked at.
  abbrev discarded : Io (Unit {0}) → Io (Unit {0})
  discarded m d = (ok tt, (m d).1)

  unfoldable pub cleanup_multus_conf : Options → Io (Unit {0})
  unfolding remove_file
  cleanup_multus_conf o =
      if o.multus_conf_file == "auto"
      then discarded (remove_file (o.cni_conf_dir <> "/00-multus.conf"))
        >> discarded (remove_file (o.cni_conf_dir <> "/00-multus.conflist"))
      else discarded (remove_file (L.join o.cni_conf_dir (L.base o.multus_conf_file)))
