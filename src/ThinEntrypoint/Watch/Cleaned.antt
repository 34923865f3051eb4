-- ===== src/ThinEntrypoint/Watch/Cleaned.antt =====
-- What the entry point leaves when it ends.
use multus_cni.Base.{◌<>◌, ◌≡◌, true, none, List, arith}
use multus_cni.Base.Result.{ok}
use multus_cni.Disk.{remove, Disk, remove_file}
use multus_cni.Disk.Removal.{removed_both}
use multus_cni.ThinEntrypoint.{Options, Libraries}
use multus_cni.ThinEntrypoint.Files.{cleanup_multus_conf}
use multus_cni.ThinEntrypoint.Watch.{Watching, start, served, run, entry}

module _ (L : Libraries) where
  cleanup_multus_conf-auto :
      (o : Options) (d : Disk)
      → o.multus_conf_file ≡ "auto"
      → (cleanup_multus_conf L o d).1
        ≡ (remove_file
            (o.cni_conf_dir <> "/00-multus.conflist")
            (remove_file (o.cni_conf_dir <> "/00-multus.conf") d).1).1
  unfolding cleanup_multus_conf
  cleanup_multus_conf-auto o d auto = ground (arith, auto)

  run-deferred :
      (changes : List (Disk → Disk)) (w : Watching) (d : Disk)
      → w.options.cleanup_config_on_exit ≡ true
      → (run L changes w d).1 ≡ (cleanup_multus_conf L w.options (served L changes w d).1).1
  unfolding run
  run-deferred changes w d cleans = ground (arith, cleans)

  run-cleans :
      (changes : List (Disk → Disk)) (w : Watching) (d : Disk)
      → w.options.cleanup_config_on_exit ≡ true
      → w.options.multus_conf_file ≡ "auto"
      → (served L changes w d).1.fault remove (w.options.cni_conf_dir <> "/00-multus.conf") ≡ none
      → (served L changes w d).1.fault remove (w.options.cni_conf_dir <> "/00-multus.conflist")
        ≡ none
      → ((run L changes w d).1.files (w.options.cni_conf_dir <> "/00-multus.conf") ≡ none)
        × ((run L changes w d).1.files (w.options.cni_conf_dir <> "/00-multus.conflist") ≡ none)
  run-cleans changes w d cleans auto fa fb =
      let d1 = (served L changes w d).1 in
      let both =
        removed_both (w.options.cni_conf_dir <> "/00-multus.conf")
          (w.options.cni_conf_dir <> "/00-multus.conflist") d1 fa fb in
      rw (run-deferred changes w d cleans, cleanup_multus_conf-auto w.options d1 auto) both

  -- Once its start has succeeded, an entry point that is to clean up leaves no generated configuration
  -- behind, whether its loop ends at the first signal, at an error or at a panic, and whatever other
  -- processes did to the files meanwhile. The removal of the two files is not refused at the end. A second
  -- signal, which exits at once, is not spoken of.
  pub entry-cleans :
      (changes : List (Disk → Disk)) (o : Options) (w : Watching) (d d' : Disk)
      → start L o d ≡ (ok w, d')
      → w.options.cleanup_config_on_exit ≡ true
      → w.options.multus_conf_file ≡ "auto"
      → (served L changes w d').1.fault remove (w.options.cni_conf_dir <> "/00-multus.conf") ≡ none
      → (served L changes w d').1.fault remove (w.options.cni_conf_dir <> "/00-multus.conflist")
        ≡ none
      → ((entry L changes o d).1.files (w.options.cni_conf_dir <> "/00-multus.conf") ≡ none)
        × ((entry L changes o d).1.files (w.options.cni_conf_dir <> "/00-multus.conflist") ≡ none)
  unfolding entry
  entry-cleans changes o w d d' started cleans auto fa fb =
      rw started (run-cleans changes w d' cleans auto fa fb)
