-- ===== src/Multus/Scratch/RoundTrip.antt =====
-- CmdDel finds the delegates that CmdAdd has saved.
use mathlib.Core.Path.{ap₂}
use multus_cni.Base.{
  String, ◌≡◌, refl, ◌⊎◌, inl, inr, ◌∙◌, ap, sym, Bool, true, false, Option, none, some, List, [],
  ◌∷◌, map, All, string_eq,
}
use multus_cni.Base.Result.{Result, ok}
use multus_cni.Json.{Bytes}
use multus_cni.Os.{Os, store, write_file-stores, read_file-store}
use multus_cni.Types.{CniConf, DelegateNetConf}
use multus_cni.Conf.Netconf.{mark_master}
use multus_cni.Conf.Netconf.Laws.{IsMastered}
use multus_cni.Multus.Scratch.{
  Codec, scratch_path, save_scratch_net_conf, made_directory, written_scratch, enable_for,
  save_encoded, saved_delegates, save_delegates, consume_scratch_net_conf, enable_list,
  decoded_delegates, cached_delegates,
}

-- A list of configurations has a first plugin, and a configuration has no plugin list.
abbrev pub IsShaped : DelegateNetConf → Type 0
IsShaped d =
    ((d.conf_list_plugin ≡ true)
      × (p : CniConf) × (ps : List CniConf) × (d.conf_list.plugins ≡ some (p ∷ ps)))
    ⊎ ((d.conf_list_plugin ≡ false) × (d.conf_list.plugins ≡ none))

abbrev nonempty : Option (List String) → Option (List String)
nonempty (some (ip ∷ ips)) = some (ip ∷ ips)
nonempty _ = none

-- A delegate without its requests of ports and of bandwidth, which its JSON leaves out. A list of
-- no addresses is left out as well.
abbrev pub without_requests : DelegateNetConf → DelegateNetConf
without_requests d = record d {
  ip_request = nonempty d.ip_request;
  port_mappings_request = none;
  bandwidth_request = none;
}

-- What the JSON of a delegate keeps of it.
abbrev pub kept : DelegateNetConf → DelegateNetConf
kept d = record (without_requests d) { master_plugin = false; conf_list_plugin = false }

module _ (C : Codec) where
  enable_list-kept :
      (d : DelegateNetConf)
      → IsShaped d
      → enable_list C (kept d) ≡ record (without_requests d) { master_plugin = false }
  unfolding enable_list
  enable_list-kept d (inl (l, p, ps, e)) =
      ap (λ o. enable_for C (kept d) o) e
      ∙ ap (λ b. record (without_requests d) { master_plugin = false; conf_list_plugin = b })
          (sym l)
  enable_list-kept d (inr (l, e)) =
      ap (λ o. enable_for C (kept d) o) e
      ∙ ap (λ b. record (without_requests d) { master_plugin = false; conf_list_plugin = b })
          (sym l)

  enable_list-slave :
      (d : DelegateNetConf)
      → IsShaped d
      → d.master_plugin ≡ false
      → enable_list C (kept d) ≡ without_requests d
  enable_list-slave d shaped slave =
      enable_list-kept d shaped
      ∙ ap (λ b. record (without_requests d) { master_plugin = b }) (sym slave)

  map_enable-slaves :
      (ds : List DelegateNetConf)
      → All IsShaped ds
      → All (λ d. d.master_plugin ≡ false) ds
      → map (enable_list C) (map kept ds) ≡ map without_requests ds
  map_enable-slaves [] shaped slaves = refl
  map_enable-slaves (d ∷ ds) (s, shaped) (m, slaves) =
      ap₂ (λ x xs. x ∷ xs) (enable_list-slave d s m) (map_enable-slaves ds shaped slaves)

  abbrev marked : DelegateNetConf → List DelegateNetConf → Result (Option (List DelegateNetConf))
  marked d ds = ok (some (record d { master_plugin = true } ∷ ds))

  abbrev first_as :
      Bool → DelegateNetConf → List DelegateNetConf → Result (Option (List DelegateNetConf))
  first_as b d ds =
      ok (some (record (without_requests d) { master_plugin = b } ∷ map without_requests ds))

  restored :
      (ds : List DelegateNetConf)
      → All IsShaped ds
      → IsMastered ds
      → decoded_delegates C (some (map kept ds)) ≡ ok (some (map without_requests ds))
  unfolding decoded_delegates mark_master
  restored [] shaped mastered = absurd mastered
  restored (d ∷ ds) (s, shaped) (m, slaves) =
      ap₂ marked (enable_list-kept d s) (map_enable-slaves ds shaped slaves)
      ∙ ap (λ b. first_as b d ds) (sym m)

  read_saved :
      (container_id data_dir : String) (bytes : Bytes) (os : Os)
      → C.mkdir_fault data_dir ≡ none
      → os.write_fault (scratch_path os container_id data_dir) ≡ none
      → os.read_fault (scratch_path os container_id data_dir) ≡ none
      → (os' : Os) × (save_scratch_net_conf C container_id data_dir bytes os ≡ (ok tt, os'))
        × ((consume_scratch_net_conf C container_id data_dir os').0 ≡ ok bytes)
  unfolding save_scratch_net_conf made_directory written_scratch consume_scratch_net_conf
  read_saved container_id data_dir bytes os made writes reads =
      let path = scratch_path os container_id data_dir in
      (
        store os path (some bytes),
        rw made (rw (write_file-stores os path bytes writes) refl),
        read_file-store os path bytes reads,
      )

  -- Delegates that are saved are found by a deletion, where they begin with the master and are
  -- shaped as loaded ones are, the file can be written and read, and decoding gives back what the
  -- JSON of the delegates keeps. Only the requests of ports and bandwidth are lost, and an empty
  -- list of requested addresses.
  pub cached_delegates-save :
      (container_id data_dir : String) (delegates : List DelegateNetConf) (bytes : Bytes) (os : Os)
      → All IsShaped delegates
      → IsMastered delegates
      → C.mkdir_fault data_dir ≡ none
      → os.write_fault (scratch_path os container_id data_dir) ≡ none
      → os.read_fault (scratch_path os container_id data_dir) ≡ none
      → C.encode delegates ≡ ok bytes
      → C.decode bytes ≡ some (map kept delegates)
      → (os' : Os) × (save_delegates C container_id data_dir delegates os ≡ (ok tt, os'))
        × (cached_delegates C (consume_scratch_net_conf C container_id data_dir os').0
            ≡ ok (some (map without_requests delegates)))
  unfolding save_delegates save_encoded saved_delegates cached_delegates
  cached_delegates-save container_id data_dir delegates bytes os shaped mastered made writes reads
        encoded decoded =
      let (os', saved, found) = read_saved container_id data_dir bytes os made writes reads in
      (os', rw encoded (rw saved refl), rw found (rw decoded (restored delegates shaped mastered)))
