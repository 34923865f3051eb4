-- ===== src/ThinEntrypoint/Config/Installed.antt =====
-- What a generation of the configuration leaves.
use text.Mathlib.TextLemmas.{append_cancel_left}
use multus_cni.Base.{
  String, ◌<>◌, ◌≡◌, ◌≢◌, ◌⊎◌, inl, inr, refl, ap, false, Option, some, ◌==◌, ◌!=◌, string_eq,
  if◌then◌else◌, Bool-cases, ne_by_test,
}
use multus_cni.Base.Result.{ok, context, Ensures, returns, Ensures-after, of_Ensures}
use multus_cni.Base.Outcome.{Outcome, next}
use multus_cni.Disk.{Disk, give, saying, rename_file, text_of, overlay}
use multus_cni.Disk.Ends.{OnlyAt, Ends, succeeds, refuses}
use multus_cni.Disk.Install.{install-Ends, Placed}
use multus_cni.Disk.Reading.{
  Reading, reads, fails, unwinds, Reading-then, Reading-next, Reading-reworded, lift-Reading,
  stat_file-Reading, read_text-Reading,
}
use multus_cni.ThinEntrypoint.{Options, Libraries}
use multus_cni.ThinEntrypoint.Files.{is_hash, get_file_and_hash, get_master_config_path}
use multus_cni.ThinEntrypoint.Config.{
  Plan, plan, temp_file, with_version, template_data, written, labels, master_renamed,
  create_multus_config,
}

forget :
    {A : Type 0} {d : Disk} {P : A → Type 0} {x : Outcome Disk A}
    → Reading d P x
    → Reading d (λ _. Unit {0}) x
forget (reads _) = reads tt
forget fails = fails
forget unwinds = unwinds

master_renamed-kept :
    (o : Options) (path : String) → o.rename_conf_file ≡ false → master_renamed o path ≡ give tt
unfolding master_renamed
master_renamed-kept o path keeps =
    ap
      (λ b.
        if b
        then saying "cannot move original master file: " (rename_file path (path <> ".old"))
        else give tt)
      keeps

target-ne_temp :
    (o : Options) (name : String)
    → name ≢ "/00-multus.conf.new"
    → o.cni_conf_dir <> name ≢ temp_file o
target-ne_temp o name ne e = ne (append_cancel_left o.cni_conf_dir name "/00-multus.conf.new" e)

module _ (L : Libraries) where
  pub get_file_and_hash-Reading :
      (d : Disk) (path : String)
      → Reading d
          (λ (content, hash). (d.files path ≡ some content) × (hash ≡ L.sha256 content))
          (get_file_and_hash L path d)
  unfolding get_file_and_hash
  get_file_and_hash-Reading d path =
      Reading-next _
        (Reading-next _ (Reading-reworded _ (stat_file-Reading d path))
          λ _ _. Reading-reworded _ (read_text-Reading d path))
        λ content e. reads (e, refl)

  pub get_master_config_path-Reading :
      (d : Disk) (o : Options) → Reading d (λ _. Unit {0}) (get_master_config_path L o d)
  unfolding get_master_config_path
  get_master_config_path-Reading d o = elim (Bool-cases (o.multus_master_cni_file_name != "")) [
    | inl e ↦ rw e (reads tt)
    | inr e ↦ rw e (
        Reading-next _
          (Reading-reworded _ (lift-Reading d (L.conf_files d o.multus_autoconfig_dir)))
          λ files _. forget (lift-Reading d _))
  ]

  plan-target :
      (o : Options) (content : String) → Ensures (λ p. p.target ≢ temp_file o) (plan L o content)
  unfolding plan
  plan-target o content = Ensures-after (context _ (L.parse content)) λ read.
      Ensures-after (with_version o read) λ step. Ensures-after (template_data L step.0 step.1) λ t.
        elim (Bool-cases (step.0.cni_version == "1.0.0")) [
          | inl e ↦ rw e (returns (target-ne_temp o "/00-multus.conflist" (ne_by_test _ _ refl)))
          | inr e ↦ rw e (returns (target-ne_temp o "/00-multus.conf" (ne_by_test _ _ refl)))
        ]

  -- What regenerates a file: the configuration that is planned for what the master's file holds.
  abbrev pub Regenerated : Options → Disk → String → Disk → Type 0
  Regenerated o d p d' =
      (path : String) × (content : String) × (new : Plan) × (d.files path ≡ some content)
      × (plan L o content ≡ ok new)
      × (p ≡ new.target)
      × (d'.files p ≡ some (overlay new.text (text_of (d.files (temp_file o)))))

  abbrev pub IsAtomic : {A : Type 0} → Options → Disk → Outcome Disk A → Type 0
  IsAtomic o d x =
      (p : String) → p ≢ temp_file o → (x.1.files p ≡ d.files p) ⊎ Regenerated o d p x.1

  module _ (o : Options) (d : Disk) (path content : String) (new : Plan)
      (e : d.files path ≡ some content) (planned : plan L o content ≡ ok new)
      (differ : new.target ≢ temp_file o) where
    Placed-IsAtomic :
        {A : Type 0} (value : A) {x : Outcome Disk (Unit {0})}
        → Ends
            (λ _.
              Placed
                (temp_file o)
                new.target
                differ
                d
                (overlay new.text (text_of (d.files (temp_file o)))))
            (OnlyAt (temp_file o) d)
            x
        → IsAtomic o d (next (λ _. give value) (next (λ _. give tt) x))
    Placed-IsAtomic value (succeeds (here, others)) p np = elim (string_eq.dec p new.target) [
      | yes same ↦ inr (path, content, new, e, planned, same, rw same here)
      | no other ↦ inl (others p np other)
    ]
    Placed-IsAtomic value (refuses only) p np = inl (only p np)

    written-IsAtomic :
        (hash : String) → o.rename_conf_file ≡ false → IsAtomic o d (written o path hash new d)
    unfolding written
    written-IsAtomic hash keeps = rw (master_renamed-kept o path keeps) (
        Placed-IsAtomic (new.options, path, hash)
          (install-Ends (temp_file o) new.target differ d labels false new.text))

  pub create_multus_config-IsAtomic :
      (prev : Option String) (o : Options) (d : Disk)
      → o.rename_conf_file ≡ false
      → IsAtomic o d (create_multus_config L prev o d)
  unfolding create_multus_config
  create_multus_config-IsAtomic prev o d keeps =
      Reading-then (IsAtomic o d) _ (get_master_config_path-Reading d o) (λ r p np. inl refl)
        λ path _.
          Reading-then (IsAtomic o d) _ (get_file_and_hash-Reading d path) (λ r p np. inl refl)
            λ (content, hash) (e, _). elim (Bool-cases (is_hash prev hash)) [
              | inl same ↦ rw same (λ p np. inl refl)
              | inr differs ↦ rw differs (
                  Reading-then (IsAtomic o d) _ (lift-Reading d (plan L o content))
                    (λ r p np. inl refl)
                    λ new planned.
                      written-IsAtomic o d path content new e planned
                        (of_Ensures (plan-target o content) planned) hash keeps)
            ]
