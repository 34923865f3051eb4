-- ===== src/ThinEntrypoint/Config/Pinned.antt =====
-- The version that the first generation takes from the master.
use multus_cni.Base.{
  String, ◌<>◌, ◌≡◌, ◌≢◌, refl, false, Bool-cases, inl, inr, some, ◌==◌, string_eq, eq_other, arith,
}
use multus_cni.Base.Result.{
  ok, err, Error, errorf, Ensures, Ensures-of, returns, Ensures-bind, Ensures-after, of_Ensures,
}
use multus_cni.Json.{str, Fields, get}
use multus_cni.Disk.{Disk}
use multus_cni.ThinEntrypoint.{Options, Libraries}
use multus_cni.ThinEntrypoint.Files.{get_file_and_hash, get_master_config_path}
use multus_cni.ThinEntrypoint.Config.{Plan, with_version, template_data, plan, create_multus_config}

with_version-takes :
    (o : Options) (config : Fields) (version : String) (step : Options × Fields)
    → o.force_cni_version ≡ false
    → get "cniVersion" config ≡ some (str version)
    → with_version o config ≡ ok step
    → (step.0.cni_version ≡ version) × (step.0.force_cni_version ≡ false)
unfolding with_version
with_version-takes o config version step force e h = ground (arith, force, e, h)

with_version-refuses :
    (o : Options) (config : Fields) (version : String)
    → o.force_cni_version ≡ false
    → o.cni_version ≢ ""
    → get "cniVersion" config ≡ some (str version)
    → version ≢ o.cni_version
    → (failure : Error) × (with_version o config ≡ err failure)
unfolding with_version
with_version-refuses o config version force ne e differs = (
  errorf (
      "Multus cni version is " <> o.cni_version <> " while master plugin cni version is "
      <> version),
  ground (arith, force, ne, e, differs),
)

module _ (L : Libraries) where
  plan-takes :
      (o : Options) (content : String) (config : Fields) (version : String)
      → o.force_cni_version ≡ false
      → L.parse content ≡ ok config
      → get "cniVersion" config ≡ some (str version)
      → Ensures
          (λ p. (p.options.cni_version ≡ version) × (p.options.force_cni_version ≡ false))
          (plan L o content)
  unfolding plan
  plan-takes o content config version force parsed e = rw parsed (
      Ensures-bind (Ensures-of (λ step. with_version-takes o config version step force e))
        λ step facts. Ensures-after (template_data L step.0 step.1) λ t.
          elim (Bool-cases (step.0.cni_version == "1.0.0")) [
            | inl is ↦ rw is (returns facts)
            | inr other ↦ rw other (returns facts)
          ])

  plan-refuses :
      (o : Options) (content : String) (config : Fields) (failure : Error)
      → L.parse content ≡ ok config
      → with_version o config ≡ err failure
      → plan L o content ≡ err failure
  unfolding plan
  plan-refuses o content config failure parsed refused = rw (parsed, refused) refl

  -- A master that changes its version is refused: where a configuration was planned for the version of the
  -- master's file, a later generation that finds another version in it fails, and writes nothing. The
  -- version is not forced, and the file has changed since.
  pub create_multus_config-refuses :
      (o : Options) (p : Plan) (before after : Fields)
      (version later path old_hash hash content content' : String) (d : Disk)
      → o.force_cni_version ≡ false
      → L.parse content ≡ ok before
      → get "cniVersion" before ≡ some (str version)
      → version ≢ ""
      → plan L o content ≡ ok p
      → get_master_config_path L p.options d ≡ (ok path, d)
      → get_file_and_hash L path d ≡ (ok (content', hash), d)
      → old_hash ≢ hash
      → L.parse content' ≡ ok after
      → get "cniVersion" after ≡ some (str later)
      → later ≢ version
      → (failure : Error) × (create_multus_config L (some old_hash) p.options d ≡ (err failure, d))
  unfolding create_multus_config
  create_multus_config-refuses o p before after version later path old_hash hash content content' d
        force parsed e ne planned found read changed parsed' e' differs =
      let (taken, force') =
        of_Ensures (plan-takes o content before version force parsed e) planned in
      let (failure, refused) =
        with_version-refuses p.options after later force' (rw taken ne) e' (rw taken differs) in
      (
        failure,
        rw
            (
              found,
              read,
              plan-refuses p.options content' after failure parsed' refused,
              eq_other old_hash hash changed,
            )
            refl,
      )
