-- ===== src/Cmdutils/Copied.antt =====
-- What a copy leaves.
use Prim.Native.String.{[], ◌∷◌}
use multus_cni.Base.{
  String, ◌≡◌, ◌≢◌, refl, sym, ap, ◌∙◌, Bool-cases, inl, inr, Option, none, some, string_eq,
  eq_self, arith,
}
use multus_cni.Base.Outcome.{Outcome}
use multus_cni.Disk.{
  Disk, ◌>>=◌, store, read_text, write_text, rename_file, remove_file, overlay, create_temp, sync,
  close, chmod, text_of,
}
use multus_cni.Disk.Ends.{
  Ends, succeeds, refuses, Ends-next, Ends-reworded, Ends-map, Ends-after_error, attempt-Ends,
  stat_file-Ends, open_text-Ends, read_text-Ends,
}
use multus_cni.Disk.Changes.{remove_file-Ends, write_text-any, rename_file-any}
use multus_cni.Cmdutils.{stale_removed, created, unless_missing, copy_file_atomic}
use multus_cni.Os.{is_not_exist}

overlay-empty : (text : String) → overlay text "" ≡ text
unfolding overlay
overlay-empty [] = refl
overlay-empty (c ∷ text) = refl

state_of : {A : Type 0} {P : Disk → Type 0} {x : Outcome Disk A} → Ends (λ _. P) P x → P x.1
state_of (succeeds p) = p
state_of (refuses p) = p

module _ (name dest src : String) (d0 : Disk) where
  -- The target and the source are as they were.
  abbrev pub Kept : Disk → Type 0
  Kept d = (d.files dest ≡ d0.files dest) × (d.files src ≡ d0.files src)

  -- The temporary file holds a text besides.
  abbrev Held : String → Disk → Type 0
  Held text d = Kept d × (d.files name ≡ some text)

  -- The copy is in place.
  abbrev pub Copied : Disk → Type 0
  Copied d = (text : String) × (d0.files src ≡ some text) × (d.files dest ≡ some text)

  -- The temporary file holds what the source holds.
  abbrev Full : Disk → Type 0
  Full d = (text : String) × (d0.files src ≡ some text) × Held text d

  store-Kept :
      (path : String) (text : Option String) (d : Disk)
      → dest ≢ path
      → src ≢ path
      → Kept d
      → Kept (store path text d)
  store-Kept path text d nd ns (kd, ks) = (ground (arith, nd, kd), ground (arith, ns, ks))

  stale_removed-Kept :
      (path : String) {x : Outcome Disk (Unit {0})}
      → dest ≢ path
      → src ≢ path
      → Ends (λ _. Kept) Kept x
      → Ends (λ _. Kept) Kept (stale_removed path x)
  unfolding stale_removed
  stale_removed-Kept path nd ns (succeeds {d = d} k) =
      Ends-reworded "cannot remove old temp file: "
        (remove_file-Ends path d (λ d h. store-Kept path none d nd ns h) k)
  stale_removed-Kept path nd ns (refuses k) = succeeds k

  removal-Kept :
      (path : String) → dest ≢ path → src ≢ path → (d : Disk) → Kept d → Kept (remove_file path d).1
  removal-Kept path nd ns d k =
      state_of (remove_file-Ends path d (λ d h. store-Kept path none d nd ns h) k)

  module _ (differ : dest ≢ name) (apart : src ≢ name) where
    created-Held : (d : Disk) → Kept d → Ends (λ _. Held "") Kept (created name d)
    unfolding created
    created-Held d k =
        Ends-next (attempt-Ends create_temp name d k)
          λ _ d' k'. succeeds (store-Kept name (some "") d' differ apart k', rw (eq_self name) refl)

    filled : (d : Disk) → Held "" d → Ends (λ _. Full) Kept ((read_text src >>= write_text name) d)
    filled d h =
        Ends-next (Ends-map (λ _ _ p. p) (λ _ p. p.0) (read_text-Ends {P = Held ""} src d h))
          λ text d' ((k, e), there).
            let new : Option String → String = λ o. overlay text (text_of o) in
            write_text-any name text d'
              (
                text,
                sym k.1 ∙ there,
                (
                  store-Kept name _ d' differ apart k,
                  rw (eq_self name) (ap some (ap new e ∙ overlay-empty text)),
                ),
              )
              (λ t. store-Kept name (some t) d' differ apart k)

    -- A call that keeps the temporary file as it is.
    going : {x : Outcome Disk (Unit {0})} → Ends (λ _. Full) Full x → Ends (λ _. Full) Kept x
    going = Ends-map (λ _ _ p. p) (λ _ p. p.2.0)

    unless_missing-Full :
        {x : Outcome Disk (Unit {0})}
        → Ends (λ _. Full) Full x
        → Ends (λ _. Full) Full (unless_missing x)
    unfolding unless_missing
    unless_missing-Full (succeeds f) = succeeds f
    unless_missing-Full (refuses {e = e} f) = elim (Bool-cases (is_not_exist e.kind)) [
      | inl missing ↦ rw missing (succeeds f)
      | inr other ↦ rw other (refuses f)
    ]

    replaced : (d : Disk) → Full d → Ends (λ _. Copied) Kept (rename_file name dest d)
    replaced d f =
        Ends-map (λ _ _ p. p) (λ _ p. p.2.0)
          (rename_file-any {P = Full} {R = Copied} name dest d
            (λ t d' (text, e, (k, held)) there. (text, e, rw (eq_self dest) (sym there ∙ held))) f)

-- A copy ends, and whatever call is refused, the target is as it was or holds the whole text of the source;
-- it holds it where the copy succeeds, and the source is as it was where it fails. The temporary files have
-- names of their own.
pub copy_file_atomic-Ends :
    (join : String → String → String) (src dir temp dest : String) (d : Disk)
    → join dir dest ≢ join dir temp
    → src ≢ join dir temp
    → join dir dest ≢ d.temp_name dir temp
    → src ≢ d.temp_name dir temp
    → Ends
        (λ _. Copied (d.temp_name dir temp) (join dir dest) src d)
        (Kept (d.temp_name dir temp) (join dir dest) src d)
        (copy_file_atomic join src dir temp dest d)
unfolding copy_file_atomic
copy_file_atomic-Ends join src dir temp dest d n1 n2 n3 n4 =
    let path = join dir temp in
    let name = d.temp_name dir temp in
    let target = join dir dest in
    let full : Disk → Type 0 = Full name target src d in
    Ends-next
      (Ends-next
        (stale_removed-Kept name target src d path n1 n2
          (stat_file-Ends {P = Kept name target src d} path d (refl, refl)))
        λ _ d1 k. Ends-reworded _ (created-Held name target src d n3 n4 d1 k))
      λ _ d2 h.
        Ends-next
          (Ends-next
            (Ends-next
              (Ends-next
                (Ends-next
                  (Ends-next
                    (Ends-next
                      (Ends-reworded _ (
                        Ends-map {R = λ _. Held name target src d ""} (λ _ _ p. p) (λ _ p. p.0)
                          (open_text-Ends {P = Held name target src d ""} src d2 h)))
                      λ _ d3 h3.
                        Ends-after_error (remove_file path)
                          (removal-Kept name target src d path n1 n2)
                          (Ends-reworded _ (filled name target src d n3 n4 d3 h3)))
                    λ _ d4 f.
                      Ends-reworded _
                        (going name target src d n3 n4 (attempt-Ends {P = full} sync name d4 f)))
                  λ _ d5 f.
                    Ends-reworded _
                      (going name target src d n3 n4 (attempt-Ends {P = full} close name d5 f)))
                λ _ d6 f. going name target src d n3 n4 (
                  unless_missing-Full name target src d n3 n4
                    (stat_file-Ends {P = full} target d6 f)))
              λ _ d7 f. going name target src d n3 n4 (stat_file-Ends {P = full} src d7 f))
            λ _ d8 f.
              Ends-reworded _
                (going name target src d n3 n4 (attempt-Ends {P = full} chmod name d8 f)))
          λ _ d9 f. Ends-reworded _ (replaced name target src d n3 n4 d9 f)
