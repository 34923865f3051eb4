-- ===== src/Server/Config/Manager/Forced.antt =====
-- forceCNIVersion: the primary configuration that is written with the version of Multus is then loaded.
use mathlib.Core.Option
use mathlib.Core.Path.{ap₂}
use multus_cni.Base.{
  String, ◌<>◌, ◌≡◌, refl, ap, ◌∙◌, inl, inr, Option-cases, none, some, string_eq, arith,
}
use multus_cni.Base.Outcome.{
  Outcome, Yields, gives, errs, unwinds, Yields-from, Yields-map, of_Yields,
}
use multus_cni.Base.Result.{
  Result, ok, err, panic, context, Ensures, returns, fails, panics, Ensures-bind, ◌>>=◌,
}
use multus_cni.Json.{
  Value, str, obj, null, bool, num, nil_slice, texts, arr, Fields, get, put, Bytes, json, malformed,
  marshal, unmarshal, written, written_fields,
}
use multus_cni.Json.Laws.{get-put_self, get-written_fields}
use multus_cni.Os.{
  Os, store, read_file, write_file, write_file-stores, write_file-refuses, read_file-store,
}
use multus_cni.Server.Config.Generator.{MultusConf, Semver, check_version_compatibility}
use multus_cni.Server.Config.Generator.Versions.{check_version_compatibility-same}
use multus_cni.Server.Config.Manager.{
  primary_cni_data, decoded, Paths, put_version, version_written, override_cni_version,
}

read_file-fault :
    (os : Os) (path : String) {bytes : Bytes}
    → read_file os path ≡ ok bytes
    → os.read_fault path ≡ none
unfolding read_file
read_file-fault os path h = ground (arith, h)

-- A configuration that carries a version.
abbrev Carries : String → Fields → Type 0
Carries version fields = get "cniVersion" fields ≡ some (str version)

carried :
    (version : String) (m : Fields)
    → Carries version (written_fields (put "cniVersion" (str version) m))
unfolding written
carried version m =
    get-written_fields "cniVersion" (put "cniVersion" (str version) m)
    ∙ ap (λ o. Option.map written o) (get-put_self "cniVersion" (str version) m)

put_version-Carries :
    (file version : String) (bytes : Bytes)
    → Ensures
        (λ b. (fields : Fields) × (b ≡ json (obj fields)) × Carries version fields)
        (put_version file version bytes)
unfolding put_version marshal unmarshal
put_version-Carries file version (malformed text) = fails
put_version-Carries file version (json null) = panics
put_version-Carries file version (json (bool b)) = fails
put_version-Carries file version (json (num n)) = fails
put_version-Carries file version (json (str s)) = fails
put_version-Carries file version (json nil_slice) = fails
put_version-Carries file version (json (arr vs)) = fails
put_version-Carries file version (json (texts d)) = fails
put_version-Carries file version (json (obj m)) =
    let fields = put "cniVersion" (str version) m in
    returns (written_fields fields, refl, carried version m)

-- The file that is written back.
Forces : Os → String → String → String × Bytes → Type 0
Forces os path version (path', bytes) =
    (path' ≡ path)
    × (os.read_fault path ≡ none)
    × (fields : Fields) × (bytes ≡ json (obj fields))
    × Carries version fields

read-Forces :
    (P : Paths) (file version path : String) (os : Os) (r : Result Bytes)
    → read_file os path ≡ r
    → Ensures (Forces os path version) (
        context ("failed to read cni config " <> path <> ": ") r >>= λ bytes.
        put_version file version bytes >>= λ bytes'. ok (path, bytes'))
unfolding Forces
read-Forces P file version path os (ok bytes) e =
    Ensures-bind (put_version-Carries file version bytes) λ bytes' carries.
      let (fields, b, c) = carries in returns (refl, read_file-fault os path e, fields, b, c)
read-Forces P file version path os (err f) e = fails
read-Forces P file version path os panic e = panics

write_file-Yields :
    (os : Os) (path : String) (bytes : Bytes)
    → Yields (λ _ os'. os' ≡ store os path (some bytes)) (write_file os path bytes)
write_file-Yields os path bytes = elim (Option-cases (os.write_fault path)) [
  | inl h ↦ rw (write_file-stores os path bytes h) (gives refl)
  | inr (e, h) ↦ rw (write_file-refuses os path bytes h) errs
]

reworded :
    {Q : Os → Type 0} (prefix : String) {x : Outcome Os (Unit {0})}
    → Yields (λ _ os'. Q os') x
    → Yields (λ _ os'. Q os') (context prefix x.0, x.1)
reworded prefix (gives q) = gives q
reworded prefix errs = errs
reworded prefix unwinds = unwinds

version_written-Yields :
    (os : Os) (path : String) (bytes : Bytes)
    → Yields (λ _ os'. os' ≡ store os path (some bytes)) (version_written os (path, bytes))
unfolding version_written
version_written-Yields os path bytes =
    reworded "couldn't update cluster network config: " (write_file-Yields os path bytes)

-- The file is replaced by a configuration that carries the version.
Replaces : Os → String → String → Os → Type 0
Replaces os file version os' =
    (os.read_fault file ≡ none)
    × (fields : Fields) × (os' ≡ store os file (some (json (obj fields))))
    × Carries version fields

replaced :
    (os os' : Os) (file version : String) (x : String × Bytes)
    → Forces os file version x
    → os' ≡ store os x.0 (some x.1)
    → Replaces os file version os'
unfolding Forces Replaces
replaced os os' file version (path, bytes) (p, reads, fields, b, carries) e =
    (reads, fields, e ∙ ap₂ (λ q c. store os q (some c)) p b, carries)

override-Replaces :
    (P : Paths) (file version : String) (os : Os)
    → P.abs file ≡ ok file
    → Yields (λ _ os'. Replaces os file version os') (override_cni_version P file version os)
unfolding override_cni_version
override-Replaces P file version os abs = rw abs (
    Yields-from (λ x os'. version_written os' x)
      (read-Forces P file version file os (read_file os file) refl)
      λ x forces.
        Yields-map (λ _ os' e. replaced os os' file version x forces e)
          (version_written-Yields os x.0 x.1))

-- After a version is forced into the primary configuration, the configuration that is read from its
-- file is compatible with that version of Multus. The path of the file is absolute, and the version
-- is one that package semver reads.
pub override_cni_version-compatible :
    {V : Type 0} (S : Semver V) (P : Paths) (conf : MultusConf) (file : String) (os os' : Os)
    {v : V}
    → P.abs file ≡ ok file
    → S.make conf.cni_version ≡ ok v
    → override_cni_version P file conf.cni_version os ≡ (ok tt, os')
    → (primary : Value) × (primary_cni_data os' file ≡ ok primary)
      × (check_version_compatibility S conf primary ≡ ok tt)
unfolding Replaces primary_cni_data decoded
override_cni_version-compatible S P conf file os os' abs make h =
    let (reads, fields, e, carries) =
      of_Yields (override-Replaces P file conf.cni_version os abs) h in
    (
      obj fields,
      rw e (rw (read_file-store os file (json (obj fields)) reads) refl),
      check_version_compatibility-same S conf fields make carries,
    )
