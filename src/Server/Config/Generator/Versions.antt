-- ===== src/Server/Config/Generator/Versions.antt =====
-- A delegate with the version of Multus is compatible.
use multus_cni.Base.{String, ◌≡◌, refl, Bool-cases, inl, inr, true, some}
use multus_cni.Base.Result.{ok}
use multus_cni.Json.{str, obj, Fields, get}
use multus_cni.Server.Config.Generator.{
  MultusConf, Semver, check_version_compatibility, top_checked, delegate_checked, check_delegate,
}

checked :
    {V : Type 0} (S : Semver V) (version : String) (fields : Fields) {v : V}
    → S.make version ≡ ok v
    → get "cniVersion" fields ≡ some (str version)
    → S.gte v S.v040 ≡ true
    → delegate_checked S version (obj fields) ≡ ok tt
unfolding delegate_checked check_delegate
checked S version fields make same fits = rw same (rw make (rw fits refl))

pub check_version_compatibility-same :
    {V : Type 0} (S : Semver V) (conf : MultusConf) (fields : Fields) {v : V}
    → S.make conf.cni_version ≡ ok v
    → get "cniVersion" fields ≡ some (str conf.cni_version)
    → check_version_compatibility S conf (obj fields) ≡ ok tt
unfolding check_version_compatibility top_checked delegate_checked check_delegate
check_version_compatibility-same S conf fields {v} make same = elim (Bool-cases (S.gte v S.v040)) [
  | inl h ↦ rw (make, h) (checked S conf.cni_version fields make same h)
  | inr h ↦ rw (make, h) refl
]
