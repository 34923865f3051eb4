-- ===== src/ThinEntrypoint/Kubeconfig.antt =====
-- cmd/thin_entrypoint/main.go: the kubeconfig for Multus.
use Prim.Native.Char.{code}
use Prim.Native.String.{[], ◌∷◌}
use multus_cni.Base.{String, ◌<>◌, Bool, true, ◌&&◌, Option, ◌==◌, string_eq, nat_eq, if◌then◌else◌}
use multus_cni.Disk.{mkdir, Io, ◌>>=◌, ◌>>◌, give, saying, attempt}
use multus_cni.Disk.Install.{Labels, install}
use multus_cni.ThinEntrypoint.{Options, Libraries}
use multus_cni.ThinEntrypoint.Files.{is_hash, get_file_and_hash}
use multus_cni.ThinEntrypoint.Template.{kube_config_text}

abbrev ca_file : String
ca_file = "/var/run/secrets/kubernetes.io/serviceaccount/ca.crt"

abbrev token_file : String
token_file = "/var/run/secrets/kubernetes.io/serviceaccount/token"

abbrev labels : Labels
labels = record {
  create = "cannot create kubeconfig temp file: ";
  execute = "cannot create kubeconfig: ";
  flush = "cannot flush kubeconfig temp file: ";
  close = "cannot close kubeconfig temp file: ";
  replace = "cannot replace with temp file: ";
}

-- bytes.ReplaceAll of a line feed, which is 10, by nothing
without_lines : String → String
without_lines [] = []
without_lines (c ∷ s) = let rest = without_lines s in if code c == 10 then rest else c ∷ rest

-- With SkipTLSVerify only the token counts.
abbrev pub unchanged : Options → Bool → Bool → Bool
unchanged o ca token = if o.skip_tls_verify then token else (ca && token)

module _ (L : Libraries) where
  open L use {getenv}

  protocol : String
  protocol =
      if getenv "KUBERNETES_SERVICE_PROTOCOL" == ""
      then "https"
      else getenv "KUBERNETES_SERVICE_PROTOCOL"

  tls_config : Options → String → String
  unfolding without_lines
  tls_config o ca =
      if o.skip_tls_verify
      then "insecure-skip-tls-verify: true"
      else "certificate-authority-data: " <> without_lines (L.base64 ca)

  unfoldable pub kube_config : Options → String → String → String
  unfolding kube_config_text protocol tls_config
  kube_config o ca token =
      kube_config_text
        (protocol
          <> "://["
          <> getenv "KUBERNETES_SERVICE_HOST"
          <> "]:"
          <> getenv "KUBERNETES_SERVICE_PORT")
        (tls_config o ca) token

  -- createKubeConfig: the hashes of the certificate and of the token.
  unfoldable pub create_kube_config : Option String → Option String → Options → Io (String × String)
  unfolding get_file_and_hash attempt install kube_config
  create_kube_config prev_ca prev_token o = get_file_and_hash L ca_file >>= λ (ca, ca_hash).
      get_file_and_hash L token_file >>= λ (token, token_hash).
      if unchanged o (is_hash prev_ca ca_hash) (is_hash prev_token token_hash)
      then give (ca_hash, token_hash)
      else (saying "cannot create multus.d directory: "
            (attempt mkdir (o.cni_conf_dir <> "/multus.d"))
          >> saying "cannot create multus-cni-conf-dir directory: "
              (attempt mkdir o.multus_cni_conf_dir)
          >> install labels true (o.cni_conf_dir <> "/multus.d/multus.kubeconfig.new")
              (o.cni_conf_dir <> "/multus.d/multus.kubeconfig") (kube_config o ca token)
          >> give (ca_hash, token_hash))
