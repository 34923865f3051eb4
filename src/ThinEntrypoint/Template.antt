-- ===== src/ThinEntrypoint/Template.antt =====
-- cmd/thin_entrypoint/main.go: the templates, as the texts that they expand to.
use multus_cni.Base.{String, ◌<>◌}

-- What a template is filled with.
pub record TemplateData : Type 0 where
  pub cni_version : String
  pub master_plugin_network_name : String
  pub nested_capabilities : String
  pub namespace_isolation_config : String
  pub global_namespaces_config : String
  pub log_to_stderr_config : String
  pub log_level_config : String
  pub log_file_config : String
  pub additional_bin_dir_config : String
  pub multus_cni_conf_dir_config : String
  pub readiness_indicator_file_config : String
  pub multus_kube_config_file_host : String
  pub master_plugin_json : String

-- The part that the two templates share.
options_text : TemplateData → String
options_text t =
    t.nested_capabilities
    <> (t.namespace_isolation_config
        <> (t.global_namespaces_config
            <> (t.log_to_stderr_config
                <> (t.log_level_config
                    <> (t.log_file_config
                        <> (t.additional_bin_dir_config
                            <> (t.multus_cni_conf_dir_config
                                <> t.readiness_indicator_file_config)))))))

unfoldable pub multus_conflist_text : TemplateData → String
unfolding options_text
multus_conflist_text t =
    "{\n    \"cniVersion\": \""
    <> (t.cni_version
        <> ("\",\n    \"name\": \""
            <> (t.master_plugin_network_name
                <> ("\",\n    \"plugins\": [ {\n        \"type\": \"multus\","
                    <> (options_text t
                        <> ("\n        \"kubeconfig\": \""
                            <> (t.multus_kube_config_file_host
                                <> ("\",\n        \"delegates\": [\n            "
                                    <> (t.master_plugin_json <> "\n        ]\n    }]\n}\n")))))))))

unfoldable pub multus_conf_text : TemplateData → String
unfolding options_text
multus_conf_text t =
    "{\n        \"cniVersion\": \""
    <> (t.cni_version
        <> ("\",\n        \"name\": \""
            <> (t.master_plugin_network_name
                <> ("\",\n        \"type\": \"multus\","
                    <> (options_text t
                        <> ("\n        \"kubeconfig\": \""
                            <> (t.multus_kube_config_file_host
                                <> ("\",\n        \"delegates\": [\n                "
                                    <> (t.master_plugin_json <> "\n        ]\n}\n")))))))))

unfoldable pub kube_config_text : String → String → String → String
kube_config_text host tls token =
    "# Kubeconfig file for Multus CNI plugin.\napiVersion: v1\nkind: Config\nclusters:\n- name: local\n  cluster:\n    server: "
    <> (host
        <> ("\n    "
            <> (tls
                <> ("\nusers:\n- name: multus\n  user:\n    token: \""
                    <> (token
                        <> "\"\ncontexts:\n- name: multus-context\n  context:\n    cluster: local\n    user: multus\ncurrent-context: multus-context\n")))))
