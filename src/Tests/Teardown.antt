-- ===== src/Tests/Teardown.antt =====
-- CmdDel of the delegates in the file, for plugins that fail and for plugins that do not.
use multus_cni.Base.{
  String, ◌≡◌, ◌≢◌, refl, none, some, List, [], ◌∷◌, true, false, string_eq, nat_eq,
}
use multus_cni.Base.Result.{ok, err, errorf, panic}
use multus_cni.Os.{read_file}
use multus_cni.Text.{contains_text, starts_with}
use multus_cni.Types.{DelegateNetConf}
use multus_cni.Conf.Netconf.{mark_master}
use multus_cni.Conf.Runtime.{create_cni_runtime_conf}
use multus_cni.Multus.Commands.Teardown.{torn_all}
use multus_cni.Multus.Del.{Target, find_target, delete_target, with_versions, versioned, no_file}
use multus_cni.Multus.Del.Cached.{cached_conf, find_target-torn_all}
use multus_cni.Multus.Del.Retry.{find_target-retried, delete_target-idempotent}
use multus_cni.Multus.Host.{Host}
use multus_cni.Multus.Plugins.{delegate_del}
use multus_cni.Multus.Scratch.{consume_scratch_net_conf, cached_delegates, enable_list}
use multus_cni.Multus.World.{◌>>=◌}
use multus_cni.Tests.Hosts.{host, args, k8s_args, start, master, delegate, net_conf, plugins}

abbrev saved : List DelegateNetConf
saved = master ∷ delegate ∷ []

reads :
    cached_delegates host.codec
      (consume_scratch_net_conf host.codec args.container_id net_conf.cni_dir start.os).0
    ≡ ok (some saved)
unfolding cached_delegates consume_scratch_net_conf read_file mark_master enable_list
reads = refl

find_target-torn_all_example :
    (((find_target host args k8s_args net_conf none none >>= delete_target host args k8s_args)
        start).1.calls
      ≡ torn_all host.environment host.plugins args k8s_args
          (cached_conf host net_conf saved)
          net_conf.runtime_config
          (cached_conf host net_conf saved).delegates
          0
          [])
    × (((find_target host args k8s_args net_conf none none >>= delete_target host args k8s_args)
          start).0
        ≢ panic)
unfolding with_versions versioned string_eq
find_target-torn_all_example =
    find_target-torn_all host args k8s_args net_conf none none saved start reads (refl, (refl, tt))

abbrev target : Target
target = record { conf = record net_conf { delegates = delegate ∷ [] }; from_cache = true }

abbrev busy_text : String
busy_text =
    "DelegateDel: error invoking DelegateDel - macvlan: error in getting result from DelNetwork: busy"

fails : (delete_target host args k8s_args (some target) start).0 ≡ err (errorf busy_text)
unfolding delete_target with_versions versioned string_eq create_cni_runtime_conf delegate_del
fails = refl

other : contains_text no_file busy_text ≡ false
unfolding contains_text starts_with nat_eq string_eq
other = refl

find_target-retried_example :
    (find_target host args k8s_args net_conf none none
      (delete_target host args k8s_args (some target) start).1).0
    ≡ (find_target host args k8s_args net_conf none none start).0
find_target-retried_example =
    find_target-retried host args k8s_args k8s_args net_conf none none target start
      (errorf busy_text) refl (λ _. (refl, refl)) refl other fails

-- Plugins that delete what they are asked to.
abbrev quiet : Host
quiet = record host { plugins = record plugins { reply = λ _ _. none } }

deletes : (delete_target quiet args k8s_args (some target) start).0 ≡ ok tt
unfolding delete_target with_versions versioned string_eq create_cni_runtime_conf delegate_del
deletes = refl

delete_target-idempotent_example :
    (find_target quiet args k8s_args net_conf none none >>= delete_target quiet args k8s_args)
      (delete_target quiet args k8s_args (some target) start).1
    ≡ (ok tt, (delete_target quiet args k8s_args (some target) start).1)
delete_target-idempotent_example =
    delete_target-idempotent quiet args k8s_args k8s_args net_conf none target start refl
      (λ _. (refl, refl, refl)) refl deletes
