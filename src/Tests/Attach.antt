-- ===== src/Tests/Attach.antt =====
-- CmdAdd of one delegate, of a second one that its plugin refuses, and of a host that refuses nothing.
use multus_cni.Base.{
  ◌≡◌, refl, inr, none, some, Option, [], ◌∷◌, false, All, arith, string_eq, nat_eq,
}
use multus_cni.Base.Result.{ok, err, errorf}
use multus_cni.Json.{marshal, written_fields}
use multus_cni.Os.{write_file}
use multus_cni.Conf.Delegate.{load_delegate_net_conf}
use multus_cni.Conf.Netconf.{
  load_net_conf, load_raw_delegates, finish_net_conf, mark_master, isolate,
}
use multus_cni.Conf.Runtime.{create_cni_runtime_conf}
use multus_cni.K8sclient.Client.{get_k8s_client}
use multus_cni.Multus.Scratch.{save_scratch_net_conf, save_delegates}
use multus_cni.Multus.Add.{prepare, attach_all, cmd_add}
use multus_cni.Multus.Add.Order.{IsComplete, cmd_add-all_added}
use multus_cni.Multus.Attach.{
  Attached, Session, attach_from, settled, attach_one, delegate_runtime, copied, gathered, choose,
}
use multus_cni.Multus.Attach.Accepted.{IsPlain, IsReported}
use multus_cni.Multus.Add.Accepted.{cmd_add-succeeds}
use multus_cni.Multus.Host.{Host}
use multus_cni.Multus.Plugins.Accepted.{IsObliging}
use multus_cni.Multus.Calls.{done}
use multus_cni.Json.{Fields}
use multus_cni.Multus.Attach.Rollback.{refusal, torn_first, attach_from-refused}
use multus_cni.Multus.Calls.{Trace}
use multus_cni.Multus.Plugins.{delegate_add}
use multus_cni.Multus.World.{World}
use multus_cni.K8sclient.Delegates.{get_pod_network}
use multus_cni.K8sclient.Client.{Pod, Client}
use multus_cni.Base.Dict.{lookup}
use multus_cni.Multus.Pod.{get_pod, poll}
use multus_cni.Tests.Delegates.{client}
use multus_cni.Tests.Hosts.{host, args, session, start, master, delegate, plugin}

abbrev nothing : Attached
nothing = record { result = none; statuses = [] }

-- The state after the first delegate.
abbrev added : World
added = record start {
  calls =
      (delegate_add host.plugins session.conf [] none master
        (delegate_runtime host session 0 master).0).1;
}

abbrev tried : Trace
tried =
    (delegate_add host.plugins session.conf added.calls none delegate
      (delegate_runtime host session 1 delegate).0).1

refuses :
    delegate_add host.plugins session.conf
      (copied host session delegate (delegate_runtime host session 1 delegate).1 added.calls)
      none
      delegate
      (delegate_runtime host session 1 delegate).0
    ≡ (err (errorf "busy"), tried)
unfolding delegate_add copied string_eq delegate_runtime create_cni_runtime_conf
refuses = refl

attach_from-refused_example : attach_from host session 1 (delegate ∷ []) nothing added ≡ (
  err (refusal host session delegate (errorf "busy")),
  settled host session (torn_first host session 2 tried) added,
)
attach_from-refused_example =
    attach_from-refused host session (refl, (refl, tt)) 1 (omega arith) delegate added [] nothing
      refuses

adds : cmd_add host args none start ≡ (ok (some plugin), (cmd_add host args none start).1)
unfolding cmd_add prepare attach_all string_eq load_net_conf load_raw_delegates
    load_delegate_net_conf finish_net_conf marshal mark_master isolate get_k8s_client
    save_scratch_net_conf write_file create_cni_runtime_conf attach_one gathered choose
    written_fields
adds = refl

cmd_add-all_added_example :
    (S : Session) × (prepare host args none ≡ ok S)
    × IsComplete S start (cmd_add host args none start).1
cmd_add-all_added_example =
    cmd_add-all_added host args none start (some plugin) (cmd_add host args none start).1 adds

abbrev known_pod : Pod
known_pod = record { name = "pod"; namespace = "default"; uid = "7"; annotations = [] }

-- The API server has the pod.
abbrev api_client : Client
api_client = record client { get_pod = λ _ _. ok known_pod }

abbrev obliging_host : Host
obliging_host = record host {
  plugins = record host.plugins { add_reply = λ _ _. done plugin };
  pod_reads = λ _ _. record {
    informer = false;
    attempts = ok known_pod ∷ [];
    live = err (errorf "no pod");
  };
}

obliges : IsObliging obliging_host.plugins
obliges = record {
  parses = λ _ _. refl;
  namespaces = λ _ _. refl;
  links = λ _ _ _. (errorf "Link not found", refl, refl);
  adds = λ _ _. (plugin, refl);
}

-- The session of the arguments, whose one delegate is the master.
abbrev prepared_session : Session
prepared_session = elim (prepare obliging_host args (some api_client)) [ ok S ↦ S | _ ↦ session ]

prepares : prepare obliging_host args (some api_client) ≡ ok prepared_session
unfolding prepare string_eq load_net_conf load_raw_delegates load_delegate_net_conf finish_net_conf
    marshal mark_master isolate get_k8s_client written_fields get_pod poll get_pod_network lookup
prepares = refl

saves :
    (save_delegates obliging_host.codec prepared_session.args.container_id
      prepared_session.conf.cni_dir prepared_session.conf.delegates start.os).0
    ≡ ok tt
unfolding save_delegates prepare string_eq load_net_conf load_raw_delegates load_delegate_net_conf
    finish_net_conf marshal mark_master isolate get_k8s_client written_fields get_pod poll
    get_pod_network lookup save_scratch_net_conf write_file
saves = refl

reports : IsReported obliging_host prepared_session
unfolding prepare string_eq load_net_conf load_raw_delegates load_delegate_net_conf finish_net_conf
    marshal mark_master isolate get_k8s_client written_fields get_pod poll get_pod_network lookup
reports = record {
  client = api_client;
  given = refl;
  known = record { pod = known_pod; reads = refl; same = refl; takes = λ _. refl };
  statuses = λ _ _ _ _. ([], refl);
}

delegates-IsPlain : All IsPlain prepared_session.conf.delegates
unfolding prepare string_eq load_net_conf load_raw_delegates load_delegate_net_conf finish_net_conf
    marshal mark_master isolate get_k8s_client written_fields get_pod poll get_pod_network lookup
delegates-IsPlain = ((refl, refl, refl, refl, refl), tt)

cmd_add-succeeds_example :
    (result : Option Fields) × (w' : World) × (cmd_add obliging_host args (some api_client) start
      ≡ (ok result, w'))
    × IsComplete prepared_session start w'
cmd_add-succeeds_example =
    cmd_add-succeeds obliging_host args (some api_client) start prepared_session obliges prepares
      saves (inr reports) delegates-IsPlain
