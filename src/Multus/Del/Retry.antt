-- ===== src/Multus/Del/Retry.antt =====
-- What a second CmdDel finds after the first one, and what the first one deletes.
use multus_cni.Base.{
  String, ◌≡◌, refl, ◌∙◌, ap, Bool, true, false, ◌&&◌, Option, none, some, length, string_eq,
}
use multus_cni.Base.Result.{Result, ok, err, Error}
use multus_cni.Os.{Os, read_file, remove-stores, read_file-removed, no_such_file}
use multus_cni.Text.{contains_text}
use multus_cni.Types.{NetConf, K8sArgs, CmdArgs}
use multus_cni.K8sclient.Client.{Pod, Client}
use multus_cni.Multus.Calls.{Trace}
use multus_cni.Multus.Commands.{del_plugins}
use multus_cni.Multus.Del.{
  Target, target, chosen, refetched, find_target, delete_target, cleaned_up, removes_file,
  with_versions, no_file,
}
use multus_cni.Multus.Host.{Host}
use multus_cni.Multus.Scratch.{consume_scratch_net_conf, cached_delegates, scratch_path}
use multus_cni.Multus.World.{World, ◌>>=◌}

and_false : (b : Bool) → (b && false) ≡ false
and_false true = refl
and_false false = refl

removes_file-retry :
    (H : Host) (t : Target) (e : Error)
    → t.conf.retry_delete_on_error ≡ true
    → contains_text no_file e.text ≡ false
    → removes_file H t (err e) ≡ false
unfolding removes_file
removes_file-retry H t e retry other = rw (retry, other) (and_false t.from_cache)

module _ (H : Host) (args : CmdArgs) where
  -- The plugins leave the file of the delegates as it is.
  abbrev pub Leaves : String → Os → Type 0
  Leaves cni_dir os =
      (calls : Trace)
      → (scratch_path (H.files_after calls os) args.container_id cni_dir
          ≡ scratch_path os args.container_id cni_dir)
        × (read_file (H.files_after calls os) (scratch_path os args.container_id cni_dir)
            ≡ read_file os (scratch_path os args.container_id cni_dir))

  -- The file of the delegates can be removed and read behind the plugins.
  abbrev pub IsWritable : String → Os → Type 0
  IsWritable cni_dir os =
      (calls : Trace)
      → let os' = H.files_after calls os in
        let path = scratch_path os args.container_id cni_dir in
        (scratch_path os' args.container_id cni_dir ≡ path)
        × (os'.write_fault path ≡ none)
        × (os'.read_fault path ≡ none)

  found_again :
      (k8s_args : K8sArgs) (conf : NetConf) (client : Option Client) (pod : Option Pod) (t : Target)
      (w : World) (x : Result (Unit {0}) × Trace)
      → t.conf.cni_dir ≡ conf.cni_dir
      → Leaves conf.cni_dir w.os
      → removes_file H t x.0 ≡ false
      → (find_target H args k8s_args conf client pod (cleaned_up H args t w x).1).0
        ≡ (find_target H args k8s_args conf client pod w).0
  unfolding find_target consume_scratch_net_conf cleaned_up
  found_again k8s_args conf client pod t w x same leaves kept =
      rw (kept, (leaves x.1).0, (leaves x.1).1) refl

  -- A CmdDel whose plugins fail, for a configuration with retryDeleteOnError, leaves the delegates
  -- to the next one: it finds what the first one found. The text of the error does not hold "no such
  -- file or directory", and the plugins leave the file of the delegates as it is.
  pub find_target-retried :
      (k8s_args k8s_args' : K8sArgs) (conf : NetConf) (client : Option Client) (pod : Option Pod)
      (t : Target) (w : World) (e : Error)
      → t.conf.cni_dir ≡ conf.cni_dir
      → Leaves conf.cni_dir w.os
      → t.conf.retry_delete_on_error ≡ true
      → contains_text no_file e.text ≡ false
      → (delete_target H args k8s_args (some t) w).0 ≡ err e
      → (find_target H args k8s_args' conf client pod
          (delete_target H args k8s_args (some t) w).1).0
        ≡ (find_target H args k8s_args' conf client pod w).0
  unfolding delete_target
  find_target-retried k8s_args k8s_args' conf client pod t w e same leaves retry other failed =
      let conf' = with_versions H t.conf in
      let x =
        del_plugins H.environment H.plugins args k8s_args conf' conf'.runtime_config w.calls
          conf'.delegates (length conf'.delegates) in
      found_again k8s_args' conf client pod t w x same leaves
        (ap (removes_file H t) failed ∙ removes_file-retry H t e retry other)

  -- With no file and no pod there is nothing to delete.
  nothing_found :
      (k8s_args : K8sArgs) (conf : NetConf) (client : Option Client)
      → target H k8s_args conf client none (err no_such_file) ≡ ok none
  unfolding target cached_delegates chosen refetched
  nothing_found k8s_args conf client = refl

  emptied :
      (k8s_args : K8sArgs) (conf : NetConf) (client : Option Client) (t : Target) (w : World)
      (x : Result (Unit {0}) × Trace)
      → t.conf.cni_dir ≡ conf.cni_dir
      → IsWritable conf.cni_dir w.os
      → removes_file H t x.0 ≡ true
      → (find_target H args k8s_args conf client none (cleaned_up H args t w x).1).0 ≡ ok none
  unfolding find_target consume_scratch_net_conf cleaned_up
  emptied k8s_args conf client t w x same writable removed =
      let os = H.files_after x.1 w.os in
      let path = scratch_path w.os args.container_id conf.cni_dir in
      let (stays, writes, reads) = writable x.1 in
      rw (removed, same, remove-stores os path writes, stays, read_file-removed os path reads)
        (nothing_found k8s_args conf client)

  -- A CmdDel that deletes the delegates of the file leaves nothing to the next one: where the pod is
  -- gone too, that one finds no delegates and ends without an error and without any call. The file
  -- can be removed and read.
  pub delete_target-idempotent :
      (k8s_args k8s_args' : K8sArgs) (conf : NetConf) (client : Option Client) (t : Target)
      (w : World)
      → t.conf.cni_dir ≡ conf.cni_dir
      → IsWritable conf.cni_dir w.os
      → t.from_cache ≡ true
      → (delete_target H args k8s_args (some t) w).0 ≡ ok tt
      → (find_target H args k8s_args' conf client none >>= delete_target H args k8s_args')
          (delete_target H args k8s_args (some t) w).1
        ≡ (ok tt, (delete_target H args k8s_args (some t) w).1)
  unfolding delete_target find_target removes_file
  delete_target-idempotent k8s_args k8s_args' conf client t w same writable cached done =
      let conf' = with_versions H t.conf in
      let x =
        del_plugins H.environment H.plugins args k8s_args conf' conf'.runtime_config w.calls
          conf'.delegates (length conf'.delegates) in
      rw (emptied k8s_args' conf client t w x same writable (ap (removes_file H t) done ∙ cached))
        refl
