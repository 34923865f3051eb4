-- ===== src/Server/Handlers/Attached.antt =====
-- What an addition attaches, from the variables of the shim to the calls of the plugins.
use multus_cni.Base.{String, ◌≡◌, refl, ap, ◌∙◌, some, List, string_eq, if◌then◌else◌, All, map}
use multus_cni.Base.Outcome.{
  Outcome, Yields, gives, errs, unwinds, Yields-of, Yields-lift, Yields-after, Yields-next,
  of_Yields,
}
use multus_cni.Base.Result.{Result, ok, err, panic, Error, context, ◌>>=◌ as ◌then◌}
use multus_cni.Json.{Bytes, Fields, json, obj, get, written_fields}
use multus_cni.Types.{CmdArgs, K8sArgs}
use multus_cni.Multus.Add.{prepare, cmd_add}
use multus_cni.Multus.Add.Order.{IsComplete, cmd_add-all_added}
use multus_cni.Multus.Attach.{Session}
use multus_cni.Multus.World.{World, restated, rephrase, lift, ◌>>=◌}
use multus_cni.Server.Api.{new_cni_request}
use multus_cni.Server.Api.Delivered.{IsVariable, item, value_of, new_cni_request-extracted}
use multus_cni.Server.Requests.Override.{merged, override_cni_config-merged}
use multus_cni.Server.Requests.{Request, or_eth0, extract_cni_data, kubernetes_runtime_args}
use multus_cni.Server.Handlers.{
  Server, add, errored, check_named, handle_cni_request, received, serve_cni,
}

-- What holds of a state behind a value holds of it in other words.
Yields-restated {ℓ κ μ} :
    {S : Type ℓ} {A : Type κ} {P : A → S → Type μ} (f : String → Error) (x : Outcome S A)
    → Yields P x
    → Yields P (restated f x.0, x.1)
Yields-restated f _ (gives p) = gives p
Yields-restated f _ errs = errs
Yields-restated f _ unwinds = unwinds

module _ (S : Server) where
  open S use {host, client}

  -- A session was prepared for the arguments and its interfaces are attached.
  abbrev pub IsAttached : CmdArgs → World → World → Type 0
  IsAttached args w w' =
      (session : Session) × (prepare host args client ≡ ok session) × IsComplete session w w'

  add-IsAttached :
      (a : K8sArgs) (args : CmdArgs) (w : World)
      → Yields (λ _ w'. IsAttached args w w') (add S a args w)
  unfolding add
  add-IsAttached a args w =
      Yields-next
        (Yields-restated _ (cmd_add host args client w)
          (Yields-of (cmd_add host args client w) (cmd_add-all_added host args client w)))
        λ result w' done. Yields-lift (S.serialize result) done

  handle-IsAttached :
      (a : K8sArgs) (args : CmdArgs) (w : World)
      → Yields (λ _ w'. IsAttached args w w') (handle_cni_request S "ADD" a args w)
  unfolding handle_cni_request string_eq
  handle-IsAttached a args w =
      Yields-after (check_named S a) (λ _. add S a args) λ _. add-IsAttached a args w

  received-of :
      (body : Bytes) (request : Request) (cmd : String) (args : CmdArgs)
      → S.decode_request body ≡ some request
      → extract_cni_data S.config S.ignore_readiness request ≡ ok (cmd, args)
      → received S body ≡ (
          context "could not extract the kubernetes runtime args: "
            (kubernetes_runtime_args request.env client)
          then λ a. ok (request, cmd, args, a))
  unfolding received
  received-of body request cmd args decoded extracted = rw (decoded, extracted) refl

  served-IsAttached :
      (request : Request) (args : CmdArgs) (r : Result K8sArgs) (w : World)
      → Yields
          (λ _ w'. IsAttached args w w')
          ((lift (r then λ a. ok (request, "ADD", args, a)) >>= λ (request', cmd, args', a).
              rephrase (errored S args') (handle_cni_request S cmd a args'))
            w)
  served-IsAttached request args (ok a) w =
      Yields-restated (errored S args) (handle_cni_request S "ADD" a args w)
        (handle-IsAttached a args w)
  served-IsAttached request args (err e) w = errs
  served-IsAttached request args panic w = unwinds

  serve_cni-IsAttached :
      (body : Bytes) (request : Request) (args : CmdArgs) (w : World)
      → S.decode_request body ≡ some request
      → extract_cni_data S.config S.ignore_readiness request ≡ ok ("ADD", args)
      → Yields (λ _ w'. IsAttached args w w') (serve_cni S body w)
  unfolding serve_cni
  serve_cni-IsAttached body request args w decoded extracted =
      rw (received-of body request "ADD" args decoded extracted) (
        served-IsAttached request args
          (context "could not extract the kubernetes runtime args: "
            (kubernetes_runtime_args request.env client))
          w)

  -- From the shim to the plugins: where the daemon serves the request that a shim makes for an addition,
  -- and answers without an error, it has prepared a session for the very container, network namespace,
  -- interface and arguments that the shim was called with, and the plugin of each delegate of this
  -- session was asked once and in order to add it with its configuration. The session is that of the
  -- configuration that the shim read, with each key replaced that the configuration of the daemon has,
  -- but for a readiness indicator file that is ignored. The request is decoded as it was sent, and both
  -- configurations are JSON objects.
  pub serve_cni-new_cni_request :
      (env : List (String × String)) (cni config : Fields) (body : Bytes)
      (container_id netns args : String) (w w' : World) (answer : Bytes)
      → S.config ≡ json (obj config)
      → S.decode_request body ≡ some (new_cni_request (map item env) (json (obj cni)))
      → All IsVariable env
      → value_of "CNI_COMMAND" env ≡ some "ADD"
      → value_of "CNI_CONTAINERID" env ≡ some container_id
      → value_of "CNI_NETNS" env ≡ some netns
      → value_of "CNI_ARGS" env ≡ some args
      → serve_cni S body w ≡ (ok answer, w')
      → (fields : Fields) × ((k : String) → get k fields ≡ merged S.ignore_readiness k config cni)
        × IsAttached
            (record {
              container_id = container_id;
              netns = netns;
              if_name = or_eth0 (value_of "CNI_IFNAME" env);
              args = args;
              stdin_data = json (obj (written_fields fields));
            })
            w
            w'
  serve_cni-new_cni_request env cni config body container_id netns args w w' answer configured
        decoded vs e1 e2 e3 e4 served =
      let (fields, overrides, laws) = override_cni_config-merged S.ignore_readiness config cni in
      let request = new_cni_request (map item env) (json (obj cni)) in
      (
        fields,
        laws,
        of_Yields
            (serve_cni-IsAttached body request _ w decoded (
              ap (λ c. extract_cni_data c S.ignore_readiness request) configured
              ∙ new_cni_request-extracted env (json (obj cni)) (json (obj config)) _
                  S.ignore_readiness "ADD" container_id netns args vs e1 e2 e3 e4 overrides))
            served,
      )
