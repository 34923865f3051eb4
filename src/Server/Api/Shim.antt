-- ===== src/Server/Api/Shim.antt =====
-- pkg/server/api: the shim, which posts its request to the daemon and prints what comes back.
use multus_cni.Base.{
  ℕ, String, ◌<>◌, Bool, Option, none, some, List, ◌==◌, ◌!=◌, string_eq, nat_eq, if◌then◌else◌,
}
use multus_cni.Base.Result.{Result, ok, err, panic, Error, errorf, wrap, context, ◌>>=◌, ◌>>◌}
use multus_cni.Json.{Fields, Bytes}
use multus_cni.Server.Requests.{Request, is_empty}
use multus_cni.Server.Api.{new_cni_request}
use multus_cni.Logging.{
  Logging, set_log_stderr, set_log_file, set_log_level, errorf_logged, verbosef,
}

pub record ShimNetConf : Type 0 where
  pub cni_version : String
  pub multus_socket_dir : String
  pub log_file : String
  pub log_level : String
  pub log_to_stderr : Bool

-- The answer of the HTTP server: its status and its body.
pub record Answer : Type 0 where
  pub status : ℕ
  pub body : Result Bytes

-- The URL, the socket and the request of a post; nil stands for the request of a health check. The other
-- fields are json.Unmarshal of the configuration and of a response, filepath.Join, cnitypes.PrintResult,
-- the text of bytes, of a number and of a result, strings.ToLower and the time as text.
pub record Libraries : Type 0 where
  pub post : String → String → Option Request → Result Answer
  pub decode_conf : Bytes → Result ShimNetConf
  pub decode_response : Bytes → Result (Option Fields)
  pub join : String → String → String
  pub print_result : Fields → String → Result (Unit {0})
  pub text : Bytes → String
  pub number : ℕ → String
  pub show_result : Fields → String
  pub lower : String → String
  pub now : String

module _ (L : Libraries) where
  open L use {now, text, lower}

  -- api.SocketPath
  abbrev pub socket_path : String → String
  socket_path dir = L.join dir "multus.sock"

  checked : Answer → Bytes → Result Bytes
  checked a body =
      if a.status != 200
      then err (
          errorf
            ("CNI request failed with status " <> L.number a.status <> ": '" <> text body <> "'"))
      else ok body

  -- 200 is http.StatusOK. The request is one that json.Marshal writes.
  unfoldable pub do_cni : String → Option Request → String → Result Bytes
  unfolding checked
  do_cni url request socket =
      context "failed to send CNI request: " (L.post url socket request) >>= λ a.
      context "failed to read CNI result: " a.body >>= checked a

  -- CheckAPIReadyNow
  unfoldable pub check_api_ready_now : String → Result (Unit {0})
  unfolding do_cni
  check_api_ready_now dir = do_cni "http://dummy/healthz" none (socket_path dir) >>= λ _. ok tt

  with_defaults : ShimNetConf → ShimNetConf
  with_defaults c =
      if c.multus_socket_dir == "" then record c { multus_socket_dir = "/run/multus/" } else c

  -- The logger of a configuration.
  configured : ShimNetConf → Logging → Logging
  unfolding set_log_stderr set_log_file set_log_level
  configured c s =
      let s1 = set_log_stderr c.log_to_stderr s in
      let s2 = if c.log_file != "" then set_log_file c.log_file s1 else s1 in
      if c.log_level != "" then set_log_level lower c.log_level s2 else s2

  abbrev logged : Result ShimNetConf → Logging → Result ShimNetConf × Logging
  logged (ok c) s = (ok (with_defaults c), configured (with_defaults c) s)
  logged (err e) s = (err (wrap "failed to gather the multus configuration: " e), s)
  logged panic s = (panic, s)

  unfoldable pub shim_config : Bytes → Logging → Result ShimNetConf × Logging
  unfolding with_defaults configured
  shim_config stdin_data s = logged (L.decode_conf stdin_data) s

  with_input : Bytes → Result Bytes → Result Bytes
  with_input stdin_data (ok body) = ok body
  with_input stdin_data (err e) = err (errorf (e.text <> ": StdinData: " <> text stdin_data))
  with_input stdin_data panic = panic

  response_of : Bytes → Result (Option Fields)
  unfolding is_empty
  response_of body =
      if is_empty body
      then ok none
      else context "failed to unmarshal response: " (L.decode_response body)

  -- What follows on a configuration: the result of the response, and the version.
  unfoldable pub posted :
      (String → Result (Unit {0}))
      → List String
      → Bytes
      → ShimNetConf
      → Result (Option Fields × String)
  unfolding new_cni_request do_cni with_input response_of
  posted ready environ stdin_data c =
      ready c.multus_socket_dir
      >> (with_input stdin_data (
          do_cni "http://dummy/cni" (some (new_cni_request environ stdin_data))
            (socket_path c.multus_socket_dir)))
      >>= λ body. response_of body >>= λ result. ok (result, c.cni_version)

  unfoldable pub post_request :
      (String → Result (Unit {0}))
      → List String
      → Bytes
      → Logging
      → Result (Option Fields × String) × Logging
  unfolding shim_config posted
  post_request ready environ stdin_data s =
      let (c, s') = shim_config stdin_data s in
      (
        context "invalid CNI configuration passed to multus-shim: " c
            >>= posted ready environ stdin_data,
        s',
      )

  abbrev failed : String → Error → Logging → Result (Unit {0}) × Logging
  failed what e s =
      let (e', s') = errorf_logged now (what <> " (shim): " <> e.text) s in (err e', s')

  -- A response without a result makes CmdAdd read through a nil pointer.
  printed : Option Fields → String → Logging → Result (Unit {0}) × Logging
  unfolding verbosef
  printed none version s = (panic, s)
  printed (some result) version s =
      (L.print_result result version, verbosef now ("CmdAdd (shim): " <> L.show_result result) s)

  abbrev add_ended : Result (Option Fields × String) × Logging → Result (Unit {0}) × Logging
  add_ended (ok (result, version), s) = printed result version s
  add_ended (err e, s) = failed "CmdAdd" e s
  add_ended (panic, s) = (panic, s)

  abbrev ended : String → Result (Option Fields × String) × Logging → Result (Unit {0}) × Logging
  ended what (ok _, s) = (ok tt, s)
  ended what (err e, s) = failed what e s
  ended what (panic, s) = (panic, s)

  -- An error of DEL is logged and not returned.
  abbrev del_ended : Result (Unit {0}) × Logging → Result (Unit {0}) × Logging
  del_ended (ok _, s) = (ok tt, s)
  del_ended (err _, s) = (ok tt, s)
  del_ended (panic, s) = (panic, s)

  -- `wait` is WaitUntilAPIReady.
  module _ (wait : String → Result (Unit {0})) (environ : List String) (stdin_data : Bytes) where
    unfoldable pub shim_add : Logging → Result (Unit {0}) × Logging
    unfolding post_request printed errorf_logged
    shim_add s = add_ended (post_request wait environ stdin_data s)

    unfoldable pub shim_check : Logging → Result (Unit {0}) × Logging
    unfolding post_request errorf_logged
    shim_check s = ended "CmdCheck" (post_request wait environ stdin_data s)

    unfoldable pub shim_gc : Logging → Result (Unit {0}) × Logging
    unfolding post_request errorf_logged
    shim_gc s = ended "CmdGC" (post_request wait environ stdin_data s)

    unfoldable pub shim_status : Logging → Result (Unit {0}) × Logging
    unfolding post_request errorf_logged
    shim_status s = ended "CmdStatus" (post_request wait environ stdin_data s)

  unfoldable pub shim_del : List String → Bytes → Logging → Result (Unit {0}) × Logging
  unfolding post_request check_api_ready_now errorf_logged
  shim_del environ stdin_data s =
      del_ended (ended "CmdDel" (post_request check_api_ready_now environ stdin_data s))
