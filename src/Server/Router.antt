-- ===== src/Server/Router.antt =====
-- pkg/server/server.go: the endpoints of the HTTP server.
use multus_cni.Base.{ℕ, String, ◌<>◌, Option, none, some, ◌==◌, string_eq, if◌then◌else◌}
use multus_cni.Base.Outcome.{Outcome}
use multus_cni.Base.Result.{ok, err, panic}
use multus_cni.Json.{Bytes, malformed}
use multus_cni.Multus.World.{World, Act, give}
use multus_cni.Server.Handlers.{Server, no_text, serve_cni, serve_delegate}

pub record Reply : Type 0 where
  pub status : ℕ
  pub body : Bytes

-- http.Error, which ends the text of a line.
abbrev pub refusal : ℕ → String → Reply
refusal status text = record { status = status; body = malformed (text <> "\n") }

-- A handler that panics closes the connection, and the server goes on without a reply.
replied : Outcome World Bytes → Outcome World (Option Reply)
replied (ok result, w) = (ok (some (record { status = 200; body = result })), w)
replied (err e, w) = (ok (some (refusal 400 e.text)), w)
replied (panic, w) = (ok none, w)

posted_only : String → Act Bytes → Act (Option Reply)
unfolding replied
posted_only method act w =
    if method == "POST" then replied (act w) else (ok (some (refusal 405 "Method not allowed")), w)

-- The endpoint, the method and the body of a request.
unfoldable pub route : Server → String → String → Bytes → Act (Option Reply)
unfolding posted_only serve_cni serve_delegate
route S path method body =
    if path == "/cni"
    then posted_only method (serve_cni S body)
    else if path == "/delegate"
    then posted_only method (serve_delegate S body)
    else if path == "/healthz"
    then (if method == "GET"
        then give (some (record { status = 200; body = no_text }))
        else if method == "POST"
        then give (some (record { status = 200; body = no_text }))
        else give (some (refusal 405 "Method not allowed")))
    else give (some (record { status = 404; body = no_text }))
