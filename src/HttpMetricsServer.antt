-- ===== src/HttpMetricsServer.antt =====
-- server/include/server/HttpMetricsServer.h and server/src/HttpMetricsServer.cpp: the answers to
-- HTTP clients.
pub mod Response
pub mod Serving
use multi_player_game.Common.{
  ℕ, Bool, true, false, String, List, [], ◌∷◌, ◌++◌, Option, none, some, length, if◌then◌else◌,
}
use multi_player_game.Common.Text.{codes}
use multi_player_game.Common.Bytes.{contains_text}
use multi_player_game.Common.Decimal.{decimal}
use multi_player_game.Socket.{SocketApi}
use multi_player_game.Network.{NetworkApi}
use multi_player_game.RedisClient.{crlf}
use multi_player_game.Metrics.{Metrics}
use multi_player_game.Metrics.Prometheus.{to_prometheus_text}

-- The response to a request, with the status line, the type and the body.
unfoldable pub response : List ℕ → List ℕ → List ℕ → List ℕ
response status type body =
    status
    ++ crlf
    ++ (codes "Content-Type: " ++ type ++ crlf)
    ++ (codes "Content-Length: " ++ decimal (length body) ++ crlf)
    ++ (codes "Connection: close" ++ crlf ++ crlf)
    ++ body

abbrev pub ok_status : List ℕ
ok_status = codes "HTTP/1.1 200 OK"

abbrev pub health_body : List ℕ
health_body = codes "{\"status\":\"UP\"}\n"

abbrev pub not_found_body : List ℕ
not_found_body = codes "Not Found. Use /metrics or /health\n"

-- The argument `metrics_text` is what toPrometheusText gives.
unfoldable pub respond : List ℕ → List ℕ → List ℕ
unfolding response contains_text
respond req metrics_text =
    if contains_text (codes "GET /metrics") req
    then response ok_status (codes "text/plain; version=0.0.4; charset=utf-8") metrics_text
    else if contains_text (codes "GET /health") req
    then response ok_status (codes "application/json") health_body
    else response (codes "HTTP/1.1 404 Not Found") (codes "text/plain") not_found_body

module _ (api : SocketApi) (network : NetworkApi api) where
  open api use {Socket}
  open network use {Net}

  -- `handleHttpClient`, with the socket as it was when it was closed. What `send` returns is not
  -- looked at.
  unfoldable pub handle_http_client : List ℕ → Socket → Net → Socket × Net
  unfolding respond
  handle_http_client metrics_text client net =
      let (r, client') = api.recv client 2047 in
      elim r [
        | none ↦ (client', network.close client' net)
        | some req ↦
            let (_, client'') = api.send client' (respond req metrics_text) in
            (client'', network.close client'' net)
      ]

  -- One round of the loop: what `m_running` is at its test, what `accept` gives, what
  -- toPrometheusText gives for this client, and what `m_running` is after an `accept` that failed.
  pub record Visit : Type 0 where
    pub running : Bool
    pub client : Option Socket
    pub metrics_text : List ℕ
    pub still_running : Bool

  -- `listenLoop`, with the sockets of its clients as they were when they were closed.
  unfoldable pub listen_loop : List Visit → Net → List Socket × Net
  unfolding handle_http_client
  listen_loop [] net = ([], net)
  listen_loop (v ∷ vs) net =
      if v.running
      then elim v.client [
        | none ↦ if v.still_running then listen_loop vs net else ([], net)
        | some client ↦
            let (client', net') = handle_http_client v.metrics_text client net in
            let (clients, net'') = listen_loop vs net' in (client' ∷ clients, net'')
      ]
      else ([], net)
