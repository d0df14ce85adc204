-- ===== src/RequestHandler/Dispatch.antt =====
-- `RequestHandler::handle`. The number of the connection is used in log lines only, and the
-- latency is counted when the call is left, so after everything else.
use multi_player_game.Common.{
  ℕ, String, Bool, false, List, Option, none, some, ◌==◌, string_eq, if◌then◌else◌,
}
use multi_player_game.Common.Text.{◌<>◌}
use multi_player_game.Json.{JsonApi}
use multi_player_game.Backends.{CacheApi, DatabaseApi}
use multi_player_game.Metrics.{
  Metrics, increment_requests_total, increment_successful_requests, increment_failed_requests,
  record_request_latency,
}
use multi_player_game.RequestHandler.Monad.{Reply, reply, refuse, throws, Handler}
use multi_player_game.RequestHandler.World.{Clock, World, error_response}
use multi_player_game.RequestHandler.Actions.{handle_join, handle_move, handle_leave}
use multi_player_game.RequestHandler.Play.{
  handle_attack, handle_chat, handle_update_score, handle_get_state, handle_get_metrics,
}

-- A change of the metrics alone.
unfoldable pub counting : {C D : Type 0} → (Metrics → Metrics) → World C D → World C D
counting f w = record w { metrics = f w.metrics }

module _ (json : JsonApi) (caches : CacheApi json.Json) (databases : DatabaseApi) where
  open json use {Json}
  open caches use {Cache}
  open databases use {Database}

  -- The chain of tests on the action.
  unfoldable pub perform : Clock → String → Json → Handler (World Cache Database) Json
  perform clock action req w =
      if action == "JOIN"
      then handle_join json caches databases clock req w
      else if action == "MOVE"
      then handle_move json caches databases clock req w
      else if action == "ATTACK"
      then handle_attack json caches databases clock req w
      else if action == "CHAT"
      then handle_chat json caches databases clock req w
      else if action == "GET_STATE"
      then handle_get_state json caches databases clock req w
      else if action == "UPDATE_SCORE"
      then handle_update_score json caches databases clock req w
      else if action == "LEAVE"
      then handle_leave json caches databases clock req w
      else if action == "GET_METRICS"
      then handle_get_metrics json caches databases w
      else (refuse ("unknown action: " <> action), w)

  -- What a handler gives, as a response.
  unfoldable pub respond : Reply Json → Json
  respond (reply j) = j
  respond (refuse message) = error_response json message
  respond throws = error_response json "internal server error"

  -- `response.value("status", "") == "ok"`
  unfoldable pub is_ok : Json → Bool
  is_ok response = elim (json.get "status" response) [
    | none ↦ false
    | some v ↦ elim (json.as_string v) [ none ↦ false | some s ↦ s == "ok" ]
  ]

  -- The response to a request and the state after it, before the latency is counted.
  unfoldable pub finish : Reply Json × World Cache Database → Json × World Cache Database
  unfolding is_ok respond counting
  finish (r, w) =
      let response = respond r in
      (
        response,
        counting
            (if is_ok response then increment_successful_requests else increment_failed_requests) w,
      )

  unfoldable pub reject : String → World Cache Database → Json × World Cache Database
  unfolding counting
  reject message w = (
    error_response json message,
    counting (λ m. increment_failed_requests (increment_requests_total m)) w,
  )

  unfoldable pub respond_to :
      Clock → Option Json → World Cache Database → Json × World Cache Database
  unfolding reject finish perform
  respond_to clock none w = reject "invalid JSON" w
  respond_to clock (some request) w = elim (json.get "action" request) [
    | none ↦ reject "missing action" w
    | some v ↦ elim (json.as_string v) [
      | none ↦ reject "missing action" w
      | some action ↦ finish (perform clock action request (counting increment_requests_total w))
    ]
  ]

  unfoldable pub handle : Clock → List ℕ → World Cache Database → List ℕ × World Cache Database
  unfolding respond_to counting
  handle clock raw_json w =
      let (response, w') = respond_to clock (json.parse raw_json) w in
      (json.dump response, counting (record_request_latency clock.latency) w')
