-- ===== src/RequestHandler/Render.antt =====
-- `GameState::snapshot` of server/src/GameState.cpp and `MetricsRegistry::toJson` of
-- server/src/Metrics.cpp. The order of the players is that of the map, which C++ leaves open.
use multi_player_game.Common.{◌-◌, [], ◌∷◌, map, ltb, length, if◌then◌else◌}
use multi_player_game.Common.Int.{ℤ, pos, wrap_int}
use multi_player_game.Json.{JsonApi}
use multi_player_game.Metrics.{Metrics}
use multi_player_game.GameState
use multi_player_game.GameState.{GameState, PlayerState, GameEvent}
use multi_player_game.RequestHandler.World.{Clock}

module _ (json : JsonApi) where
  open json use {Json}

  -- `GameState::snapshot`
  unfoldable pub player_json : Clock → ℤ × PlayerState → Json
  player_json clock (id, p) = json.object (
      ("player_id", json.integer p.player_id)
      ∷ ("x", json.integer p.x)
      ∷ ("y", json.integer p.y)
      ∷ ("health", json.integer p.health)
      ∷ ("score", json.integer p.score)
      ∷ ("kills", json.integer p.kills)
      ∷ ("session_s", json.double (json.seconds (clock.session id - p.joined_at)))
      ∷ [])

  unfoldable pub event_json : GameEvent → Json
  event_json ev = json.object (
      ("event_id", json.integer (pos ev.event_id))
      ∷ ("player_id", json.integer ev.player_id)
      ∷ ("event_type", json.string ev.event_type)
      ∷ ("data", json.string ev.event_data)
      ∷ [])

  unfoldable pub snapshot : Clock → GameState → Json
  unfolding player_json event_json
  snapshot clock g = json.object (
      ("match_status", json.string (GameState.match_status_string g.status))
      ∷ ("elapsed_seconds", json.double (json.seconds (clock.elapsed - g.match_start)))
      ∷ ("player_count", json.integer (wrap_int (pos (length g.players))))
      ∷ ("total_kills", json.integer (pos g.total_kills))
      ∷ ("total_events", json.integer (pos (GameState.total_events g)))
      ∷ ("players", json.array (map (player_json clock) g.players))
      ∷ ("recent_events", json.array (map event_json (GameState.recent_events 5 g)))
      ∷ [])

  -- `MetricsRegistry::toJson`
  unfoldable pub metrics_json : Metrics → Json
  metrics_json m =
      let average =
        if ltb 0 m.latency_count
        then json.average_ms m.latency_sum m.latency_count
        else json.zero_ms in
      json.object (
        ("active_players", json.integer m.active_players)
        ∷ ("requests_total", json.integer (pos m.requests_total))
        ∷ ("successful_requests", json.integer (pos m.successful_requests))
        ∷ ("failed_requests", json.integer (pos m.failed_requests))
        ∷ ("avg_latency_ms", json.double average)
        ∷ ("redis_cache_hits", json.integer (pos m.redis_cache_hits))
        ∷ ("redis_cache_misses", json.integer (pos m.redis_cache_misses))
        ∷ ("database_operations", json.integer (pos m.db_operations_total))
        ∷ [])
