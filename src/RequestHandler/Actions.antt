-- ===== src/RequestHandler/Actions.antt =====
-- handleJoin, handleMove, handleLeave, and what the handlers of the actions share.
use multi_player_game.Common.{String, List, [], ◌∷◌, none, some, nat_eq, if◌then◌else◌, Method}
use multi_player_game.Common.Int.{ℤ, pos, wrap_int, clamp_ℤ}
use multi_player_game.Common.Text.{◌<>◌, to_string}
use multi_player_game.Json.{JsonApi}
use multi_player_game.Backends.{Count, count_all, CacheApi, DatabaseApi}
use multi_player_game.Metrics.{set_active_players}
use multi_player_game.GameState
use multi_player_game.GameState.{
  GameState, AttackResult, map_min, map_max, max_health, max_chat_len, not_in_game,
}
use multi_player_game.RequestHandler.Monad.{
  reply, Handler, pure, lift, modify, ◌>>=◌, ◌>>◌, reply_of,
}
use multi_player_game.RequestHandler.World.{Clock, World, require_int}

-- A method of `m_state`.
abbrev pub on_game : {C D A : Type 0} → Method GameState A → Handler (World C D) A
on_game m w = let (r, g) = m w.game in (reply_of r, record w { game = g })

-- `m_state.recordEvent`
abbrev pub log_event : {C D : Type 0} → Clock → ℤ → String → String → Handler (World C D) (Unit {0})
log_event clock player_id event_type event_data = modify (λ w. record w {
  game = GameState.record_event player_id event_type event_data clock.recorded w.game;
})

-- `setActivePlayers(activePlayerCount())`
abbrev pub publish_active_players : {C D : Type 0} → Handler (World C D) (Unit {0})
publish_active_players = modify (λ w. record w {
  metrics = set_active_players (wrap_int (pos (GameState.active_player_count w.game))) w.metrics;
})

abbrev pub quote : String → String
quote key = "\"" <> key <> "\":"

-- The responses to JOIN, MOVE and LEAVE.
module _ (json : JsonApi) where
  open json use {Json}

  abbrev pub join_response : ℤ → Json
  join_response player_id = json.object (
      ("status", json.string "ok")
      ∷ ("action", json.string "JOIN")
      ∷ ("player_id", json.integer player_id)
      ∷ ("x", json.integer (pos 500))
      ∷ ("y", json.integer (pos 500))
      ∷ ("health", json.integer max_health)
      ∷ ("score", json.integer (pos 0))
      ∷ ("message", json.string ("Player " <> to_string player_id <> " joined the game"))
      ∷ [])

  abbrev pub move_response : ℤ → ℤ → ℤ → Json
  move_response player_id cx cy = json.object (
      ("status", json.string "ok")
      ∷ ("action", json.string "MOVE")
      ∷ ("player_id", json.integer player_id)
      ∷ ("x", json.integer cx)
      ∷ ("y", json.integer cy)
      ∷ [])

  abbrev pub leave_response : ℤ → ℤ → Json
  leave_response player_id final_score = json.object (
      ("status", json.string "ok")
      ∷ ("action", json.string "LEAVE")
      ∷ ("player_id", json.integer player_id)
      ∷ ("final_score", json.integer final_score)
      ∷ ("message", json.string ("Player " <> to_string player_id <> " left the game"))
      ∷ [])

module _ (json : JsonApi) (caches : CacheApi json.Json) (databases : DatabaseApi) where
  open json use {Json}
  open caches use {Cache}
  open databases use {Database}

  -- `if (m_cache && m_cache->isEnabled())`
  unfoldable pub with_cache : (Cache → Cache) → Handler (World Cache Database) (Unit {0})
  with_cache f w = elim w.cache [
    | none ↦ (reply tt, w)
    | some c ↦ (reply tt, (if caches.is_enabled c then record w { cache = some (f c) } else w))
  ]

  -- `if (m_db)`, with what the calls count.
  unfoldable pub with_database :
      (Database → List Count × Database) → Handler (World Cache Database) (Unit {0})
  with_database f w = elim w.database [
    | none ↦ (reply tt, w)
    | some d ↦
        let (counts, d') = f d in
        (reply tt, record w { metrics = count_all counts w.metrics; database = some d' })
  ]

  abbrev pub upsert : ℤ → ℤ → Handler (World Cache Database) (Unit {0})
  upsert player_id score =
      with_database
        (databases.upsert_player player_id ("Player_" <> to_string player_id) score (pos 0))

  unfoldable pub handle_join : Clock → Json → Handler (World Cache Database) Json
  unfolding with_cache with_database require_int
  handle_join clock req = do
    player_id ← lift (require_int json "player_id" req)
    on_game (GameState.add_player player_id clock.joined clock.started)
    publish_active_players
    with_cache (λ c. caches.set_player_position player_id (pos 500) (pos 500) (
        caches.set_player_session player_id
          (json.object (
            ("player_id", json.integer player_id)
            ∷ ("joined_at", json.integer (pos clock.epoch))
            ∷ []))
          c))
    upsert player_id (pos 0)
    with_database (databases.record_event "match_1" player_id "JOIN" "{}")
    log_event clock player_id "JOIN" "{}"
    pure (join_response json player_id)

  unfoldable pub handle_move : Clock → Json → Handler (World Cache Database) Json
  unfolding with_cache require_int
  handle_move clock req = do
    player_id ← lift (require_int json "player_id" req)
    x ← lift (require_int json "x" req)
    y ← lift (require_int json "y" req)
    let cx = clamp_ℤ x map_min map_max
    let cy = clamp_ℤ y map_min map_max
    on_game (GameState.move_player player_id cx cy)
    with_cache (caches.set_player_position player_id cx cy)
    log_event clock player_id "MOVE"
        ("{" <> quote "x" <> to_string cx <> "," <> quote "y" <> to_string cy <> "}")
    pure (move_response json player_id cx cy)

  unfoldable pub handle_leave : Clock → Json → Handler (World Cache Database) Json
  unfolding with_cache with_database require_int
  handle_leave clock req = do
    player_id ← lift (require_int json "player_id" req)
    final_score ← on_game (GameState.remove_player player_id)
    publish_active_players
    with_cache (caches.delete_player_session player_id)
    upsert player_id final_score
    let note = "{" <> quote "final_score" <> to_string final_score <> "}"
    with_database (databases.record_event "match_1" player_id "LEAVE" note)
    log_event clock player_id "LEAVE" note
    pure (leave_response json player_id final_score)
