-- ===== src/RequestHandler/Play.antt =====
-- handleAttack, handleChat, handleUpdateScore, handleGetState and handleGetMetrics. A character
-- of a String stands for one byte of a std::string.
use Prim.Native.String.{len}
use multi_player_game.Common.{String, true, not, [], ◌∷◌, none, some, ◌==◌, nat_eq, if◌then◌else◌}
use multi_player_game.Common.Int.{ℤ, pos, wrap_int, ltb_ℤ}
use multi_player_game.Common.Text.{◌<>◌, to_string, nat_to_string}
use multi_player_game.Json.{JsonApi}
use multi_player_game.Backends.{count_all, CacheApi, DatabaseApi}
use multi_player_game.GameState
use multi_player_game.GameState.{AttackResult, max_chat_len, not_in_game}
use multi_player_game.RequestHandler.Monad.{
  reply, refuse, throws, Handler, pure, lift, gets, refuse_if, ◌>>=◌, ◌>>◌,
}
use multi_player_game.RequestHandler.World.{Clock, World, require_int, require_string}
use multi_player_game.RequestHandler.Render.{snapshot, metrics_json}
use multi_player_game.RequestHandler.Actions.{on_game, log_event, quote}

-- The data of the event of an attack.
abbrev pub attack_note : ℤ → AttackResult → String
attack_note target_id result =
    "{"
    <> quote "target_id"
    <> to_string target_id
    <> ","
    <> quote "damage"
    <> to_string result.damage
    <> ","
    <> quote "eliminated"
    <> (if result.target_eliminated then "true" else "false")
    <> "}"

-- The responses to ATTACK, CHAT and UPDATE_SCORE.
module _ (json : JsonApi) where
  open json use {Json}

  abbrev pub attack_response : ℤ → ℤ → AttackResult → Json
  attack_response player_id target_id result =
      let resp = json.object (
        ("status", json.string "ok")
        ∷ ("action", json.string "ATTACK")
        ∷ ("attacker_id", json.integer player_id)
        ∷ ("target_id", json.integer target_id)
        ∷ ("damage", json.integer result.damage)
        ∷ ("target_health", json.integer result.target_health_after)
        ∷ ("attacker_score", json.integer result.attacker_score)
        ∷ []) in
      if result.target_eliminated then json.set "eliminated" (json.boolean true) resp else resp

  abbrev pub chat_response : ℤ → String → Json
  chat_response player_id message = json.object (
      ("status", json.string "ok")
      ∷ ("action", json.string "CHAT")
      ∷ ("player_id", json.integer player_id)
      ∷ ("message", json.string message)
      ∷ [])

  abbrev pub score_response : ℤ → ℤ → Json
  score_response player_id score = json.object (
      ("status", json.string "ok")
      ∷ ("action", json.string "UPDATE_SCORE")
      ∷ ("player_id", json.integer player_id)
      ∷ ("score", json.integer score)
      ∷ [])

module _ (json : JsonApi) (caches : CacheApi json.Json) (databases : DatabaseApi) where
  open json use {Json}
  open caches use {Cache}
  open databases use {Database}

  unfoldable pub handle_attack : Clock → Json → Handler (World Cache Database) Json
  unfolding require_int
  handle_attack clock req = do
    player_id ← lift (require_int json "player_id" req)
    target_id ← lift (require_int json "target_id" req)
    result ← on_game (GameState.attack_player player_id target_id)
    log_event clock player_id "ATTACK" (attack_note target_id result)
    pure (attack_response json player_id target_id result)

  unfoldable pub handle_chat : Clock → Json → Handler (World Cache Database) Json
  unfolding require_int require_string
  handle_chat clock req = do
    player_id ← lift (require_int json "player_id" req)
    message ← lift (require_string json "message" req)
    refuse_if (len message == 0) "message cannot be empty"
    refuse_if (ltb_ℤ (pos max_chat_len) (wrap_int (pos (len message))))
        ("message too long (max " <> nat_to_string max_chat_len <> " chars)")
    present ← gets (λ w. GameState.has_player player_id w.game)
    refuse_if (not present) (not_in_game player_id)
    log_event clock player_id "CHAT" ("{" <> quote "len" <> nat_to_string (len message) <> "}")
    pure (chat_response json player_id message)

  unfoldable pub handle_update_score : Clock → Json → Handler (World Cache Database) Json
  unfolding require_int
  handle_update_score clock req = do
    player_id ← lift (require_int json "player_id" req)
    score ← lift (require_int json "score" req)
    refuse_if (ltb_ℤ score (pos 0)) "score cannot be negative"
    on_game (GameState.set_score player_id score)
    log_event clock player_id "UPDATE_SCORE" ("{" <> quote "score" <> to_string score <> "}")
    pure (score_response json player_id score)

  -- The look-up of the player's own session, for its counts only.
  unfoldable pub look_up_session : ℤ → Handler (World Cache Database) (Unit {0})
  look_up_session player_id w = elim w.cache [
    | none ↦ (reply tt, w)
    | some c ↦
        let (throwing, counts, c') = caches.get_player_session player_id c in
        let w' = record w { metrics = count_all counts w.metrics; cache = some c' } in
        if caches.is_enabled c
        then (if throwing then (throws, w') else (reply tt, w'))
        else (reply tt, w)
  ]

  -- The check of an optional "player_id".
  unfoldable pub check_viewer : Json → Handler (World Cache Database) (Unit {0})
  unfolding look_up_session
  check_viewer req w = elim (json.get "player_id" req) [
    | none ↦ (reply tt, w)
    | some v ↦ elim (json.as_integer v) [
      | none ↦ (reply tt, w)
      | some z ↦
          let player_id = wrap_int z in
          if GameState.has_player player_id w.game
          then look_up_session player_id w
          else (refuse (not_in_game player_id), w)
    ]
  ]

  unfoldable pub handle_get_state : Clock → Json → Handler (World Cache Database) Json
  unfolding check_viewer
  handle_get_state clock req = do
    check_viewer req
    snap ← gets (λ w. snapshot json clock w.game)
    pure (json.set "action" (json.string "GET_STATE") (json.set "status" (json.string "ok") snap))

  unfoldable pub handle_get_metrics : Handler (World Cache Database) Json
  handle_get_metrics = do
    m ← gets (λ w. metrics_json json w.metrics)
    pure (json.set "action" (json.string "GET_METRICS") (json.set "status" (json.string "ok") m))
