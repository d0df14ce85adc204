-- ===== src/RequestHandler/Mirrors/Handlers.antt =====
-- The handlers of all actions but GET_METRICS, over two caches and two databases.
use multi_player_game.Common.{
  ◌≡◌, refl, sym, ap, ◌∙◌, inl, inr, false, none, some, Option-cases, Bool-cases, if◌then◌else◌, [],
  ◌∷◌, not, ◌==◌, nat_eq,
}
use Prim.Native.String.{len}
use multi_player_game.Common.Int.{ℤ, pos, wrap_int, clamp_ℤ, ltb_ℤ}
use multi_player_game.Common.Text.{◌<>◌, to_string, nat_to_string}
use multi_player_game.Backends.{CacheApi, DatabaseApi}
use multi_player_game.Json.{JsonApi}
use multi_player_game.GameState
use multi_player_game.GameState.{
  GameState, has_player, not_in_game, map_min, map_max, max_chat_len, AttackResult,
}
use multi_player_game.RequestHandler.Monad.{Reply, reply, refuse, Handler, pure, gets, ◌>>=◌}
use multi_player_game.RequestHandler.World.{Clock, World, require_int, require_string}
use multi_player_game.RequestHandler.Render.{snapshot}
use multi_player_game.RequestHandler.Actions.{
  quote, join_response, move_response, leave_response, handle_join, handle_move, handle_leave,
}
use multi_player_game.RequestHandler.Play.{
  attack_note, attack_response, chat_response, score_response, handle_attack, handle_chat,
  handle_update_score, look_up_session, check_viewer, handle_get_state,
}
use multi_player_game.RequestHandler.Mirrors.{
  Alike, bind-Alike, lift-Alike, pure-Alike, refuse_if-Alike, gets-Alike, on_game-Alike,
  on_game_then-Alike, log_event-Alike, publish-Alike, with_cache-Alike, with_database-Alike,
}

-- A cache whose look-ups do not throw.
pub record IsQuiet {Json : Type 0} (caches : CacheApi Json) : Type 0 where
  pub quiet : (i : ℤ) (c : caches.Cache) → (caches.get_player_session i c).0 ≡ false

abbrev viewed_state : (json : JsonApi) → json.Json → json.Json
viewed_state json snap =
    json.set "action" (json.string "GET_STATE") (json.set "status" (json.string "ok") snap)

-- The rest of handleGetState.
abbrev state_reply : {C D : Type 0} (json : JsonApi) → Clock → Handler (World C D) json.Json
state_reply json clock = do
  snap ← gets (λ w. snapshot json clock w.game)
  pure (viewed_state json snap)

-- What the check of a viewer comes to.
viewed : (json : JsonApi) → json.Json → GameState → Reply (Unit {0})
viewed json req g = elim (json.get "player_id" req) [
  | none ↦ reply tt
  | some v ↦ elim (json.as_integer v) [
    | none ↦ reply tt
    | some z ↦ if has_player (wrap_int z) g then reply tt else refuse (not_in_game (wrap_int z))
  ]
]

module _ (json : JsonApi) (caches : CacheApi json.Json) (databases : DatabaseApi)
    (q : IsQuiet caches) where
  look_up_session-same :
      (i : ℤ) (w : World caches.Cache databases.Database)
      → ((look_up_session json caches databases i w).0 ≡ reply tt)
        × ((look_up_session json caches databases i w).1.game ≡ w.game)
  unfolding look_up_session
  look_up_session-same i w = elim (Option-cases w.cache) [
    | inl e ↦ rw e (refl, refl)
    | inr (c, e) ↦ elim (Bool-cases (caches.is_enabled c)) [
      | inl on ↦ rw (e, on, q.quiet i c) (refl, refl)
      | inr off ↦ rw (e, off) (refl, refl)
    ]
  ]

  check_viewer-same :
      (req : json.Json) (w : World caches.Cache databases.Database)
      → ((check_viewer json caches databases req w).0 ≡ viewed json req w.game)
        × ((check_viewer json caches databases req w).1.game ≡ w.game)
  unfolding check_viewer viewed
  check_viewer-same req w = elim (Option-cases (json.get "player_id" req)) [
    | inl missing ↦ rw (missing, check_viewer, viewed) (refl, refl)
    | inr (v, e) ↦ elim (Option-cases (json.as_integer v)) [
      | inl other ↦ rw (e, other, check_viewer, viewed) (refl, refl)
      | inr (z, is) ↦ elim (Bool-cases (has_player (wrap_int z) w.game)) [
        | inl present ↦
            rw (e, is, present, check_viewer, viewed) (look_up_session-same (wrap_int z) w)
        | inr absent ↦ rw (e, is, absent, check_viewer, viewed) (refl, refl)
      ]
    ]
  ]

module _ (json : JsonApi) (caches caches' : CacheApi json.Json)
    (databases databases' : DatabaseApi) where
  open json use {Json}

  pub handle_join-Alike :
      (clock : Clock) (req : Json)
      → Alike
          (handle_join json caches databases clock req)
          (handle_join json caches' databases' clock req)
  unfolding handle_join
  handle_join-Alike clock req = lift-Alike (require_int json "player_id" req) _ _ (λ i.
      on_game_then-Alike (GameState.add_player i clock.joined clock.started) _ _ (
        publish-Alike _ _ (
          with_cache-Alike json caches caches' databases databases'
            (λ c. caches.set_player_position i (pos 500) (pos 500) (
              caches.set_player_session i
                (json.object (
                  ("player_id", json.integer i)
                  ∷ ("joined_at", json.integer (pos clock.epoch))
                  ∷ []))
                c))
            (λ c. caches'.set_player_position i (pos 500) (pos 500) (
              caches'.set_player_session i
                (json.object (
                  ("player_id", json.integer i)
                  ∷ ("joined_at", json.integer (pos clock.epoch))
                  ∷ []))
                c))
            _ _
            (with_database-Alike json caches caches' databases databases'
              (databases.upsert_player i ("Player_" <> to_string i) (pos 0) (pos 0))
              (databases'.upsert_player i ("Player_" <> to_string i) (pos 0) (pos 0)) _ _
              (with_database-Alike json caches caches' databases databases'
                (databases.record_event "match_1" i "JOIN" "{}")
                (databases'.record_event "match_1" i "JOIN" "{}") _ _
                (log_event-Alike clock i "JOIN" "{}" _ _ (pure-Alike (join_response json i))))))))

  pub handle_move-Alike :
      (clock : Clock) (req : Json)
      → Alike
          (handle_move json caches databases clock req)
          (handle_move json caches' databases' clock req)
  unfolding handle_move
  handle_move-Alike clock req = lift-Alike (require_int json "player_id" req) _ _ (λ i.
      lift-Alike (require_int json "x" req) _ _ (λ x.
        lift-Alike (require_int json "y" req) _ _ (λ y.
          on_game_then-Alike
            (GameState.move_player i (clamp_ℤ x map_min map_max) (clamp_ℤ y map_min map_max)) _ _
            (with_cache-Alike json caches caches' databases databases'
              (caches.set_player_position i (clamp_ℤ x map_min map_max) (clamp_ℤ y map_min map_max))
              (caches'.set_player_position i (clamp_ℤ x map_min map_max)
                (clamp_ℤ y map_min map_max))
              _ _
              (log_event-Alike clock i "MOVE"
                ("{"
                  <> quote "x"
                  <> to_string (clamp_ℤ x map_min map_max)
                  <> ","
                  <> quote "y"
                  <> to_string (clamp_ℤ y map_min map_max)
                  <> "}")
                _ _
                (pure-Alike (
                  move_response json i (clamp_ℤ x map_min map_max)
                    (clamp_ℤ y map_min map_max))))))))

  pub handle_leave-Alike :
      (clock : Clock) (req : Json)
      → Alike
          (handle_leave json caches databases clock req)
          (handle_leave json caches' databases' clock req)
  unfolding handle_leave
  handle_leave-Alike clock req = lift-Alike (require_int json "player_id" req) _ _ (λ i.
      on_game-Alike (GameState.remove_player i) _ _ (λ score. publish-Alike _ _ (
        with_cache-Alike json caches caches' databases databases' (caches.delete_player_session i)
          (caches'.delete_player_session i) _ _
          (with_database-Alike json caches caches' databases databases'
            (databases.upsert_player i ("Player_" <> to_string i) score (pos 0))
            (databases'.upsert_player i ("Player_" <> to_string i) score (pos 0)) _ _
            (with_database-Alike json caches caches' databases databases'
              (databases.record_event "match_1" i "LEAVE"
                ("{" <> quote "final_score" <> to_string score <> "}"))
              (databases'.record_event "match_1" i "LEAVE"
                ("{" <> quote "final_score" <> to_string score <> "}"))
              _ _
              (log_event-Alike clock i "LEAVE"
                ("{" <> quote "final_score" <> to_string score <> "}") _ _
                (pure-Alike (leave_response json i score))))))))

  pub handle_attack-Alike :
      (clock : Clock) (req : Json)
      → Alike
          (handle_attack json caches databases clock req)
          (handle_attack json caches' databases' clock req)
  unfolding handle_attack
  handle_attack-Alike clock req = lift-Alike (require_int json "player_id" req) _ _ (λ i.
      lift-Alike (require_int json "target_id" req) _ _ (λ j.
        on_game-Alike (GameState.attack_player i j) _ _ (λ result.
          log_event-Alike clock i "ATTACK" (attack_note j result) _ _
            (pure-Alike (attack_response json i j result)))))

  pub handle_chat-Alike :
      (clock : Clock) (req : Json)
      → Alike
          (handle_chat json caches databases clock req)
          (handle_chat json caches' databases' clock req)
  unfolding handle_chat
  handle_chat-Alike clock req = lift-Alike (require_int json "player_id" req) _ _ (λ i.
      lift-Alike (require_string json "message" req) _ _ (λ message.
        refuse_if-Alike (len message == 0) "message cannot be empty" _ _ (
          refuse_if-Alike (ltb_ℤ (pos max_chat_len) (wrap_int (pos (len message))))
            ("message too long (max " <> nat_to_string max_chat_len <> " chars)") _ _
            (gets-Alike (has_player i) _ _ (λ present.
              refuse_if-Alike (not present) (not_in_game i) _ _ (
                log_event-Alike clock i "CHAT"
                  ("{" <> quote "len" <> nat_to_string (len message) <> "}") _ _
                  (pure-Alike (chat_response json i message))))))))

  pub handle_update_score-Alike :
      (clock : Clock) (req : Json)
      → Alike
          (handle_update_score json caches databases clock req)
          (handle_update_score json caches' databases' clock req)
  unfolding handle_update_score
  handle_update_score-Alike clock req = lift-Alike (require_int json "player_id" req) _ _ (λ i.
      lift-Alike (require_int json "score" req) _ _ (λ score.
        refuse_if-Alike (ltb_ℤ score (pos 0)) "score cannot be negative" _ _ (
          on_game_then-Alike (GameState.set_score i score) _ _ (
            log_event-Alike clock i "UPDATE_SCORE" ("{" <> quote "score" <> to_string score <> "}")
              _ _ (pure-Alike (score_response json i score))))))

  module _ (q : IsQuiet caches) (q' : IsQuiet caches') where
    check_viewer-Alike :
        (req : Json)
        → Alike (check_viewer json caches databases req) (check_viewer json caches' databases' req)
    check_viewer-Alike req = record {
      agree = λ w w' e.
          let (r, g) = check_viewer-same json caches databases q req w in
          let (r', g') = check_viewer-same json caches' databases' q' req w' in
          (r ∙ ap (viewed json req) e ∙ sym r', g ∙ e ∙ sym g');
    }

    pub handle_get_state-Alike :
        (clock : Clock) (req : Json)
        → Alike
            (handle_get_state json caches databases clock req)
            (handle_get_state json caches' databases' clock req)
    unfolding handle_get_state
    handle_get_state-Alike clock req =
        bind-Alike (check_viewer json caches databases req)
          (check_viewer json caches' databases' req) (λ _. state_reply json clock)
          (λ _. state_reply json clock) (check_viewer-Alike req)
          (λ _. gets-Alike (snapshot json clock) _ _ (λ snap. pure-Alike (viewed_state json snap)))
