-- ===== src/RequestHandler/Soundness.antt =====
-- The handlers of the actions, one by one, against the rules of Atomic.
use Prim.Native.String.{len}
use multi_player_game.Common.{
  ◌≡◌, refl, inl, inr, String, Bool, true, false, not, List, [], ◌∷◌, ◌==◌, string_eq, nat_eq,
  if◌then◌else◌, Option-cases, Bool-cases,
}
use multi_player_game.Common.Int.{ℤ, pos, ltb_ℤ, wrap_int, clamp_ℤ}
use multi_player_game.Common.Dict.{lookup}
use multi_player_game.Common.Text.{◌<>◌, nat_to_string}
use multi_player_game.Json.{JsonApi}
use multi_player_game.Backends.{CacheApi, DatabaseApi}
use multi_player_game.GameState.{
  joins, leaves, moves, attacks, sets_score, step, has_player, max_chat_len, not_in_game, map_min,
  map_max,
}
use multi_player_game.GameState.Lifecycle.{accepted-eq-allowed}
use multi_player_game.RequestHandler.Monad.{refuse, Handler, pure, gets, ◌>>=◌}
use multi_player_game.RequestHandler.World.{Clock, World, require_int, require_string}
use multi_player_game.RequestHandler.Render.{snapshot, metrics_json}
use multi_player_game.RequestHandler.Actions.{quote, handle_join, handle_move, handle_leave}
use multi_player_game.RequestHandler.Play.{
  handle_attack, handle_chat, handle_update_score, look_up_session, check_viewer, handle_get_state,
  handle_get_metrics,
}
use multi_player_game.RequestHandler.Dispatch.{is_ok, perform}
use multi_player_game.RequestHandler.Atomic.{tally, IsAtomic, Peeks, Reaches-refl, tally-count_all}
use multi_player_game.RequestHandler.Atomic.Rules.{
  pure-Acts, log-Acts, publish-Acts, cache-Acts, database-Acts, lift-IsAtomic, refuse_if-IsAtomic,
  gets-IsAtomic, on_game-IsAtomic, Acts-IsAtomic, peek-IsAtomic,
}

module _ (json : JsonApi) (caches : CacheApi json.Json) (databases : DatabaseApi) where
  open json use {Json}
  open caches use {Cache}
  open databases use {Database}

  abbrev Shared : Type 0
  Shared = World Cache Database

  abbrev Ok : Json → Type 0
  Ok j = is_ok json caches databases j ≡ true

  -- A response that is written as a list of fields.
  abbrev ok_object : List (String × Json) → Json
  ok_object fields = json.object (("status", json.string "ok") ∷ fields)

  ok_object-Ok : (fields : List (String × Json)) → Ok (ok_object fields)
  unfolding is_ok lookup
  ok_object-Ok fields = rw (
    is_ok,
    json.get-object "status" (("status", json.string "ok") ∷ fields),
    json.as_string-string "ok",
  )

  set-Ok :
      (j v : Json) (k : String)
      → json.is_object j ≡ true
      → (k == "status") ≡ false
      → Ok j
      → Ok (json.set k v j)
  unfolding is_ok
  set-Ok j v k o ne ok = rw (is_ok, json.get-set "status" k v j o, ne) ok

  status_set-Ok : (j : Json) → json.is_object j ≡ true → Ok (json.set "status" (json.string "ok") j)
  unfolding is_ok
  status_set-Ok j o =
      rw (is_ok, json.get-set "status" "status" (json.string "ok") j o, json.as_string-string "ok")

  labelled-Ok :
      (action : String) (fields : List (String × Json))
      → Ok (
          json.set "action"
            (json.string action)
            (json.set "status" (json.string "ok") (json.object fields)))
  labelled-Ok action fields =
      let object = json.is_object-object fields in
      set-Ok _ _ "action" (json.is_object-set "status" _ _ object) refl (status_set-Ok _ object)

  abbrev Atomic : Handler Shared Json → Type 0
  Atomic k = IsAtomic json caches databases k

  handle_join-IsAtomic :
      (clock : Clock) (req : Json) → Atomic (handle_join json caches databases clock req)
  unfolding handle_join step
  handle_join-IsAtomic clock req = lift-IsAtomic (require_int json "player_id" req) _ (λ i.
      on_game-IsAtomic (joins i clock.joined clock.started) _ _ (λ g. refl)
        (λ g. (accepted-eq-allowed (joins i clock.joined clock.started) g).1)
        (λ _. publish-Acts _ (
          cache-Acts _ _ (
            database-Acts _ _
              (database-Acts _ _ (log-Acts clock i _ _ _ (pure-Acts _ (ok_object-Ok _))))))))

  handle_leave-IsAtomic :
      (clock : Clock) (req : Json) → Atomic (handle_leave json caches databases clock req)
  unfolding handle_leave step
  handle_leave-IsAtomic clock req = lift-IsAtomic (require_int json "player_id" req) _ (λ i.
      on_game-IsAtomic (leaves i) _ _ (λ g. refl) (λ g. (accepted-eq-allowed (leaves i) g).1)
        (λ score. publish-Acts _ (
          cache-Acts _ _ (
            database-Acts _ _
              (database-Acts _ _ (log-Acts clock i _ _ _ (pure-Acts _ (ok_object-Ok _))))))))

  handle_move-IsAtomic :
      (clock : Clock) (req : Json) → Atomic (handle_move json caches databases clock req)
  unfolding handle_move step
  handle_move-IsAtomic clock req = lift-IsAtomic (require_int json "player_id" req) _ (λ i.
      lift-IsAtomic (require_int json "x" req) _ (λ x.
        lift-IsAtomic (require_int json "y" req) _ (λ y.
          let call = moves i (clamp_ℤ x map_min map_max) (clamp_ℤ y map_min map_max) in
          on_game-IsAtomic call _ _ (λ g. refl) (λ g. (accepted-eq-allowed call g).1)
            (λ _. cache-Acts _ _ (log-Acts clock i _ _ _ (pure-Acts _ (ok_object-Ok _)))))))

  handle_update_score-IsAtomic :
      (clock : Clock) (req : Json) → Atomic (handle_update_score json caches databases clock req)
  unfolding handle_update_score step
  handle_update_score-IsAtomic clock req = lift-IsAtomic (require_int json "player_id" req) _ (λ i.
      lift-IsAtomic (require_int json "score" req) _ (λ score. refuse_if-IsAtomic _ _ _ (
        on_game-IsAtomic (sets_score i score) _ _ (λ g. refl)
          (λ g. (accepted-eq-allowed (sets_score i score) g).1)
          (λ _. log-Acts clock i _ _ _ (pure-Acts _ (ok_object-Ok _))))))

  handle_chat-IsAtomic :
      (clock : Clock) (req : Json) → Atomic (handle_chat json caches databases clock req)
  unfolding handle_chat
  handle_chat-IsAtomic clock req = lift-IsAtomic (require_int json "player_id" req) _ (λ i.
      lift-IsAtomic (require_string json "message" req) _ (λ message.
        refuse_if-IsAtomic (len message == 0) "message cannot be empty" _ (
          refuse_if-IsAtomic (ltb_ℤ (pos max_chat_len) (wrap_int (pos (len message))))
            ("message too long (max " <> nat_to_string max_chat_len <> " chars)") _
            (gets-IsAtomic (λ w. has_player i w.game) _
              (λ present. refuse_if-IsAtomic (not present) (not_in_game i) _ (
                Acts-IsAtomic _ (
                  log-Acts clock i "CHAT" ("{" <> quote "len" <> nat_to_string (len message) <> "}")
                    _
                    (pure-Acts _ (
                      ok_object-Ok (
                        ("action", json.string "CHAT")
                        ∷ ("player_id", json.integer i)
                        ∷ ("message", json.string message)
                        ∷ []))))))))))

  eliminated-Ok :
      (b : Bool) (fields : List (String × Json))
      → Ok (
          if b
          then json.set "eliminated" (json.boolean true) (ok_object fields)
          else ok_object fields)
  eliminated-Ok true fields =
      set-Ok _ _ "eliminated" (json.is_object-object _) refl (ok_object-Ok fields)
  eliminated-Ok false fields = ok_object-Ok fields

  handle_attack-IsAtomic :
      (clock : Clock) (req : Json) → Atomic (handle_attack json caches databases clock req)
  unfolding handle_attack step
  handle_attack-IsAtomic clock req = lift-IsAtomic (require_int json "player_id" req) _ (λ i.
      lift-IsAtomic (require_int json "target_id" req) _ (λ j.
        on_game-IsAtomic (attacks i j) _ _ (λ g. refl)
          (λ g. (accepted-eq-allowed (attacks i j) g).1)
          (λ result.
            log-Acts clock i _ _ _ (pure-Acts _ (eliminated-Ok result.target_eliminated _)))))

  handle_get_metrics-IsAtomic : Atomic (handle_get_metrics json caches databases)
  unfolding handle_get_metrics metrics_json
  handle_get_metrics-IsAtomic = record {
    sound = λ w. (labelled-Ok "GET_METRICS" _, refl, Reaches-refl w.game);
  }

  -- The look-up of a session changes counts of the cache only.
  look_up_session-same :
      (i : ℤ) (w : Shared)
      → let w' = (look_up_session json caches databases i w).1 in
        (tally w'.metrics ≡ tally w.metrics) × (w'.game ≡ w.game)
  unfolding look_up_session
  look_up_session-same i w = elim (Option-cases w.cache) [
    | inl e ↦ rw e (refl, refl)
    | inr (c, e) ↦ elim (Bool-cases (caches.is_enabled c)) [
      | inl on ↦ elim (Bool-cases (caches.get_player_session i c).0) [
        | inl bad ↦
            rw (e, on, bad) (tally-count_all (caches.get_player_session i c).1 w.metrics, refl)
        | inr good ↦
            rw (e, on, good) (tally-count_all (caches.get_player_session i c).1 w.metrics, refl)
      ]
      | inr off ↦ rw (e, off) (refl, refl)
    ]
  ]

  check_viewer-same :
      (req : Json) (w : Shared)
      → let w' = (check_viewer json caches databases req w).1 in
        (tally w'.metrics ≡ tally w.metrics) × (w'.game ≡ w.game)
  unfolding check_viewer
  check_viewer-same req w = elim (Option-cases (json.get "player_id" req)) [
    | inl missing ↦ rw (missing, check_viewer) (refl, refl)
    | inr (v, e) ↦ elim (Option-cases (json.as_integer v)) [
      | inl other ↦ rw (e, other, check_viewer) (refl, refl)
      | inr (z, is) ↦ elim (Bool-cases (has_player (wrap_int z) w.game)) [
        | inl present ↦ rw (e, is, present, check_viewer) (look_up_session-same (wrap_int z) w)
        | inr absent ↦ rw (e, is, absent, check_viewer) (refl, refl)
      ]
    ]
  ]

  check_viewer-Peeks :
      (req : Json) → Peeks json caches databases (check_viewer json caches databases req)
  check_viewer-Peeks req = record {
    same_tally = λ w. (check_viewer-same req w).0;
    same_game = λ w. (check_viewer-same req w).1;
  }

  -- The rest of handleGetState.
  abbrev state_reply : Clock → Handler Shared Json
  state_reply clock = do
    snap ← gets (λ w. snapshot json clock w.game)
    pure (json.set "action" (json.string "GET_STATE") (json.set "status" (json.string "ok") snap))

  state_reply-IsAtomic : (clock : Clock) → Atomic (state_reply clock)
  unfolding snapshot
  state_reply-IsAtomic clock = record {
    sound = λ w. (labelled-Ok "GET_STATE" _, refl, Reaches-refl w.game);
  }

  handle_get_state-IsAtomic :
      (clock : Clock) (req : Json) → Atomic (handle_get_state json caches databases clock req)
  unfolding handle_get_state
  handle_get_state-IsAtomic clock req =
      peek-IsAtomic (check_viewer json caches databases req) _ (check_viewer-Peeks req)
        (state_reply-IsAtomic clock)

  refusal-IsAtomic : (message : String) → Atomic (λ w. (refuse message, w))
  refusal-IsAtomic message = record { sound = λ w. (refl, refl) }

  choice-IsAtomic :
      (b : Bool) (h k : Handler Shared Json)
      → Atomic h
      → Atomic k
      → Atomic (λ w. if b then h w else k w)
  choice-IsAtomic true h k p q = p
  choice-IsAtomic false h k p q = q

  pub perform-IsAtomic :
      (clock : Clock) (action : String) (req : Json)
      → Atomic (perform json caches databases clock action req)
  unfolding perform
  perform-IsAtomic clock action req =
      choice-IsAtomic (action == "JOIN") _ _ (handle_join-IsAtomic clock req) (
        choice-IsAtomic (action == "MOVE") _ _ (handle_move-IsAtomic clock req) (
          choice-IsAtomic (action == "ATTACK") _ _ (handle_attack-IsAtomic clock req) (
            choice-IsAtomic (action == "CHAT") _ _ (handle_chat-IsAtomic clock req) (
              choice-IsAtomic (action == "GET_STATE") _ _ (handle_get_state-IsAtomic clock req) (
                choice-IsAtomic (action == "UPDATE_SCORE") _ _
                  (handle_update_score-IsAtomic clock req)
                  (choice-IsAtomic (action == "LEAVE") _ _ (handle_leave-IsAtomic clock req) (
                    choice-IsAtomic (action == "GET_METRICS") _ _ handle_get_metrics-IsAtomic
                      (refusal-IsAtomic ("unknown action: " <> action)))))))))
