-- ===== src/RequestHandler/Mirrors/Unseen.antt =====
-- The whole of RequestHandler::handle, over two caches and two databases.
use multi_player_game.Common.{
  ℕ, ◌≡◌, refl, sym, ap, subst, inl, inr, String, Bool, false, List, [], ◌∷◌, none, some, ◌==◌,
  string_eq, Option-cases, Bool-cases, if◌then◌else◌,
}
use multi_player_game.Common.Text.{◌<>◌}
use text.Mathlib.TextEquality.{eq_iff}
use multi_player_game.Metrics.{increment_requests_total}
use multi_player_game.Backends.{CacheApi, DatabaseApi}
use multi_player_game.Json.{JsonApi}
use multi_player_game.RequestHandler.Monad.{refuse}
use multi_player_game.RequestHandler.World.{Clock, World}
use multi_player_game.RequestHandler.Play.{handle_get_metrics}
use multi_player_game.RequestHandler.Dispatch.{
  perform, respond, is_ok, finish, reject, respond_to, handle, counting,
}
use multi_player_game.RequestHandler.Traffic.{handle_all}
use multi_player_game.RequestHandler.Mirrors.{Alike, choice-Alike}
use multi_player_game.RequestHandler.Mirrors.Handlers.{
  IsQuiet, handle_join-Alike, handle_move-Alike, handle_leave-Alike, handle_attack-Alike,
  handle_chat-Alike, handle_update_score-Alike, handle_get_state-Alike,
}

-- Whether the bytes of a request ask for the metrics.
unfoldable pub asks_metrics : (json : JsonApi) → List ℕ → Bool
asks_metrics json raw_json = elim (json.parse raw_json) [
  | none ↦ false
  | some request ↦ elim (json.get "action" request) [
    | none ↦ false
    | some v ↦ elim (json.as_string v) [ none ↦ false | some action ↦ action == "GET_METRICS" ]
  ]
]

module _ (json : JsonApi) (caches caches' : CacheApi json.Json) (databases databases' : DatabaseApi)
    (q : IsQuiet caches) (q' : IsQuiet caches') where
  open json use {Json}

  abbrev Shared : Type 0
  Shared = World caches.Cache databases.Database

  abbrev Shared' : Type 0
  Shared' = World caches'.Cache databases'.Database

  tail-Alike :
      (clock : Clock) (action : String) (req : Json)
      → (action == "GET_METRICS") ≡ false
      → Alike {C = caches.Cache} {D = databases.Database} {C' = caches'.Cache}
          {D' = databases'.Database} {A = Json}
          (λ w.
            if action == "GET_METRICS"
            then handle_get_metrics json caches databases w
            else (refuse ("unknown action: " <> action), w))
          (λ w.
            if action == "GET_METRICS"
            then handle_get_metrics json caches' databases' w
            else (refuse ("unknown action: " <> action), w))
  tail-Alike clock action req e = record { agree = λ w w' e'. rw e (refl, e') }

  other-Alike :
      (clock : Clock) (action : String) (req : Json)
      → (action == "GET_METRICS") ≡ false
      → Alike
          (perform json caches databases clock action req)
          (perform json caches' databases' clock action req)
  unfolding perform
  other-Alike clock action req e =
      choice-Alike (action == "JOIN") _ _ _ _
        (handle_join-Alike json caches caches' databases databases' clock req)
        (choice-Alike (action == "MOVE") _ _ _ _
          (handle_move-Alike json caches caches' databases databases' clock req)
          (choice-Alike (action == "ATTACK") _ _ _ _
            (handle_attack-Alike json caches caches' databases databases' clock req)
            (choice-Alike (action == "CHAT") _ _ _ _
              (handle_chat-Alike json caches caches' databases databases' clock req)
              (choice-Alike (action == "GET_STATE") _ _ _ _
                (handle_get_state-Alike json caches caches' databases databases' q q' clock req)
                (choice-Alike (action == "UPDATE_SCORE") _ _ _ _
                  (handle_update_score-Alike json caches caches' databases databases' clock req)
                  (choice-Alike (action == "LEAVE") _ _ _ _
                    (handle_leave-Alike json caches caches' databases databases' clock req)
                    (tail-Alike clock action req e)))))))

  perform-same :
      (clock : Clock) (action : String) (req : Json) (w : Shared) (w' : Shared')
      → w.game ≡ w'.game
      → ((action == "GET_METRICS") ≡ false
          → (perform json caches databases clock action req w).0
            ≡ (perform json caches' databases' clock action req w').0)
        × ((perform json caches databases clock action req w).1.game
            ≡ (perform json caches' databases' clock action req w').1.game)
  unfolding perform handle_get_metrics
  perform-same clock action req w w' e = elim (Bool-cases (action == "GET_METRICS")) [
    | inl metrics ↦
        let (is, _) = eq_iff action "GET_METRICS" in
        subst
          (λ a.
            ((a == "GET_METRICS") ≡ false
              → (perform json caches databases clock a req w).0
                ≡ (perform json caches' databases' clock a req w').0)
            × ((perform json caches databases clock a req w).1.game
                ≡ (perform json caches' databases' clock a req w').1.game))
          (sym (is metrics)) (λ differs. absurd (cc), e)
    | inr other ↦ let (r, g) = (other-Alike clock action req other).agree w w' e in (λ _. r, g)
  ]

  -- Two responses that are the same if a test fails, and two worlds with the same game.
  abbrev Meets : {R : Type 0} → Bool → R × Shared → R × Shared' → Type 0
  Meets metrics (r, w) (r', w') = (metrics ≡ false → r ≡ r') × (w.game ≡ w'.game)

  handle-Meets :
      (clock : Clock) (raw : List ℕ) (w : Shared) (w' : Shared')
      → w.game ≡ w'.game
      → Meets
          (asks_metrics json raw)
          (handle json caches databases clock raw w)
          (handle json caches' databases' clock raw w')
  unfolding handle respond_to counting finish reject respond is_ok asks_metrics
  handle-Meets clock raw w w' e = elim (Option-cases (json.parse raw)) [
    | inl bad ↦ rw (bad, asks_metrics) (λ _. refl, e)
    | inr (request, p) ↦ elim (Option-cases (json.get "action" request)) [
      | inl missing ↦ rw (p, missing, respond_to, asks_metrics) (λ _. refl, e)
      | inr (v, is) ↦ elim (Option-cases (json.as_string v)) [
        | inl other ↦ rw (p, is, other, respond_to, asks_metrics) (λ _. refl, e)
        | inr (action, named) ↦
            let (r, g) =
              perform-same clock action request (counting increment_requests_total w)
                (counting increment_requests_total w') e in
            rw (p, is, named, respond_to, asks_metrics)
              (
                (λ other_action.
                    ap (λ x. json.dump (respond json caches databases x)) (r other_action)),
                g,
              )
      ]
    ]
  ]

  handle_all-Meets :
      (rs : List (Clock × List ℕ)) (w : Shared) (w' : Shared')
      → w.game ≡ w'.game
      → (handle_all json caches databases rs w).game
        ≡ (handle_all json caches' databases' rs w').game
  unfolding handle_all
  handle_all-Meets [] w w' e = e
  handle_all-Meets ((clock, raw) ∷ rs) w w' e =
      handle_all-Meets rs _ _ (handle-Meets clock raw w w' e).1

  -- Two servers with the same game, with caches and databases of any kind, in use or not, whose
  -- look-ups of a session do not throw, get the same requests, of any bytes and with the same clock
  -- readings. Then they answer a further request by the same bytes, unless it asks for the metrics,
  -- and the games after it are the same.
  pub backends_unseen :
      (rs : List (Clock × List ℕ)) (clock : Clock) (raw : List ℕ) (w : Shared) (w' : Shared')
      → w.game ≡ w'.game
      → asks_metrics json raw ≡ false
      → let (bytes, v) =
          handle json caches databases clock raw (handle_all json caches databases rs w) in
        let (bytes', v') =
          handle json caches' databases' clock raw (handle_all json caches' databases' rs w') in
        (bytes ≡ bytes') × (v.game ≡ v'.game)
  backends_unseen rs clock raw w w' e other_action =
      let (r, g) = handle-Meets clock raw _ _ (handle_all-Meets rs w w' e) in (r other_action, g)
