-- ===== src/RequestHandler/World.antt =====
-- What a request works on, and the checks of its fields.
use multi_player_game.Common.{ℕ, String, [], ◌∷◌, Option, none, some}
use multi_player_game.Common.Int.{ℤ, wrap_int}
use multi_player_game.Common.Text.{◌<>◌}
use multi_player_game.Json.{JsonApi}
use multi_player_game.Metrics.{Metrics}
use multi_player_game.GameState.{GameState}
use multi_player_game.RequestHandler.Monad.{Reply, reply, refuse}

-- The clock readings of one request, and its latency.
pub record Clock : Type 0 where
  pub joined : ℕ
  pub started : ℕ
  pub epoch : ℕ
  pub recorded : ℕ
  pub elapsed : ℕ
  pub session : ℤ → ℕ
  pub latency : ℕ

-- The handler's members, and the registry of metrics.
pub record World (C D : Type 0) : Type 0 where
  pub game : GameState
  pub metrics : Metrics
  pub cache : Option C
  pub database : Option D

module _ (json : JsonApi) where
  open json use {Json}

  unfoldable pub error_response : String → Json
  error_response message =
      json.object (("status", json.string "error") ∷ ("message", json.string message) ∷ [])

  unfoldable pub require_int : String → Json → Reply ℤ
  require_int key j = elim (json.get key j) [
    | none ↦ refuse ("missing required field: '" <> key <> "'")
    | some v ↦ elim (json.as_integer v) [
      | none ↦ refuse ("field '" <> key <> "' must be an integer")
      | some z ↦ reply (wrap_int z)
    ]
  ]

  unfoldable pub require_string : String → Json → Reply String
  require_string key j = elim (json.get key j) [
    | none ↦ refuse ("missing required field: '" <> key <> "'")
    | some v ↦ elim (json.as_string v) [
      | none ↦ refuse ("field '" <> key <> "' must be a string")
      | some s ↦ reply s
    ]
  ]
