-- ===== src/DatabaseManager/Requests.antt =====
-- Calls of the methods, in any order; and the part that the request handler uses.
use multi_player_game.Common.{ℕ, String, Bool, List, [], ◌∷◌, Option, none, some, ◌+◌}
use multi_player_game.Common.Int.{ℤ}
use multi_player_game.Common.Actions.{pure, ◌>>=◌, ◌>>◌}
use multi_player_game.Backends.{Count, DatabaseApi}
use multi_player_game.MySql.{MySqlApi}
use multi_player_game.DatabaseManager.{DatabaseManager, Db, open_connection, close}
use multi_player_game.DatabaseManager.Records.{PlayerDbRecord, TestRunDbRecord}
use multi_player_game.DatabaseManager.Statements.{
  upsert_player, get_player, record_event, save_match, save_test_run,
}
use multi_player_game.DatabaseManager.Schema.{init_schema, get_player_count, get_event_count}

pub data Request (Double : Type 0) : Type 0 where
  opens : Request Double
  closes : Request Double
  inits_schema : Option (List ℕ) → Request Double
  upserts : ℕ → ℤ → String → ℤ → ℤ → Request Double
  gets_player : ℕ → ℤ → Request Double
  records : ℕ → String → ℤ → String → String → Request Double
  saves_match : ℕ → String → String → ℤ → ℤ → ℤ → Request Double
  saves_run : TestRunDbRecord Double → Request Double
  counts_players : Request Double
  counts_events : Request Double

-- What a method gives back.
pub data Answer : Type 0 where
  done : Answer
  returned : Bool → Answer
  player : Option PlayerDbRecord → Answer
  number : Option ℤ → Answer

-- A call that throws counts.
unfoldable pub throwing : Answer → ℕ
throwing done = 0
throwing (returned b) = 0
throwing (player p) = 0
throwing (number none) = 1
throwing (number (some z)) = 0

module _ {Double : Type 0} (mysql : MySqlApi Double) where
  open mysql use {Handle, Client}

  unfoldable pub perform : Request Double → Db mysql Answer
  unfolding ◌>>=◌ pure open_connection close init_schema upsert_player get_player record_event
      save_match save_test_run get_player_count get_event_count
  perform opens = open_connection mysql >>= λ b. pure (returned b)
  perform closes = close mysql >> pure done
  perform (inits_schema sql) = init_schema mysql sql >>= λ b. pure (returned b)
  perform (upserts t i u s k) = upsert_player mysql t i u s k >>= λ b. pure (returned b)
  perform (gets_player t i) = get_player mysql t i >>= λ p. pure (player p)
  perform (records t m i e d) = record_event mysql t m i e d >>= λ b. pure (returned b)
  perform (saves_match t m s p k w) = save_match mysql t m s p k w >>= λ b. pure (returned b)
  perform (saves_run run) = save_test_run mysql run >>= λ b. pure (returned b)
  perform counts_players = get_player_count mysql >>= λ n. pure (number n)
  perform counts_events = get_event_count mysql >>= λ n. pure (number n)

  -- One after the other, with the number of those that threw.
  unfoldable pub perform_all : List (Request Double) → Db mysql ℕ
  unfolding ◌>>=◌ pure perform throwing
  perform_all [] = pure 0
  perform_all (r ∷ rs) = do
    answer ← perform r
    thrown ← perform_all rs
    pure (throwing answer + thrown)

  -- A call whose counts are given to the caller.
  abbrev counting :
      {A : Type 0}
      → Db mysql A
      → DatabaseManager Handle × Client
      → List Count × (DatabaseManager Handle × Client)
  counting m (manager, client) =
      let (_, s) = m (record { manager = manager; client = client; counted = [] }) in
      (s.counted, (s.manager, s.client))

  -- The interface that the request handler uses; t is what the clock measures for each call.
  unfoldable pub database_api : ℕ → DatabaseApi
  unfolding upsert_player record_event
  database_api t = record {
    Database = DatabaseManager Handle × Client;
    upsert_player = λ i u s k d. counting (upsert_player mysql t i u s k) d;
    record_event = λ m i e p d. counting (record_event mysql t m i e p) d;
  }
