-- ===== src/DatabaseManager/Statements.antt =====
-- The prepared statements: upsertPlayer, getPlayer, recordEvent, saveMatch and saveTestRun. The
-- number t is the time that the clock measured, in nanoseconds.
use multi_player_game.Common.{ℕ, String, Bool, true, false, Option, none, if◌then◌else◌}
use mathlib.Core.Option
use multi_player_game.Common.Int.{ℤ}
use multi_player_game.Common.Actions.{pure, ◌>>=◌, ◌>>◌}
use multi_player_game.Backends.{database_operation}
use multi_player_game.MySql.{MySqlApi}
use multi_player_game.DatabaseManager.{
  Db, call, effect, count, get_conn, with_pointer, open_connection,
}
use multi_player_game.DatabaseManager.Records.{
  PlayerDbRecord, TestRunDbRecord, upsert_player_sql, get_player_sql, record_event_sql,
  save_match_sql, save_test_run_sql, upsert_player_params, record_event_params, save_match_params,
  save_test_run_params, player_columns, player_of, get_player_params,
}

module _ {Double : Type 0} (mysql : MySqlApi Double) where
  open mysql use {Statement}

  -- Ends of a method: without the statement, and after it is closed.
  abbrev give_up : {A : Type 0} → Statement → A → Db mysql A
  give_up stmt a = do
    effect mysql (mysql.stmt_close stmt)
    count mysql (database_operation 0 false)
    pure a

  unfoldable pub upsert_player : ℕ → ℤ → String → ℤ → ℤ → Db mysql Bool
  unfolding ◌>>=◌ pure call effect count get_conn with_pointer open_connection upsert_player_params
  upsert_player t player_id username score kills = do
    opened ← open_connection mysql
    if opened
        then (do
          conn ← get_conn mysql
          stmt ← call mysql (mysql.stmt_init conn)
          with_pointer stmt (count mysql (database_operation 0 false) >> pure false) (λ stmt. do
            prepared ← call mysql (mysql.stmt_prepare stmt upsert_player_sql)
            if prepared
                then (do
                  bound ← call mysql (
                      mysql.stmt_bind_param stmt
                        (upsert_player_params player_id username score kills))
                  if bound
                      then (do
                        ok ← call mysql (mysql.stmt_execute stmt)
                        effect mysql (mysql.stmt_close stmt)
                        count mysql (database_operation t ok)
                        pure ok)
                      else give_up stmt false)
                else give_up stmt false))
        else pure false

  unfoldable pub get_player : ℕ → ℤ → Db mysql (Option PlayerDbRecord)
  unfolding ◌>>=◌ pure call effect count get_conn with_pointer open_connection player_of
      get_player_params
  get_player t player_id = do
    opened ← open_connection mysql
    if opened
        then (do
          conn ← get_conn mysql
          stmt ← call mysql (mysql.stmt_init conn)
          with_pointer stmt (pure none) (λ stmt. do
            prepared ← call mysql (mysql.stmt_prepare stmt get_player_sql)
            if prepared
                then (do
                  call mysql (mysql.stmt_bind_param stmt (get_player_params player_id))
                  executed ← call mysql (mysql.stmt_execute stmt)
                  if executed
                      then (do
                        call mysql (mysql.stmt_bind_result stmt player_columns)
                        cells ← call mysql (mysql.stmt_fetch stmt)
                        effect mysql (mysql.stmt_close stmt)
                        count mysql (database_operation t true)
                        pure (Option.map player_of cells))
                      else give_up stmt none)
                else give_up stmt none))
        else pure none

  unfoldable pub record_event : ℕ → String → ℤ → String → String → Db mysql Bool
  unfolding ◌>>=◌ pure call effect count get_conn with_pointer open_connection record_event_params
  record_event t match_id player_id event_type event_data = do
    opened ← open_connection mysql
    if opened
        then (do
          conn ← get_conn mysql
          stmt ← call mysql (mysql.stmt_init conn)
          with_pointer stmt (pure false) (λ stmt. do
            prepared ← call mysql (mysql.stmt_prepare stmt record_event_sql)
            if prepared
                then (do
                  call mysql (
                      mysql.stmt_bind_param stmt
                        (record_event_params match_id player_id event_type event_data))
                  ok ← call mysql (mysql.stmt_execute stmt)
                  effect mysql (mysql.stmt_close stmt)
                  count mysql (database_operation t ok)
                  pure ok)
                else give_up stmt false))
        else pure false

  unfoldable pub save_match : ℕ → String → String → ℤ → ℤ → ℤ → Db mysql Bool
  unfolding ◌>>=◌ pure call effect count get_conn with_pointer open_connection save_match_params
  save_match t match_id status total_players total_kills winner_player_id = do
    opened ← open_connection mysql
    if opened
        then (do
          conn ← get_conn mysql
          stmt ← call mysql (mysql.stmt_init conn)
          with_pointer stmt (pure false) (λ stmt. do
            prepared ← call mysql (mysql.stmt_prepare stmt save_match_sql)
            if prepared
                then (do
                  call mysql (
                      mysql.stmt_bind_param stmt (
                        save_match_params match_id status total_players total_kills
                          winner_player_id))
                  ok ← call mysql (mysql.stmt_execute stmt)
                  effect mysql (mysql.stmt_close stmt)
                  count mysql (database_operation t ok)
                  pure ok)
                else give_up stmt false))
        else pure false

  unfoldable pub save_test_run : TestRunDbRecord Double → Db mysql Bool
  unfolding ◌>>=◌ pure call effect get_conn with_pointer open_connection save_test_run_params
  save_test_run run = do
    opened ← open_connection mysql
    if opened
        then (do
          conn ← get_conn mysql
          stmt ← call mysql (mysql.stmt_init conn)
          with_pointer stmt (pure false) (λ stmt. do
            prepared ← call mysql (mysql.stmt_prepare stmt save_test_run_sql)
            if prepared
                then (do
                  call mysql (mysql.stmt_bind_param stmt (save_test_run_params run))
                  ok ← call mysql (mysql.stmt_execute stmt)
                  effect mysql (mysql.stmt_close stmt)
                  pure ok)
                else (effect mysql (mysql.stmt_close stmt) >> pure false)))
        else pure false
