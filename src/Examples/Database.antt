-- ===== src/Examples/Database.antt =====
-- A MySQL client that keeps its own ledger, and answers every call.
use multi_player_game.Common.{
  ℕ, ◌+◌, ◌≡◌, refl, String, true, false, if◌then◌else◌, List, [], ◌∷◌, ◌++◌, map, none, some,
}
use multi_player_game.Common.Int.{ℤ, pos}
use multi_player_game.Common.Text.{codes}
use multi_player_game.MySql.{
  MySqlApi, HasLedger, Ledger, opened_handle, opened_statement, stored_result,
}
use multi_player_game.DatabaseManager.{Link, create, close, is_some, open_connection}
use multi_player_game.DatabaseManager.Records.{TestRunDbRecord}
use multi_player_game.DatabaseManager.Statements.{
  upsert_player, get_player, record_event, save_match, save_test_run,
}
use multi_player_game.DatabaseManager.Schema.{read_lines, c_str, init_schema}
use multi_player_game.DatabaseManager.Requests.{
  Request, closes, upserts, gets_player, counts_players, perform_all,
}
use multi_player_game.DatabaseManager.Leaks.{held}
use multi_player_game.DatabaseManager.Leaks.Traffic.{perform_all_balance}
use multi_player_game.DatabaseManager.Splitting.{
  remarks_dropped, unlines, Splits, IsText, init_schema-Sends,
}
use multi_player_game.DatabaseManager.Accounts.{Logs, IsQuiet, Wrote, Read, statements_account}

abbrev mysql : MySqlApi ℕ
mysql = record {
  Client = Ledger;
  Handle = Unit {0};
  Statement = Unit {0};
  Rows = Unit {0};
  init = λ l. (some tt, opened_handle (some tt) l);
  options = λ h o l. l;
  real_connect = λ h a u p d n l. (true, l);
  ping = λ h l. (true, l);
  close = λ h l. record l { handles_closed = l.handles_closed + 1 };
  query = λ h q l. (true, record l { queries = l.queries ++ q ∷ [] });
  store_result = λ h l. (some tt, stored_result (some tt) l);
  fetch_row = λ r l. (some (codes "rows"), l);
  free_result = λ r l. record l { results_freed = l.results_freed + 1 };
  stmt_init = λ h l. (some tt, opened_statement (some tt) l);
  stmt_prepare = λ s q l. (true, l);
  stmt_bind_param = λ s ps l. (true, l);
  stmt_execute = λ s l. (false, l);
  stmt_bind_result = λ s cs l. (true, l);
  stmt_fetch = λ s l. (none, l);
  stmt_close = λ s l. record l { statements_closed = l.statements_closed + 1 };
}

abbrev book : HasLedger mysql
book = record {
  ledger = λ l. l;
  init_lem = λ c. refl;
  options_lem = λ h o c. refl;
  real_connect_lem = λ h a u p d n c. refl;
  ping_lem = λ h c. refl;
  close_lem = λ h c. refl;
  query_lem = λ h q c. refl;
  store_result_lem = λ h c. refl;
  fetch_row_lem = λ r c. refl;
  free_result_lem = λ r c. refl;
  stmt_init_lem = λ h c. refl;
  stmt_prepare_lem = λ s q c. refl;
  stmt_bind_param_lem = λ s ps c. refl;
  stmt_execute_lem = λ s c. refl;
  stmt_bind_result_lem = λ s cs c. refl;
  stmt_fetch_lem = λ s c. refl;
  stmt_close_lem = λ s c. refl;
}

abbrev unused : Ledger
unused = record {
  handles_opened = 0;
  handles_closed = 0;
  statements_opened = 0;
  statements_closed = 0;
  results_stored = 0;
  results_freed = 0;
  queries = [];
}

abbrev fresh : Link (Unit {0}) Ledger
fresh = record {
  manager = create "127.0.0.1" (pos 3306) "game_user" "game_pass" "game_server";
  client = unused;
  counted = [];
}

abbrev traffic : List (Request ℕ)
traffic =
    upserts 5 (pos 7) "Player_7" (pos 0) (pos 0)
    ∷ closes
    ∷ gets_player 4 (pos 7)
    ∷ counts_players
    ∷ []

perform_all_balance_example :
    let (thrown, s) = perform_all mysql traffic fresh in
    let l = s.client in
    let end = (close mysql s).1.client in
    (l.statements_opened ≡ l.statements_closed)
    × (l.handles_opened ≡ l.handles_closed + held s.manager.conn)
    × (l.results_stored ≡ l.results_freed + thrown)
    × (s.manager.connected ≡ is_some s.manager.conn)
    × (end.handles_opened ≡ end.handles_closed)
perform_all_balance_example =
    perform_all_balance mysql book traffic unused "127.0.0.1" (pos 3306) "game_user" "game_pass"
      "game_server" (refl, refl, refl)

abbrev schema : List ℕ
schema = codes "-- players\nCREATE TABLE p (\n  i INT\n);\nUSE g;"

init_schema-Sends_example :
    let (opened, s1) = open_connection mysql fresh in
    let (ok, s2) = init_schema mysql (some schema) fresh in
    (ok ≡ opened)
    × (if opened
        then ((qs : List (List ℕ)) × (s2.client.queries ≡ s1.client.queries ++ map c_str qs)
            × Splits (unlines (remarks_dropped (read_lines schema))) qs)
        else s2.client.queries ≡ s1.client.queries)
    × IsText (read_lines schema) schema
init_schema-Sends_example = init_schema-Sends mysql book schema fresh

statements_account_example :
    ((username : String) (score kills : ℤ)
      → Logs mysql (Wrote 5) (upsert_player mysql 5 (pos 7) username score kills))
    × ((match_id event_type event_data : String)
        → Logs mysql (Wrote 5) (record_event mysql 5 match_id (pos 7) event_type event_data))
    × ((match_id status : String) (players kills : ℤ)
        → Logs mysql (Wrote 5) (save_match mysql 5 match_id status players kills (pos 7)))
    × Logs mysql (Read 5) (get_player mysql 5 (pos 7))
    × ((run : TestRunDbRecord ℕ) → IsQuiet mysql (save_test_run mysql run))
statements_account_example = statements_account mysql 5 (pos 7)
