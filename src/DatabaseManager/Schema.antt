-- ===== src/DatabaseManager/Schema.antt =====
-- initSchema, and the two counts of rows.
use multi_player_game.Common.{
  ℕ, Bool, true, false, ◌||◌, List, [], ◌∷◌, ◌++◌, Option, none, some, nat_beq, if◌then◌else◌,
}
use multi_player_game.Common.Int.{ℤ, pos}
use multi_player_game.Common.Actions.{pure, ◌>>=◌, ◌>>◌}
use multi_player_game.Common.Decimal.{stoll}
use multi_player_game.MySql.{MySqlApi}
use multi_player_game.DatabaseManager.{Db, call, effect, get_conn, with_pointer, open_connection}
use multi_player_game.DatabaseManager.Records.{player_count_sql, event_count_sql}

abbrev pub newline : ℕ
newline = 10

unfoldable pub extend_first : ℕ → List (List ℕ) → List (List ℕ)
extend_first c [] = (c ∷ []) ∷ []
extend_first c (l ∷ ls) = (c ∷ l) ∷ ls

-- What `std::getline` reads, call by call, until the text ends.
unfoldable pub read_lines : List ℕ → List (List ℕ)
unfolding extend_first
read_lines [] = []
read_lines (c ∷ cs) =
    let rest = read_lines cs in if nat_beq c newline then [] ∷ rest else extend_first c rest

-- `line.rfind("--", 0) == 0`
unfoldable pub is_comment : List ℕ → Bool
is_comment (a ∷ b ∷ cs) = if nat_beq a b'-' then nat_beq b b'-' else false
is_comment (a ∷ []) = false
is_comment [] = false

-- `line.find(';') != npos`
unfoldable pub ends_statement : List ℕ → Bool
ends_statement [] = false
ends_statement (c ∷ cs) = nat_beq c b';' || ends_statement cs

-- A C string ends at the first byte 0.
unfoldable pub c_str : List ℕ → List ℕ
c_str [] = []
c_str (c ∷ cs) = let rest = c_str cs in if nat_beq c 0 then [] else c ∷ rest

-- `(row && row[0]) ? std::stoll(row[0]) : 0`; `none` where it throws.
unfoldable pub row_number : Option (List ℕ) → Option ℤ
row_number none = some (pos 0)
row_number (some digits) = stoll digits

module _ {Double : Type 0} (mysql : MySqlApi Double) where
  -- The loop over the lines; the second argument is the statement so far.
  unfoldable pub run_schema : List (List ℕ) → List ℕ → Db mysql (Unit {0})
  unfolding ◌>>=◌ pure call get_conn is_comment ends_statement c_str
  run_schema [] statement = pure tt
  run_schema (line ∷ lines) statement =
      if is_comment line
      then run_schema lines statement
      else if ends_statement line
      then (do
        conn ← get_conn mysql
        call mysql (mysql.query conn (c_str (statement ++ line ++ newline ∷ [])))
        run_schema lines [])
      else run_schema lines (statement ++ line ++ newline ∷ [])

  -- The argument is the text of the file, if it can be opened.
  unfoldable pub init_schema : Option (List ℕ) → Db mysql Bool
  unfolding ◌>>=◌ pure open_connection with_pointer run_schema read_lines
  init_schema sql = do
    opened ← open_connection mysql
    if opened
        then with_pointer sql (pure true) (λ sql. run_schema (read_lines sql) [] >> pure true)
        else pure false

  -- `getPlayerCount` and `getEventCount`, which differ in the query only: a row that is no number
  -- throws before the result is freed.
  unfoldable pub count_rows : List ℕ → Db mysql (Option ℤ)
  unfolding ◌>>=◌ pure call effect get_conn with_pointer open_connection row_number
  count_rows sql = do
    opened ← open_connection mysql
    if opened
        then (do
          conn ← get_conn mysql
          queried ← call mysql (mysql.query conn sql)
          if queried
              then (do
                rows ← call mysql (mysql.store_result conn)
                with_pointer rows (pure (some (pos 0))) (λ rows. do
                  row ← call mysql (mysql.fetch_row rows)
                  with_pointer (row_number row) (pure none)
                      (λ n. do effect mysql (mysql.free_result rows); pure (some n))))
              else pure (some (pos 0)))
        else pure (some (pos 0))

  unfoldable pub get_player_count : Db mysql (Option ℤ)
  unfolding count_rows
  get_player_count = count_rows player_count_sql

  unfoldable pub get_event_count : Db mysql (Option ℤ)
  unfolding count_rows
  get_event_count = count_rows event_count_sql
