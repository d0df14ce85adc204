-- ===== src/DatabaseManager/Leaks/Closing.antt =====
-- Each method closes what it opens, whatever the library answers; so do all sequences of calls.
use multi_player_game.Common.{
  ℕ, refl, String, List, [], ◌∷◌, ◌++◌, Option, none, some, Bool-cases, inl, inr,
}
use multi_player_game.Common.Int.{ℤ, pos}
use multi_player_game.Common.Actions.{pure, ◌>>=◌, ◌>>◌}
use multi_player_game.MySql.{MySqlApi, HasLedger}
use multi_player_game.DatabaseManager.{Db}
use multi_player_game.DatabaseManager.Records.{TestRunDbRecord}
use multi_player_game.DatabaseManager.Statements.{
  upsert_player, get_player, record_event, save_match, save_test_run,
}
use multi_player_game.DatabaseManager.Schema.{
  is_comment, ends_statement, c_str, newline, run_schema, init_schema, count_rows, row_number,
}
use multi_player_game.DatabaseManager.Leaks.{Closes}
use multi_player_game.DatabaseManager.Leaks.Rules.{
  prepare-IsNeutral, bind-IsNeutral, execute-IsNeutral, result-IsNeutral, fetch-IsNeutral,
  row-IsNeutral, pure-Closes, if-Closes, pointer-Closes, conn-Closes, count-Closes, call-Closes,
  query-Closes, statement-Closes, result-Closes, free-Closes, close-Closes,
}
use multi_player_game.DatabaseManager.Leaks.Opening.{open-Closes}

abbrev pub nothing : {A : Type 0} → A → ℕ
nothing a = 0

abbrev pub lost_result : Option ℤ → ℕ
lost_result none = 1
lost_result (some z) = 0

module _ {Double : Type 0} {mysql : MySqlApi Double} {kept : HasLedger mysql} where
  pub return-Closes : {A : Type 0} (a : A) → Closes mysql kept nothing 0 0 (pure a)
  return-Closes a = pure-Closes 0 a refl

ruleset closes_rules = (
  prepare-IsNeutral, bind-IsNeutral, execute-IsNeutral, result-IsNeutral, fetch-IsNeutral,
  row-IsNeutral, return-Closes, if-Closes, conn-Closes, count-Closes, call-Closes, statement-Closes,
  close-Closes, open-Closes,
)

module _ {Double : Type 0} (mysql : MySqlApi Double) (kept : HasLedger mysql) where
  pub upsert_player-Closes :
      (t : ℕ) (i : ℤ) (u : String) (s k : ℤ)
      → Closes mysql kept nothing 0 0 (upsert_player mysql t i u s k)
  unfolding upsert_player
  upsert_player-Closes t i u s k = search closes_rules depth 30

  pub get_player-Closes : (t : ℕ) (i : ℤ) → Closes mysql kept nothing 0 0 (get_player mysql t i)
  unfolding get_player
  get_player-Closes t i = search closes_rules depth 30

  pub record_event-Closes :
      (t : ℕ) (m : String) (i : ℤ) (e d : String)
      → Closes mysql kept nothing 0 0 (record_event mysql t m i e d)
  unfolding record_event
  record_event-Closes t m i e d = search closes_rules depth 30

  pub save_match-Closes :
      (t : ℕ) (m s : String) (p k w : ℤ)
      → Closes mysql kept nothing 0 0 (save_match mysql t m s p k w)
  unfolding save_match
  save_match-Closes t m s p k w = search closes_rules depth 30

  pub save_test_run-Closes :
      (run : TestRunDbRecord Double) → Closes mysql kept nothing 0 0 (save_test_run mysql run)
  unfolding save_test_run
  save_test_run-Closes run = search closes_rules depth 30

  pub run_schema-Closes :
      {A : Type 0} {lost : A → ℕ} (lines : List (List ℕ)) (statement : List ℕ) (k : Db mysql A)
      → Closes mysql kept lost 0 0 k
      → Closes mysql kept lost 0 0 (run_schema mysql lines statement >> k)
  unfolding run_schema ◌>>=◌ pure
  run_schema-Closes [] statement k h = record { at = λ p s b. h.at p s b }
  run_schema-Closes (line ∷ lines) statement k h' = elim (Bool-cases (is_comment line)) [
    | inl on ↦ rw (on, run_schema) (run_schema-Closes lines statement k h')
    | inr off ↦ elim (Bool-cases (ends_statement line)) [
      | inl ends ↦
          rw (off, run_schema, ends)
            record {
              at = λ p s b.
                  (conn-Closes 0 0 _ (λ h.
                      query-Closes 0 0 h (c_str (statement ++ line ++ newline ∷ [])) _
                        (λ x. run_schema-Closes lines [] k h'))).at
                    p s b;
            }
      | inr goes_on ↦ rw (off, run_schema, goes_on) (run_schema-Closes lines _ k h')
    ]
  ]

  pub init_schema-Closes :
      (sql : Option (List ℕ)) → Closes mysql kept nothing 0 0 (init_schema mysql sql)
  unfolding init_schema
  init_schema-Closes sql = search (closes_rules, pointer-Closes, run_schema-Closes) depth 30

  pub number-Closes : (z : ℤ) → Closes mysql kept lost_result 0 0 (pure (some z))
  number-Closes z = pure-Closes 0 (some z) refl

  pub throw-Closes : Closes mysql kept lost_result 0 1 (pure none)
  throw-Closes = pure-Closes 1 none refl

  pub count_rows-Closes : (sql : List ℕ) → Closes mysql kept lost_result 0 0 (count_rows mysql sql)
  unfolding count_rows
  count_rows-Closes sql = open-Closes mysql kept _ (λ opened.
      if-Closes 0 0 opened _ _
        (conn-Closes 0 0 _ (λ h. query-Closes 0 0 h sql _ (λ queried.
          if-Closes 0 0 queried _ _
            (result-Closes 0 h _ _ zero_rows (λ rows.
              call-Closes 0 1 _ _ (row-IsNeutral rows) (λ row.
                pointer-Closes 0 1 (row_number row) _ _ throw-Closes
                  (λ n. free-Closes 0 0 rows _ (number-Closes n)))))
            zero_rows)))
        zero_rows)
    where
      zero_rows : Closes mysql kept lost_result 0 0 (pure (some (pos 0)))
      zero_rows = number-Closes (pos 0)
