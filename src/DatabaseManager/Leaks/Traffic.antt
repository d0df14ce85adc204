-- ===== src/DatabaseManager/Leaks/Traffic.antt =====
-- Sequences of calls from a new manager.
use multi_player_game.Common.{ℕ, ◌+◌, ◌≡◌, refl, String, List, [], ◌∷◌, Option, none, some, arith}
use multi_player_game.Common.Int.{ℤ}
use multi_player_game.Common.Actions.{pure, ◌>>=◌}
use multi_player_game.MySql.{MySqlApi, HasLedger, Ledger}
use multi_player_game.DatabaseManager.{Link, Db, create, close, is_some, set_connected}
use multi_player_game.DatabaseManager.Schema.{get_player_count, get_event_count}
use multi_player_game.DatabaseManager.Requests.{
  Request, opens, closes, inits_schema, upserts, gets_player, records, saves_match, saves_run,
  counts_players, counts_events, returned, player, number, perform, throwing, perform_all,
}
use multi_player_game.DatabaseManager.Leaks.{held, Balanced, Closes}
use multi_player_game.DatabaseManager.Leaks.Rules.{pure-Closes}
use multi_player_game.DatabaseManager.Leaks.Opening.{open-Closes, close-Unlinked}
use multi_player_game.DatabaseManager.Leaks.Closing.{
  nothing, upsert_player-Closes, get_player-Closes, record_event-Closes, save_match-Closes,
  save_test_run-Closes, init_schema-Closes, lost_result, count_rows-Closes,
}

-- Nothing is open.
abbrev pub IsSettled : Ledger → Type 0
IsSettled l =
    (l.handles_opened ≡ l.handles_closed)
    × (l.statements_opened ≡ l.statements_closed)
    × (l.results_stored ≡ l.results_freed)

lost_lem : (n : Option ℤ) → throwing (number n) ≡ lost_result n
unfolding throwing
lost_lem none = refl
lost_lem (some z) = refl

module _ {Double : Type 0} (mysql : MySqlApi Double) (kept : HasLedger mysql) where
  open mysql use {Handle, Client}

  map-Closes :
      {A B : Type 0} (lost : A → ℕ) (after : B → ℕ) (m : Db mysql A) (f : A → B)
      → ((a : A) → after (f a) ≡ lost a)
      → Closes mysql kept lost 0 0 m
      → Closes mysql kept after 0 0 (m >>= λ a. pure (f a))
  unfolding ◌>>=◌ pure
  map-Closes lost after m f e h = record { at = λ p s b. rw (e (m s).0) (h.at p s b) }

  close-Balanced :
      (r : ℕ) (s : Link Handle Client)
      → Balanced mysql kept 0 r s
      → Balanced mysql kept 0 r (close mysql s).1
  unfolding close ◌>>=◌ set_connected
  close-Balanced r s b =
      let u = close-Unlinked mysql kept r s b in
      record {
        handles = rw u.no_handle (omega (arith, u.handles));
        statements_open = omega (arith, u.statements_open);
        results_open = u.results_open;
        linked = rw u.no_handle refl;
      }

  perform-Closes : (r : Request Double) → Closes mysql kept throwing 0 0 (perform mysql r)
  unfolding perform throwing get_player_count get_event_count
  perform-Closes opens = open-Closes mysql kept _ (λ b. pure-Closes 0 (returned b) refl)
  perform-Closes closes = record { at = λ p s b. close-Balanced (p + 0) s b }
  perform-Closes (inits_schema sql) =
      map-Closes nothing _ _ (λ b. returned b) (λ b. refl) (init_schema-Closes mysql kept sql)
  perform-Closes (upserts t i u s k) =
      map-Closes nothing _ _ (λ b. returned b) (λ b. refl)
        (upsert_player-Closes mysql kept t i u s k)
  perform-Closes (gets_player t i) =
      map-Closes nothing _ _ (λ b. player b) (λ b. refl) (get_player-Closes mysql kept t i)
  perform-Closes (records t m i e d) =
      map-Closes nothing _ _ (λ b. returned b) (λ b. refl)
        (record_event-Closes mysql kept t m i e d)
  perform-Closes (saves_match t m s p k w) =
      map-Closes nothing _ _ (λ b. returned b) (λ b. refl)
        (save_match-Closes mysql kept t m s p k w)
  perform-Closes (saves_run run) =
      map-Closes nothing _ _ (λ b. returned b) (λ b. refl) (save_test_run-Closes mysql kept run)
  perform-Closes counts_players =
      map-Closes lost_result _ _ (λ n. number n) lost_lem (count_rows-Closes mysql kept _)
  perform-Closes counts_events =
      map-Closes lost_result _ _ (λ n. number n) lost_lem (count_rows-Closes mysql kept _)

  perform_all-Balanced :
      (rs : List (Request Double)) (r : ℕ) (s : Link Handle Client)
      → Balanced mysql kept 0 r s
      → let (thrown, s') = perform_all mysql rs s in Balanced mysql kept 0 (r + thrown) s'
  unfolding perform_all ◌>>=◌ pure
  perform_all-Balanced [] r s b = let e : r + 0 ≡ r = omega arith in rw e b
  perform_all-Balanced (q ∷ rs) r s b =
      let (answer, s') = perform mysql q s in
      let b' = (perform-Closes q).at r s (let e : r + 0 ≡ r = omega arith in rw e b) in
      let rest = (perform_all mysql rs s').0 in
      let e : r + (throwing answer + rest) ≡ r + throwing answer + rest = omega arith in
      rw e (perform_all-Balanced rs (r + throwing answer) s' b')

  -- From a new manager and a client with nothing open, after any methods have been called, whatever
  -- the library answers: every statement is closed, the one handle that is open is that of `conn`,
  -- of the stored results one is not freed for each call that threw, and `connected` says whether
  -- there is a handle. After the destructor no handle is open.
  pub perform_all_balance :
      (rs : List (Request Double)) (c : Client) (host : String) (port : ℤ) (user pass db : String)
      → IsSettled (kept.ledger c)
      → let start : Link Handle Client = record {
        manager = create host port user pass db;
        client = c;
        counted = [];
      } in
        let (thrown, s) = perform_all mysql rs start in
        let l = kept.ledger s.client in
        let end = kept.ledger (close mysql s).1.client in
        (l.statements_opened ≡ l.statements_closed)
        × (l.handles_opened ≡ l.handles_closed + held s.manager.conn)
        × (l.results_stored ≡ l.results_freed + thrown)
        × (s.manager.connected ≡ is_some s.manager.conn)
        × (end.handles_opened ≡ end.handles_closed)
  unfolding create
  perform_all_balance rs c host port user pass db h =
      let start : Link Handle Client = record {
        manager = create host port user pass db;
        client = c;
        counted = [];
      } in
      let b = perform_all-Balanced rs 0 start (record {
        handles = omega (arith, h.0);
        statements_open = omega (arith, h.1);
        results_open = omega (arith, h.2);
        linked = refl;
      }) in
      let u = close-Unlinked mysql kept _ _ b in
      (
        omega (arith, b.statements_open),
        b.handles,
        omega (arith, b.results_open),
        b.linked,
        u.handles,
      )
