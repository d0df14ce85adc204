-- ===== src/DatabaseManager/Leaks/Rules.antt =====
-- The rules, one for each kind of step of a method.
use multi_player_game.Common.{
  ℕ, suc, ◌+◌, ◌≡◌, Bool, true, false, List, Option, none, some, if◌then◌else◌, arith,
}
use multi_player_game.Common.Actions.{Action, pure, ◌>>=◌, ◌>>◌}
use multi_player_game.Backends.{Count}
use multi_player_game.MySql.{MySqlApi, HasLedger, Param, Column, opened_statement, stored_result}
use multi_player_game.DatabaseManager.{Link, Db, call, effect, count, get_conn, with_pointer}
use multi_player_game.DatabaseManager.Leaks.{Balanced, Closes, IsNeutral}

module _ {Double : Type 0} {mysql : MySqlApi Double} {kept : HasLedger mysql} where
  open mysql use {Handle, Client, Statement, Rows}

  pub prepare-IsNeutral :
      (s : Statement) (q : List ℕ) → IsNeutral mysql kept (mysql.stmt_prepare s q)
  prepare-IsNeutral s q = record { same = kept.stmt_prepare_lem s q }

  pub bind-IsNeutral :
      (s : Statement) (ps : List (Param Double)) → IsNeutral mysql kept (mysql.stmt_bind_param s ps)
  bind-IsNeutral s ps = record { same = kept.stmt_bind_param_lem s ps }

  pub execute-IsNeutral : (s : Statement) → IsNeutral mysql kept (mysql.stmt_execute s)
  execute-IsNeutral s = record { same = kept.stmt_execute_lem s }

  pub result-IsNeutral :
      (s : Statement) (cs : List Column) → IsNeutral mysql kept (mysql.stmt_bind_result s cs)
  result-IsNeutral s cs = record { same = kept.stmt_bind_result_lem s cs }

  pub fetch-IsNeutral : (s : Statement) → IsNeutral mysql kept (mysql.stmt_fetch s)
  fetch-IsNeutral s = record { same = kept.stmt_fetch_lem s }

  pub row-IsNeutral : (r : Rows) → IsNeutral mysql kept (mysql.fetch_row r)
  row-IsNeutral r = record { same = kept.fetch_row_lem r }

  -- The balance looks at the ledger and the manager alone.
  Balanced-ledger :
      (n r : ℕ) (s : Link Handle Client) (c : Client)
      → kept.ledger c ≡ kept.ledger s.client
      → Balanced mysql kept n r s
      → Balanced mysql kept n r (record s { client = c })
  Balanced-ledger n r s c e b = record {
    handles = rw e b.handles;
    statements_open = rw e b.statements_open;
    results_open = rw e b.results_open;
    linked = b.linked;
  }

  Balanced-query :
      (n r : ℕ) (s : Link Handle Client) (h : Option Handle) (q : List ℕ)
      → Balanced mysql kept n r s
      → Balanced mysql kept n r (record s { client = (mysql.query h q s.client).1 })
  Balanced-query n r s h q b =
      let e = kept.query_lem h q s.client in
      record {
        handles = rw e b.handles;
        statements_open = rw e b.statements_open;
        results_open = rw e b.results_open;
        linked = b.linked;
      }

  module _ {A : Type 0} {lost : A → ℕ} where
    pub pure-Closes : (r : ℕ) (a : A) → lost a ≡ r → Closes mysql kept lost 0 r (pure a)
    unfolding pure
    pure-Closes r a e = record { at = λ p s b. rw e b }

    pub if-Closes :
        (n r : ℕ) (b : Bool) (m k : Db mysql A)
        → Closes mysql kept lost n r m
        → Closes mysql kept lost n r k
        → Closes mysql kept lost n r (if b then m else k)
    if-Closes n r true m k hm hk = hm
    if-Closes n r false m k hm hk = hk

    pub pointer-Closes :
        {P : Type 0} (n r : ℕ) (p : Option P) (m : Db mysql A) (k : P → Db mysql A)
        → Closes mysql kept lost n r m
        → ((x : P) → Closes mysql kept lost n r (k x))
        → Closes mysql kept lost n r (with_pointer p m k)
    unfolding with_pointer
    pointer-Closes n r none m k hm hk = hm
    pointer-Closes n r (some x) m k hm hk = hk x

    pub conn-Closes :
        (n r : ℕ) (k : Option Handle → Db mysql A)
        → ((h : Option Handle) → Closes mysql kept lost n r (k h))
        → Closes mysql kept lost n r (get_conn mysql >>= k)
    unfolding ◌>>=◌ get_conn
    conn-Closes n r k h = record { at = λ p s b. (h s.manager.conn).at p s b }

    pub count-Closes :
        (n r : ℕ) (c : Count) (k : Db mysql A)
        → Closes mysql kept lost n r k
        → Closes mysql kept lost n r (count mysql c >> k)
    unfolding ◌>>=◌ count
    count-Closes n r c k h = record {
      at = λ p s b. h.at p _ (record {
        handles = b.handles;
        statements_open = b.statements_open;
        results_open = b.results_open;
        linked = b.linked;
      });
    }

    pub call-Closes :
        {X : Type 0} (n r : ℕ) (f : Action Client X) (k : X → Db mysql A)
        → IsNeutral mysql kept f
        → ((x : X) → Closes mysql kept lost n r (k x))
        → Closes mysql kept lost n r (call mysql f >>= k)
    unfolding ◌>>=◌ call
    call-Closes n r f k e h = record {
      at = λ p s b.
          (h (f s.client).0).at p _ (Balanced-ledger n _ s (f s.client).1 (e.same s.client) b);
    }

    pub query-Closes :
        (n r : ℕ) (h : Option Handle) (q : List ℕ) (k : Bool → Db mysql A)
        → ((x : Bool) → Closes mysql kept lost n r (k x))
        → Closes mysql kept lost n r (call mysql (mysql.query h q) >>= k)
    unfolding ◌>>=◌ call
    query-Closes n r h q k e = record {
      at = λ p s b. (e (mysql.query h q s.client).0).at p _ (Balanced-query n _ s h q b);
    }

    statement-Balanced :
        (r p : ℕ) (x : Option Statement) (m : Db mysql A) (k : Statement → Db mysql A)
        (s : Link Handle Client) (c : Client)
        → kept.ledger c ≡ opened_statement x (kept.ledger s.client)
        → Closes mysql kept lost 0 r m
        → ((y : Statement) → Closes mysql kept lost 1 r (k y))
        → Balanced mysql kept 0 (p + r) s
        → let (a, s') = with_pointer x m k (record s { client = c }) in
          Balanced mysql kept 0 (p + lost a) s'
    unfolding with_pointer
    statement-Balanced r p none m k s c e hm hk b = hm.at p _ (Balanced-ledger 0 _ s c e b)
    statement-Balanced r p (some y) m k s c e hm hk b = (hk y).at p _ (record {
      handles = rw e b.handles;
      statements_open = rw e (omega (arith, b.statements_open));
      results_open = rw e b.results_open;
      linked = b.linked;
    })

    -- A statement that is opened is there, and has to be closed.
    pub statement-Closes :
        (r : ℕ) (h : Option Handle) (m : Db mysql A) (k : Statement → Db mysql A)
        → Closes mysql kept lost 0 r m
        → ((y : Statement) → Closes mysql kept lost 1 r (k y))
        → Closes mysql kept lost 0 r (call mysql (mysql.stmt_init h) >>= λ x. with_pointer x m k)
    unfolding ◌>>=◌ call
    statement-Closes r h m k hm hk = record {
      at = λ p s b.
          let (x, c) = mysql.stmt_init h s.client in
          statement-Balanced r p x m k s c (kept.stmt_init_lem h s.client) hm hk b;
    }

    result-Balanced :
        (r p : ℕ) (x : Option Rows) (m : Db mysql A) (k : Rows → Db mysql A)
        (s : Link Handle Client) (c : Client)
        → kept.ledger c ≡ stored_result x (kept.ledger s.client)
        → Closes mysql kept lost 0 r m
        → ((y : Rows) → Closes mysql kept lost 0 (suc r) (k y))
        → Balanced mysql kept 0 (p + r) s
        → let (a, s') = with_pointer x m k (record s { client = c }) in
          Balanced mysql kept 0 (p + lost a) s'
    unfolding with_pointer
    result-Balanced r p none m k s c e hm hk b = hm.at p _ (Balanced-ledger 0 _ s c e b)
    result-Balanced r p (some y) m k s c e hm hk b = (hk y).at p _ (record {
      handles = rw e b.handles;
      statements_open = rw e b.statements_open;
      results_open = rw e (omega (arith, b.results_open));
      linked = b.linked;
    })

    pub result-Closes :
        (r : ℕ) (h : Option Handle) (m : Db mysql A) (k : Rows → Db mysql A)
        → Closes mysql kept lost 0 r m
        → ((y : Rows) → Closes mysql kept lost 0 (suc r) (k y))
        → Closes mysql kept lost 0 r (call mysql (mysql.store_result h) >>= λ x. with_pointer x m k)
    unfolding ◌>>=◌ call
    result-Closes r h m k hm hk = record {
      at = λ p s b.
          let (x, c) = mysql.store_result h s.client in
          result-Balanced r p x m k s c (kept.store_result_lem h s.client) hm hk b;
    }

    pub free-Closes :
        (n r : ℕ) (x : Rows) (k : Db mysql A)
        → Closes mysql kept lost n r k
        → Closes mysql kept lost n (suc r) (effect mysql (mysql.free_result x) >> k)
    unfolding ◌>>=◌ effect
    free-Closes n r x k h = record {
      at = λ p s b.
          let e = kept.free_result_lem x s.client in
          h.at p _ (record {
            handles = rw e b.handles;
            statements_open = rw e b.statements_open;
            results_open = rw e (omega (arith, b.results_open));
            linked = b.linked;
          });
    }

    pub close-Closes :
        (r : ℕ) (x : Statement) (k : Db mysql A)
        → Closes mysql kept lost 0 r k
        → Closes mysql kept lost 1 r (effect mysql (mysql.stmt_close x) >> k)
    unfolding ◌>>=◌ effect
    close-Closes r x k h = record {
      at = λ p s b. h.at p _ (
          let e = kept.stmt_close_lem x s.client in
          record {
            handles = rw e b.handles;
            statements_open = rw e (omega (arith, b.statements_open));
            results_open = rw e b.results_open;
            linked = b.linked;
          });
    }
