-- ===== src/DatabaseManager/Leaks.antt =====
-- What is opened is closed: handles, statements and results.
pub mod Rules
pub mod Opening
pub mod Closing
pub mod Traffic
use multi_player_game.Common.{ℕ, ◌+◌, ◌≡◌, Bool, true, false, Option, none, some}
use multi_player_game.Common.Actions.{Action}
use multi_player_game.MySql.{MySqlApi, HasLedger}
use multi_player_game.DatabaseManager.{Link, Db, is_some}

abbrev pub held : {A : Type 0} → Option A → ℕ
held none = 0
held (some a) = 1

module _ {Double : Type 0} (mysql : MySqlApi Double) (kept : HasLedger mysql) where
  open mysql use {Handle, Client}

  -- So many statements and so many results are open, and the handle that `conn` points to.
  pub record Balanced (statements results : ℕ) (s : Link Handle Client) : Type 0 where
    pub handles :
        (kept.ledger s.client).handles_opened
        ≡ (kept.ledger s.client).handles_closed + held s.manager.conn
    pub statements_open :
        (kept.ledger s.client).statements_opened
        ≡ (kept.ledger s.client).statements_closed + statements
    pub results_open :
        (kept.ledger s.client).results_stored ≡ (kept.ledger s.client).results_freed + results
    pub linked : s.manager.connected ≡ is_some s.manager.conn

  -- Started with so many statements and results open, m ends with no statement open, and with those
  -- results that its answer says are lost.
  pub record Closes {A : Type 0} (lost : A → ℕ) (statements results : ℕ) (m : Db mysql A)
      : Type 0 where
    pub at :
        (r : ℕ) (s : Link Handle Client)
        → Balanced statements (r + results) s
        → Balanced 0 (r + lost (m s).0) (m s).1

  -- A call that opens and closes nothing.
  pub record IsNeutral {A : Type 0} (f : Action Client A) : Type 0 where
    pub same : (c : Client) → kept.ledger (f c).1 ≡ kept.ledger c
