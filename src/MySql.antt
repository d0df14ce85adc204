-- ===== src/MySql.antt =====
-- What server/src/DatabaseManager.cpp uses of the MySQL client library, as an interface, and the
-- ledger of what it opens and closes.
--
-- `Client` is the state of the library and of the server behind it. A pointer that may be null is an
-- Option. A call that returns 0 where it succeeds gives `true` there.
use multi_player_game.Common.{ℕ, ◌+◌, ◌≡◌, String, Bool, List, [], ◌∷◌, ◌++◌, Option, none, some}
use multi_player_game.Common.Int.{ℤ}
use multi_player_game.Common.Actions.{Action}

-- A bound parameter, and a bound column of the result with the size of its buffer.
pub data Param (Double : Type 0) : Type 0 where
  long : ℤ → Param Double
  text : String → Param Double
  double : Double → Param Double

pub data Column : Type 0 where
  long_column : Column
  text_column : ℕ → Column

-- What a fetch writes to a column's buffer; nothing for NULL.
pub data Cell : Type 0 where
  long_cell : ℤ → Cell
  text_cell : String → Cell
  null_cell : Cell

pub data ConnectOption : Type 0 where
  connect_timeout : ℕ → ConnectOption
  reconnect : Bool → ConnectOption

pub record MySqlApi (Double : Type 0) : Type 1 where
  pub Client : Type 0
  pub Handle : Type 0
  pub Statement : Type 0
  pub Rows : Type 0
  pub init : Action Client (Option Handle)
  pub options : Option Handle → ConnectOption → Client → Client
  pub real_connect : Option Handle → String → String → String → String → ℤ → Action Client Bool
  pub ping : Option Handle → Action Client Bool
  pub close : Option Handle → Client → Client
  pub query : Option Handle → List ℕ → Action Client Bool
  pub store_result : Option Handle → Action Client (Option Rows)
  -- The text in the first column of the next row, if there are both.
  pub fetch_row : Rows → Action Client (Option (List ℕ))
  pub free_result : Rows → Client → Client
  pub stmt_init : Option Handle → Action Client (Option Statement)
  pub stmt_prepare : Statement → List ℕ → Action Client Bool
  pub stmt_bind_param : Statement → List (Param Double) → Action Client Bool
  pub stmt_execute : Statement → Action Client Bool
  pub stmt_bind_result : Statement → List Column → Action Client Bool
  -- The cells, where a whole row was fetched.
  pub stmt_fetch : Statement → Action Client (Option (List Cell))
  pub stmt_close : Statement → Client → Client

-- What has been opened and closed so far, and the queries so far, in order.
pub record Ledger : Type 0 where
  pub handles_opened : ℕ
  pub handles_closed : ℕ
  pub statements_opened : ℕ
  pub statements_closed : ℕ
  pub results_stored : ℕ
  pub results_freed : ℕ
  pub queries : List (List ℕ)

abbrev pub opened_handle : {H : Type 0} → Option H → Ledger → Ledger
opened_handle none l = l
opened_handle (some h) l = record l { handles_opened = l.handles_opened + 1 }

abbrev pub opened_statement : {H : Type 0} → Option H → Ledger → Ledger
opened_statement none l = l
opened_statement (some h) l = record l { statements_opened = l.statements_opened + 1 }

abbrev pub stored_result : {H : Type 0} → Option H → Ledger → Ledger
stored_result none l = l
stored_result (some h) l = record l { results_stored = l.results_stored + 1 }

-- The ledger that a caller could keep beside the library, from what each call returns.
pub record HasLedger {Double : Type 0} (mysql : MySqlApi Double) : Type 0 where
  pub ledger : mysql.Client → Ledger
  pub init_lem :
      (c : mysql.Client) → ledger (mysql.init c).1 ≡ opened_handle (mysql.init c).0 (ledger c)
  pub options_lem :
      (h : Option mysql.Handle) (o : ConnectOption) (c : mysql.Client)
      → ledger (mysql.options h o c) ≡ ledger c
  pub real_connect_lem :
      (h : Option mysql.Handle) (host user password database : String) (port : ℤ) (c : mysql.Client)
      → ledger (mysql.real_connect h host user password database port c).1 ≡ ledger c
  pub ping_lem : (h : Option mysql.Handle) (c : mysql.Client) → ledger (mysql.ping h c).1 ≡ ledger c
  pub close_lem :
      (h : mysql.Handle) (c : mysql.Client)
      → ledger (mysql.close (some h) c)
        ≡ record (ledger c) { handles_closed = (ledger c).handles_closed + 1 }
  pub query_lem :
      (h : Option mysql.Handle) (q : List ℕ) (c : mysql.Client)
      → ledger (mysql.query h q c).1 ≡ record (ledger c) { queries = (ledger c).queries ++ q ∷ [] }
  pub store_result_lem :
      (h : Option mysql.Handle) (c : mysql.Client)
      → ledger (mysql.store_result h c).1 ≡ stored_result (mysql.store_result h c).0 (ledger c)
  pub fetch_row_lem :
      (r : mysql.Rows) (c : mysql.Client) → ledger (mysql.fetch_row r c).1 ≡ ledger c
  pub free_result_lem :
      (r : mysql.Rows) (c : mysql.Client)
      → ledger (mysql.free_result r c)
        ≡ record (ledger c) { results_freed = (ledger c).results_freed + 1 }
  pub stmt_init_lem :
      (h : Option mysql.Handle) (c : mysql.Client)
      → ledger (mysql.stmt_init h c).1 ≡ opened_statement (mysql.stmt_init h c).0 (ledger c)
  pub stmt_prepare_lem :
      (s : mysql.Statement) (q : List ℕ) (c : mysql.Client)
      → ledger (mysql.stmt_prepare s q c).1 ≡ ledger c
  pub stmt_bind_param_lem :
      (s : mysql.Statement) (ps : List (Param Double)) (c : mysql.Client)
      → ledger (mysql.stmt_bind_param s ps c).1 ≡ ledger c
  pub stmt_execute_lem :
      (s : mysql.Statement) (c : mysql.Client) → ledger (mysql.stmt_execute s c).1 ≡ ledger c
  pub stmt_bind_result_lem :
      (s : mysql.Statement) (cs : List Column) (c : mysql.Client)
      → ledger (mysql.stmt_bind_result s cs c).1 ≡ ledger c
  pub stmt_fetch_lem :
      (s : mysql.Statement) (c : mysql.Client) → ledger (mysql.stmt_fetch s c).1 ≡ ledger c
  pub stmt_close_lem :
      (s : mysql.Statement) (c : mysql.Client)
      → ledger (mysql.stmt_close s c)
        ≡ record (ledger c) { statements_closed = (ledger c).statements_closed + 1 }
