-- ===== src/DatabaseManager.antt =====
-- server/include/server/DatabaseManager.h and server/src/DatabaseManager.cpp: the connection to
-- MySQL.
--
-- A method runs as one step, with the lock that `open` and the method's body take one after the
-- other. What a method counts in the metrics registry is appended to `counted`.
pub mod Records
pub mod Statements
pub mod Schema
pub mod Requests
pub mod Leaks
pub mod Splitting
pub mod Accounts
use multi_player_game.Common.{
  ℕ, String, Bool, true, false, not, ◌&&◌, ◌≡◌, List, [], ◌∷◌, ◌++◌, Option, none, some,
  if◌then◌else◌,
}
use multi_player_game.Common.Int.{ℤ}
use multi_player_game.Common.Actions.{Action, pure, gets, modify, ◌>>=◌, ◌>>◌}
use multi_player_game.Backends.{Count}
use multi_player_game.MySql.{MySqlApi, connect_timeout, reconnect}

pub record DatabaseManager (Handle : Type 0) : Type 0 where
  pub host : String
  pub port : ℤ
  pub user : String
  pub password : String
  pub database : String
  pub conn : Option Handle
  pub connected : Bool

unfoldable pub create : {H : Type 0} → String → ℤ → String → String → String → DatabaseManager H
create host port user password database = record {
  host = host;
  port = port;
  user = user;
  password = password;
  database = database;
  conn = none;
  connected = false;
}

-- The object, the library, and what was counted.
pub record Link (H C : Type 0) : Type 0 where
  pub manager : DatabaseManager H
  pub client : C
  pub counted : List Count

abbrev pub is_some : {A : Type 0} → Option A → Bool
is_some none = false
is_some (some a) = true

-- `if (!p) { failed }`, and else the rest with what p points to.
unfoldable pub with_pointer :
    {S P A : Type 0} → Option P → Action S A → (P → Action S A) → Action S A
with_pointer none failed k = failed
with_pointer (some p) failed k = k p

module _ {Double : Type 0} (mysql : MySqlApi Double) where
  open mysql use {Handle, Client}

  abbrev pub Db : Type 0 → Type 0
  Db A = Action (Link Handle Client) A

  -- A call of the library that returns something, and one that does not.
  unfoldable pub call : {A : Type 0} → Action Client A → Db A
  call f s = let (a, client) = f s.client in (a, record s { client = client })

  unfoldable pub effect : (Client → Client) → Db (Unit {0})
  effect f s = (tt, record s { client = f s.client })

  -- `recordDatabaseOperation`
  unfoldable pub count : Count → Db (Unit {0})
  count c s = (tt, record s { counted = s.counted ++ c ∷ [] })

  unfoldable pub get_conn : Db (Option Handle)
  get_conn s = (s.manager.conn, s)

  unfoldable pub set_conn : Option Handle → Db (Unit {0})
  set_conn conn s = (tt, record s { manager = record s.manager { conn = conn } })

  unfoldable pub set_connected : Bool → Db (Unit {0})
  set_connected connected s =
      (tt, record s { manager = record s.manager { connected = connected } })

  -- `if (m_conn) { mysql_close(m_conn); m_conn = nullptr; }`
  unfoldable pub close_conn : Db (Unit {0})
  unfolding ◌>>=◌ pure effect get_conn set_conn with_pointer
  close_conn = do
    conn ← get_conn
    with_pointer conn (pure tt) (λ h. effect (mysql.close (some h)) >> set_conn none)

  -- `m_connected && m_conn && mysql_ping(m_conn) == 0`
  unfoldable pub is_alive : Db Bool
  unfolding ◌>>=◌ pure gets call
  is_alive = do
    manager ← gets (λ s. s.manager)
    if manager.connected && is_some manager.conn then call (mysql.ping manager.conn) else pure false

  -- The handle h that `mysql_init` gave is connected, or closed again.
  unfoldable pub link : Handle → Db Bool
  unfolding ◌>>=◌ pure gets call effect set_conn set_connected
  link h = do
    effect (mysql.options (some h) (connect_timeout 3))
    effect (mysql.options (some h) (reconnect true))
    m ← gets (λ s. s.manager)
    linked ← call (mysql.real_connect (some h) m.host m.user m.password m.database m.port)
    if linked
        then (set_connected true >> pure true)
        else (do effect (mysql.close (some h)); set_conn none; set_connected false; pure false)

  unfoldable pub open_new : Db Bool
  unfolding ◌>>=◌ pure call set_conn set_connected with_pointer close_conn link
  open_new = do
    close_conn
    conn ← call mysql.init
    set_conn conn
    with_pointer conn (set_connected false >> pure false) link

  -- `open`
  unfoldable pub open_connection : Db Bool
  unfolding ◌>>=◌ pure is_alive open_new
  open_connection = do alive ← is_alive; if alive then pure true else open_new

  -- `close`, and the destructor.
  unfoldable pub close : Db (Unit {0})
  unfolding ◌>>=◌ close_conn set_connected
  close = close_conn >> set_connected false
