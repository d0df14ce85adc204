-- ===== src/Arguments.antt =====
-- ServerConfig of server/include/server/Server.h, and the parsing of the arguments in `main` of
-- server/src/main.cpp.
--
-- Arguments and host names are bytes.
pub mod RoundTrip
use multi_player_game.Common.{ℕ, Bool, true, false, List, Option, none, some, if◌then◌else◌}
use multi_player_game.Common.Int.{ℤ, pos}
use multi_player_game.Common.Text.{codes}
use multi_player_game.Common.Bytes.{bytes_beq}
use multi_player_game.Options.{atoi, to_u16, Parsed, parse_all}

-- `debug` is whether Logger::setLevel was called.
pub record ServerConfig : Type 0 where
  pub host : List ℕ
  pub port : ℕ
  pub metrics_port : ℕ
  pub backlog : ℤ
  pub max_clients : ℤ
  pub thread_pool_size : ℤ
  pub enable_redis : Bool
  pub redis_host : List ℕ
  pub redis_port : ℤ
  pub db_host : List ℕ
  pub db_port : ℤ
  pub db_user : List ℕ
  pub db_pass : List ℕ
  pub db_name : List ℕ
  pub debug : Bool

abbrev pub default_config : ServerConfig
default_config = record {
  host = codes "0.0.0.0";
  port = 7777;
  metrics_port = 9100;
  backlog = pos 128;
  max_clients = pos 4096;
  thread_pool_size = pos 0;
  enable_redis = false;
  redis_host = codes "127.0.0.1";
  redis_port = pos 6379;
  db_host = codes "127.0.0.1";
  db_port = pos 3306;
  db_user = codes "game_user";
  db_pass = codes "game_pass";
  db_name = codes "game_server";
  debug = false;
}

-- An option that stands alone.
unfoldable pub set_flag : List ℕ → ServerConfig → Option ServerConfig
set_flag arg c =
    if bytes_beq arg (codes "--debug")
    then some (record c { debug = true })
    else if bytes_beq arg (codes "--enable-redis")
    then some (record c { enable_redis = true })
    else none

-- An option with a value.
unfoldable pub set_option : List ℕ → List ℕ → ServerConfig → Option ServerConfig
unfolding atoi to_u16
set_option arg value c =
    if bytes_beq arg (codes "--port")
    then some (record c { port = to_u16 (atoi value) })
    else if bytes_beq arg (codes "--host")
    then some (record c { host = value })
    else if bytes_beq arg (codes "--threads")
    then some (record c { thread_pool_size = atoi value })
    else if bytes_beq arg (codes "--redis-host")
    then some (record c { redis_host = value })
    else if bytes_beq arg (codes "--redis-port")
    then some (record c { redis_port = atoi value })
    else if bytes_beq arg (codes "--db-host")
    then some (record c { db_host = value })
    else if bytes_beq arg (codes "--db-port")
    then some (record c { db_port = atoi value })
    else if bytes_beq arg (codes "--db-user")
    then some (record c { db_user = value })
    else if bytes_beq arg (codes "--db-pass")
    then some (record c { db_pass = value })
    else if bytes_beq arg (codes "--db-name")
    then some (record c { db_name = value })
    else if bytes_beq arg (codes "--metrics-port")
    then some (record c { metrics_port = to_u16 (atoi value) })
    else none

-- The loop over the arguments.
unfoldable pub parse_args : List (List ℕ) → ServerConfig → Parsed ServerConfig
unfolding parse_all set_flag set_option
parse_args = parse_all set_flag set_option
