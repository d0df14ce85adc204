-- ===== src/Arguments/RoundTrip.antt =====
-- A configuration, written as arguments, is what the parsing gives back.
use multi_player_game.Common.{
  ℕ, ◌<◌, ◌^◌, ◌≡◌, refl, Bool, true, false, ◌||◌, List, [], ◌∷◌, ◌++◌, if◌then◌else◌,
}
use multi_player_game.Common.Int.{IsInt}
use multi_player_game.Common.Text.{codes}
use multi_player_game.Common.Decimal.{decimal, decimal_int}
use multi_player_game.Options.{port_lem, number_lem, started}
use multi_player_game.Arguments.{ServerConfig, set_flag, set_option, parse_args}

-- The arguments that ask for c.
pub arguments_of : ServerConfig → List (List ℕ)
arguments_of c =
    codes "--port"
    ∷ decimal c.port
    ∷ codes "--host"
    ∷ c.host
    ∷ codes "--threads"
    ∷ decimal_int c.thread_pool_size
    ∷ codes "--redis-host"
    ∷ c.redis_host
    ∷ codes "--redis-port"
    ∷ decimal_int c.redis_port
    ∷ codes "--db-host"
    ∷ c.db_host
    ∷ codes "--db-port"
    ∷ decimal_int c.db_port
    ∷ codes "--db-user"
    ∷ c.db_user
    ∷ codes "--db-pass"
    ∷ c.db_pass
    ∷ codes "--db-name"
    ∷ c.db_name
    ∷ codes "--metrics-port"
    ∷ decimal c.metrics_port
    ∷ ((if c.enable_redis then codes "--enable-redis" ∷ [] else [])
        ++ (if c.debug then codes "--debug" ∷ [] else []))

-- The numbers fit their types.
pub record IsConfig (c : ServerConfig) : Type 0 where
  pub small_port : c.port < 2 ^ 16
  pub small_metrics_port : c.metrics_port < 2 ^ 16
  pub int_threads : IsInt c.thread_pool_size
  pub int_redis_port : IsInt c.redis_port
  pub int_db_port : IsInt c.db_port

flags_lem :
    (redis debug : Bool) (c : ServerConfig)
    → parse_args
        ((if redis then codes "--enable-redis" ∷ [] else [])
          ++ (if debug then codes "--debug" ∷ [] else []))
        c
      ≡ started (record c { enable_redis = redis || c.enable_redis; debug = debug || c.debug })
unfolding parse_args set_flag set_option
flags_lem true true c = refl
flags_lem true false c = refl
flags_lem false true c = refl
flags_lem false false c = refl

-- Arguments that ask for a configuration are parsed to it, whatever bytes its names hold and from any
-- configuration d: what has no option (backlog and max_clients) stays as in d, and a flag that is set
-- in d stays set.
pub parse_args-arguments_of :
    (c d : ServerConfig)
    → IsConfig c
    → parse_args (arguments_of c) d
      ≡ started (record c {
        backlog = d.backlog;
        max_clients = d.max_clients;
        enable_redis = c.enable_redis || d.enable_redis;
        debug = c.debug || d.debug;
      })
unfolding parse_args set_flag set_option arguments_of
parse_args-arguments_of c d h =
    rw
      (
        port_lem c.port h.small_port,
        number_lem c.thread_pool_size h.int_threads,
        number_lem c.redis_port h.int_redis_port,
        number_lem c.db_port h.int_db_port,
        port_lem c.metrics_port h.small_metrics_port,
      )
      (flags_lem c.enable_redis c.debug _)
