-- ===== src/Simulator/Settings.antt =====
-- The arguments of simulator/src/main.cpp: what they ask for is what the parsing gives.
use multi_player_game.Common.{
  ℕ, ◌<◌, ◌^◌, ◌≡◌, false, List, [], ◌∷◌, Option, none, some, if◌then◌else◌,
}
use multi_player_game.Common.Int.{pos, IsInt}
use multi_player_game.Common.Text.{codes}
use multi_player_game.Common.Bytes.{bytes_beq}
use multi_player_game.Common.Decimal.{decimal, decimal_int}
use multi_player_game.Options.{atoi, to_u16, Parsed, started, parse_all, port_lem, number_lem}
use multi_player_game.PlayerBot.{SimulatorConfig}

-- `config` and `jsonOutputFile`.
pub record Settings : Type 0 where
  pub config : SimulatorConfig
  pub json_output_file : List ℕ

abbrev pub default_settings : Settings
default_settings = record {
  config = record {
    host = codes "127.0.0.1";
    port = 7777;
    player_count = pos 50;
    duration_seconds = pos 10;
    base_player_id = pos 1000;
    action_interval_ms = pos 50;
    seed = pos 42;
    debug = false;
  };
  json_output_file = [];
}

unfoldable pub set_option : List ℕ → List ℕ → Settings → Option Settings
unfolding atoi to_u16
set_option arg value s =
    let c = s.config in
    if bytes_beq arg (codes "--host")
    then some (record s { config = record c { host = value } })
    else if bytes_beq arg (codes "--port")
    then some (record s { config = record c { port = to_u16 (atoi value) } })
    else if bytes_beq arg (codes "--players")
    then some (record s { config = record c { player_count = atoi value } })
    else if bytes_beq arg (codes "--duration")
    then some (record s { config = record c { duration_seconds = atoi value } })
    else if bytes_beq arg (codes "--interval")
    then some (record s { config = record c { action_interval_ms = atoi value } })
    else if bytes_beq arg (codes "--base-id")
    then some (record s { config = record c { base_player_id = atoi value } })
    else if bytes_beq arg (codes "--seed")
    then some (record s { config = record c { seed = atoi value } })
    else if bytes_beq arg (codes "--json-out")
    then some (record s { json_output_file = value })
    else none

-- No option stands alone.
unfoldable pub parse_settings : List (List ℕ) → Settings → Parsed Settings
unfolding parse_all set_option
parse_settings = parse_all (λ arg s. none) set_option

-- The arguments that ask for s.
pub settings_arguments : Settings → List (List ℕ)
settings_arguments s =
    codes "--host"
    ∷ s.config.host
    ∷ codes "--port"
    ∷ decimal s.config.port
    ∷ codes "--players"
    ∷ decimal_int s.config.player_count
    ∷ codes "--duration"
    ∷ decimal_int s.config.duration_seconds
    ∷ codes "--interval"
    ∷ decimal_int s.config.action_interval_ms
    ∷ codes "--base-id"
    ∷ decimal_int s.config.base_player_id
    ∷ codes "--seed"
    ∷ decimal_int s.config.seed
    ∷ codes "--json-out"
    ∷ s.json_output_file
    ∷ []

-- The numbers fit their types.
pub record AreSettings (c : SimulatorConfig) : Type 0 where
  pub small_port : c.port < 2 ^ 16
  pub int_players : IsInt c.player_count
  pub int_duration : IsInt c.duration_seconds
  pub int_interval : IsInt c.action_interval_ms
  pub int_base_id : IsInt c.base_player_id
  pub int_seed : IsInt c.seed

-- Arguments that ask for settings are parsed to them, whatever bytes the host and the file name hold
-- and from any settings t; `debug`, which has no option, stays as in t.
pub parse_settings-settings_arguments :
    (s t : Settings)
    → AreSettings s.config
    → parse_settings (settings_arguments s) t
      ≡ started (record s { config = record s.config { debug = t.config.debug } })
unfolding parse_settings settings_arguments
parse_settings-settings_arguments s t h = rw (
  port_lem s.config.port h.small_port,
  number_lem s.config.player_count h.int_players,
  number_lem s.config.duration_seconds h.int_duration,
  number_lem s.config.action_interval_ms h.int_interval,
  number_lem s.config.base_player_id h.int_base_id,
  number_lem s.config.seed h.int_seed,
)
