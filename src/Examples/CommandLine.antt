-- ===== src/Examples/CommandLine.antt =====
-- The arguments of a server and of a simulator, parsed.
use multi_player_game.Common.{◌≡◌, true, false, ◌||◌, arith}
use multi_player_game.Common.Int.{pos, negsuc}
use multi_player_game.Common.Text.{codes}
use multi_player_game.Options.{started}
use multi_player_game.Arguments.{ServerConfig, default_config, parse_args}
use multi_player_game.Arguments.RoundTrip.{arguments_of, parse_args-arguments_of}
use multi_player_game.Simulator.Settings.{
  Settings, default_settings, parse_settings, settings_arguments, parse_settings-settings_arguments,
}

abbrev production : ServerConfig
production = record default_config {
  port = 8000;
  thread_pool_size = pos 16;
  enable_redis = true;
  redis_host = codes "10.0.0.2";
  db_pass = codes "--help";
}

parse_args-arguments_of_example :
    parse_args (arguments_of production) default_config
    ≡ started (record production {
      backlog = default_config.backlog;
      max_clients = default_config.max_clients;
      enable_redis = true || false;
      debug = false || false;
    })
parse_args-arguments_of_example = parse_args-arguments_of production default_config (record {
  small_port = omega arith;
  small_metrics_port = omega arith;
  int_threads = (omega arith, omega arith);
  int_redis_port = (omega arith, omega arith);
  int_db_port = (omega arith, omega arith);
})

abbrev load_test : Settings
load_test = record default_settings {
  config = record default_settings.config { port = 8000; player_count = pos 500; seed = negsuc 0 };
  json_output_file = codes "--seed";
}

parse_settings-settings_arguments_example :
    parse_settings (settings_arguments load_test) default_settings ≡ started load_test
parse_settings-settings_arguments_example =
    parse_settings-settings_arguments load_test default_settings (record {
      small_port = omega arith;
      int_players = (omega arith, omega arith);
      int_duration = (omega arith, omega arith);
      int_interval = (omega arith, omega arith);
      int_base_id = (omega arith, omega arith);
      int_seed = (omega arith, omega arith);
    })
