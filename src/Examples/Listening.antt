-- ===== src/Examples/Listening.antt =====
-- An HTTP request, and a system on which one socket can listen.
use multi_player_game.Common.{ℕ, ◌+◌, ◌≡◌, refl, true, false, List, some, leb}
use multi_player_game.Common.Int.{pos}
use multi_player_game.Common.Text.{codes}
use multi_player_game.HttpMetricsServer.{respond}
use multi_player_game.HttpMetricsServer.Response.{read_response, page, respond_readable}
use multi_player_game.Listener.{
  ListenApi, HasTally, abandon, bind_and_listen, setup_listen_socket, start, close_fd, http_stop,
  server_stop,
}
use multi_player_game.Server.Lifecycle.{
  begin, stop_http, stop, destroy, life, Begun, Over, server_life,
}

abbrev request : List ℕ
request = codes "GET /health HTTP/1.1"

respond_readable_example :
    read_response 4 (respond request (codes "requests_total 7"))
    ≡ some (page request (codes "requests_total 7"))
respond_readable_example = respond_readable 0 request (codes "requests_total 7")

-- How many sockets were opened, and how many were closed; the first five and the next can listen.
abbrev sockets : ListenApi
sockets = record {
  Os = ℕ × ℕ;
  socket = λ (opened, closed). (some opened, (opened + 1, closed));
  reuse_address = λ fd o. o;
  is_address = λ a. false;
  bind = λ fd a p o. (true, o);
  listen = λ fd b o. (leb fd 5, o);
  shutdown = λ fd o. o;
  close = λ fd (opened, closed). (opened, closed + 1);
}

abbrev counted : HasTally sockets
counted = record {
  opened = λ o. o.0;
  closed = λ o. o.1;
  opened-socket = λ o. refl;
  closed-socket = λ o. refl;
  same-reuse_address = λ fd o. (refl, refl);
  same-bind = λ fd a p o. (refl, refl);
  same-listen = λ fd b o. (refl, refl);
  same-shutdown = λ fd o. (refl, refl);
  one-close = λ fd o. (refl, refl);
}

-- The game server can listen, and the metrics server cannot.
server_life_example :
    Begun sockets counted (begin sockets 7777 (pos 128) 9100 (5, 5))
    × Over sockets counted (life sockets 7777 (pos 128) 9100 (5, 5))
server_life_example = server_life sockets counted 7777 (pos 128) 9100 (5, 5) refl

both_tried : (life sockets 7777 (pos 128) 9100 (5, 5)).os ≡ (7, 7)
unfolding life begin stop destroy stop_http setup_listen_socket start bind_and_listen abandon
    http_stop server_stop close_fd
both_tried = refl
