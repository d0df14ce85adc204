-- ===== src/ThreadPool/Shutdown/Hangs.antt =====
-- When `stop` does not return: a worker that the notification misses sleeps on.
use multi_player_game.Common.{ℕ, Bool, true, false, ◌||◌, List, [], ◌∷◌}
use multi_player_game.ThreadPool.{Worker, ThreadPool, Act, wakes}
use multi_player_game.ThreadPool.Shutdown.Progress.{is_awake}
use multi_player_game.Common.{not}

-- Whether a worker is asleep or on its way to it.
unfoldable sleeps : List Worker → Bool
sleeps [] = false
sleeps (w ∷ ws) = not (is_awake w) || sleeps ws

-- Nobody wakes up spuriously.
unfoldable pub calm : List (Act × ℕ) → Bool
calm [] = true
calm ((wakes, i) ∷ turns) = false
calm (_ ∷ turns) = calm turns
