-- ===== src/Examples/Logging.antt =====
-- A logger whose level is changed between two tests.
use multi_player_game.Common.{ℕ, ◌≡◌, refl, Bool, true, not, ◌&&◌, nat_beq, List, [], ◌∷◌}
use multi_player_game.Common.Text.{codes}
use multi_player_game.Common.Decimal.{decimal}
use multi_player_game.Logger.{
  debug, warn, zeros, current_timestamp, new_logger, winner, others, test_level, write_line,
  log_line, LogCall, sets_level, tests, writes, step, run,
}

abbrev date : List ℕ
date = codes "2026-01-31 09:05:00"

-- Of two messages that have passed the test, the later one gets the lock first.
abbrev calls : List LogCall
calls =
    tests (record { severity = debug; text = codes "unseen" })
    ∷ tests (record { severity = warn; text = codes "accept() failed" })
    ∷ sets_level debug
    ∷ tests (record { severity = debug; text = codes "seen" })
    ∷ writes 1 date 42
    ∷ writes 0 date 999
    ∷ []

log_test :
    (run calls new_logger).out
    ≡ codes
        "[DEBUG] 2026-01-31 09:05:00.042 | seen\n[WARN ] 2026-01-31 09:05:00.999 | accept() failed\n"
unfolding run step test_level write_line winner others log_line current_timestamp zeros decimal
log_test = refl

one_line : List ℕ → Bool
one_line [] = true
one_line (c ∷ cs) = not (nat_beq c 10) && one_line cs
