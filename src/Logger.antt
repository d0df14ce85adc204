-- ===== src/Logger.antt =====
-- server/include/server/Logger.h and server/src/Logger.cpp.
--
-- The text of a local time to the second, which put_time gives, is an argument, and so are the
-- milliseconds. std::cout is the bytes written to it. `log` is two steps, with anything of other
-- threads between them: the test of the level, which takes no lock, and the writing of the line under
-- the lock. A message that has passed the test waits for the lock.
pub mod Reading
use multi_player_game.Common.{
  ℕ, zero, suc, ◌-◌, Bool, List, [], ◌∷◌, ◌++◌, Option, none, some, leb, if◌then◌else◌, length,
}
use multi_player_game.Common.Text.{codes}
use multi_player_game.Common.Decimal.{decimal}

pub data LogLevel : Type 0 where
  debug : LogLevel
  info : LogLevel
  warn : LogLevel
  error : LogLevel

abbrev pub level_number : LogLevel → ℕ
level_number debug = 0
level_number info = 1
level_number warn = 2
level_number error = 3

abbrev pub level_to_string : LogLevel → List ℕ
level_to_string debug = codes "DEBUG"
level_to_string info = codes "INFO "
level_to_string warn = codes "WARN "
level_to_string error = codes "ERROR"

-- `std::setw(3) << std::setfill('0')`
unfoldable pub zeros : ℕ → List ℕ
zeros zero = []
zeros (suc n) = b'0' ∷ zeros n

unfoldable pub current_timestamp : List ℕ → ℕ → List ℕ
unfolding zeros
current_timestamp date ms = date ++ b'.' ∷ (zeros (3 - length (decimal ms)) ++ decimal ms)

-- A message on its way.
pub record Message : Type 0 where
  pub severity : LogLevel
  pub text : List ℕ

-- `s_level`, the messages that wait for the lock, and what was written.
pub record Logger : Type 0 where
  pub level : LogLevel
  pub waiting : List Message
  pub out : List ℕ

abbrev pub new_logger : Logger
new_logger = record { level = info; waiting = []; out = [] }

abbrev pub set_level : LogLevel → Logger → Logger
set_level level l = record l { level = level }

-- `static_cast<int>(level) < s_level.load()` does not hold.
abbrev pub passes : LogLevel → LogLevel → Bool
passes level current = leb (level_number current) (level_number level)

-- The messages that wait, after the test of another.
abbrev pub queued : LogLevel → Message → List Message → List Message
queued current m waiting = if passes m.severity current then waiting ++ m ∷ [] else waiting

-- The message that gets the lock, by its place among those that wait, and the others.
unfoldable pub winner : ℕ → List Message → Option Message
winner i [] = none
winner zero (m ∷ ms) = some m
winner (suc i) (m ∷ ms) = winner i ms

unfoldable pub others : ℕ → List Message → List Message
others i [] = []
others zero (m ∷ ms) = ms
others (suc i) (m ∷ ms) = m ∷ others i ms

unfoldable pub log_line : LogLevel → List ℕ → ℕ → List ℕ → List ℕ
unfolding current_timestamp
log_line level date ms msg =
    b'['
    ∷ (level_to_string level ++ b']' ∷ b' ' ∷ (current_timestamp date ms ++ codes " | " ++ msg))

-- The test of the level by a call of `log`.
unfoldable pub test_level : Message → Logger → Logger
test_level m l = record l { waiting = queued l.level m l.waiting }

-- The critical section of a call of `log`, by its message's place among those that wait.
unfoldable pub write_line : ℕ → List ℕ → ℕ → Logger → Logger
unfolding winner others log_line
write_line i date ms l = elim (winner i l.waiting) [
  | none ↦ l
  | some m ↦ record l {
    waiting = others i l.waiting;
    out = l.out ++ log_line m.severity date ms m.text ++ 10 ∷ [];
  }
]

-- The steps of any threads: a message is tested, or gets the lock, in whatever order.
pub data LogCall : Type 0 where
  sets_level : LogLevel → LogCall
  tests : Message → LogCall
  writes : ℕ → List ℕ → ℕ → LogCall

unfoldable pub step : LogCall → Logger → Logger
unfolding test_level write_line
step (sets_level level) l = set_level level l
step (tests m) l = test_level m l
step (writes i date ms) l = write_line i date ms l

unfoldable pub run : List LogCall → Logger → Logger
unfolding step
run [] l = l
run (c ∷ cs) l = run cs (step c l)
