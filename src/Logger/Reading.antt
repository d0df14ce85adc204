-- ===== src/Logger/Reading.antt =====
-- The log as its reader sees it.
use multi_player_game.Common.{
  ℕ, ◌<◌, ◌≡◌, ◌≢◌, List, [], ◌∷◌, ◌++◌, Option, none, some, nat_beq, length, take, drop,
  if◌then◌else◌,
}
use multi_player_game.Logger.{
  LogLevel, debug, info, warn, error, current_timestamp, Message, Logger, queued, winner, others,
  log_line, LogCall, sets_level, tests, writes,
}

-- The lines that end in a newline.
pub lines : List ℕ → List ℕ → List (List ℕ)
lines acc [] = []
lines acc (c ∷ cs) =
    let next = lines [] cs in
    let more = lines (acc ++ c ∷ []) cs in if nat_beq c 10 then acc ∷ next else more

-- The level that a letter stands for.
pub level_of : ℕ → Option LogLevel
level_of c =
    if nat_beq c b'D'
    then some debug
    else if nat_beq c b'I'
    then some info
    else if nat_beq c b'W'
    then some warn
    else if nat_beq c b'E'
    then some error
    else none

-- The level, the time and the message, each by its place in the line.
abbrev pub Entry : Type 0
Entry = Option LogLevel × List ℕ × List ℕ

pub read_entry : List ℕ → Entry
read_entry [] = (none, [], [])
read_entry (b ∷ []) = (none, [], [])
read_entry (b ∷ c ∷ cs) = (level_of c, take 23 (drop 6 cs), drop 32 cs)

pub read_entries : List (List ℕ) → List Entry
read_entries [] = []
read_entries (l ∷ ls) = read_entry l ∷ read_entries ls

-- The messages that are written, in order, from those that wait and those whose level was at least
-- the one that was set at their test.
pub kept : LogLevel → List Message → List LogCall → List Entry
kept current waiting [] = []
kept current waiting (sets_level level ∷ cs) = kept level waiting cs
kept current waiting (tests m ∷ cs) = kept current (queued current m waiting) cs
kept current waiting (writes i date ms ∷ cs) = elim (winner i waiting) [
  | none ↦ kept current waiting cs
  | some m ↦
      (some m.severity, current_timestamp date ms, m.text) ∷ kept current (others i waiting) cs
]

abbrev pub NoNewline : List ℕ → Type 0
NoNewline [] = Unit {0}
NoNewline (c ∷ cs) = (c ≢ 10) × NoNewline cs

-- A date takes 19 bytes, milliseconds are below 1000, and nothing holds a newline.
abbrev pub IsPlain : List LogCall → Type 0
IsPlain [] = Unit {0}
IsPlain (sets_level level ∷ cs) = IsPlain cs
IsPlain (tests m ∷ cs) = NoNewline m.text × IsPlain cs
IsPlain (writes i date ms ∷ cs) = (length date ≡ 19) × NoNewline date × (ms < 1000) × IsPlain cs

-- So are the messages that wait.
abbrev AllPlain : List Message → Type 0
AllPlain [] = Unit {0}
AllPlain (m ∷ ms) = NoNewline m.text × AllPlain ms

abbrev OnePlain : Option Message → Type 0
OnePlain none = Unit {0}
OnePlain (some m) = NoNewline m.text

-- What the calls write.
written : LogLevel → List Message → List LogCall → List ℕ
written current waiting [] = []
written current waiting (sets_level level ∷ cs) = written level waiting cs
written current waiting (tests m ∷ cs) = written current (queued current m waiting) cs
written current waiting (writes i date ms ∷ cs) = elim (winner i waiting) [
  | none ↦ written current waiting cs
  | some m ↦ log_line m.severity date ms m.text ++ 10 ∷ written current (others i waiting) cs
]
