-- ===== src/Examples/Wire.antt =====
-- Frames, a socket that moves one byte at a time, and sessions over it.
use multi_player_game.Common.{
  ℕ, zero, suc, ◌+◌, ◌≤◌, ◌<◌, ◌≡◌, refl, ◌≢◌, if◌then◌else◌, ltb, List, [], ◌∷◌, ◌++◌, Option,
  none, some, arith, length, take,
}
use multi_player_game.Common.Int.{pos}
use multi_player_game.Socket.{SocketApi, IsReliable}
use multi_player_game.MessageFramer.{max_message_size, encode, decoded, too_large, decode}
use multi_player_game.MessageFramer.RoundTrip.{decode-encode, decode_sound}
use multi_player_game.MessageFramer.Stream.{
  read_exact, write_all, Reads, Writes, read_exact-Reads, write_all-Writes,
}
use multi_player_game.ConnectionManager.{init}
use multi_player_game.Server.{State, session_loop, handle_client}
use multi_player_game.Server.Session.{handle_client-ne-none}
use multi_player_game.Server.Exchange.{frames, exchanged, replies, world_after, session_refines}

-- What is still to be read, and what was written.
abbrev pub Pipe : Type 0
Pipe = List ℕ × List ℕ

abbrev pub pipe_recv : Pipe → ℕ → Option (List ℕ) × Pipe
pipe_recv ([], o) n = (none, ([], o))
pipe_recv (b ∷ bs, o) zero = (none, (b ∷ bs, o))
pipe_recv (b ∷ bs, o) (suc n) = (some (b ∷ []), (bs, o))

abbrev pipe_send : Pipe → List ℕ → Option ℕ × Pipe
pipe_send p [] = (none, p)
pipe_send (i, o) (b ∷ bs) = (some 1, (i, o ++ b ∷ []))

pub pipe_recv-some :
    (s : Pipe) (n : ℕ) (bytes : List ℕ)
    → (pipe_recv s n).0 ≡ some bytes
    → (1 ≤ length bytes)
      × (length bytes ≤ n)
      × (s.0 ≡ bytes ++ (pipe_recv s n).1.0)
      × ((pipe_recv s n).1.1 ≡ s.1)
pipe_recv-some ([], o) n bytes e = ground arith
pipe_recv-some (b ∷ bs, o) zero bytes e = ground arith
pipe_recv-some (b ∷ bs, o) (suc n) bytes e = ground arith

pub pipe_recv-none : (s : Pipe) (n : ℕ) → (pipe_recv s n).0 ≡ none → (pipe_recv s n).1.1 ≡ s.1
pipe_recv-none ([], o) n e = refl
pipe_recv-none (b ∷ bs, o) zero e = refl
pipe_recv-none (b ∷ bs, o) (suc n) e = refl

pipe_send-some :
    (s : Pipe) (bytes : List ℕ) (n : ℕ)
    → (pipe_send s bytes).0 ≡ some n
    → (1 ≤ n)
      × (n ≤ length bytes)
      × ((pipe_send s bytes).1.1 ≡ s.1 ++ take n bytes)
      × ((pipe_send s bytes).1.0 ≡ s.0)
pipe_send-some (i, o) [] n e = ground arith
pipe_send-some (i, o) (b ∷ bs) n e = ground arith

pipe_send-none :
    (s : Pipe) (bytes : List ℕ)
    → (pipe_send s bytes).0 ≡ none
    → ((pipe_send s bytes).1.1 ≡ s.1) × ((pipe_send s bytes).1.0 ≡ s.0)
pipe_send-none (i, o) [] e = (refl, refl)
pipe_send-none (i, o) (b ∷ bs) e = ground arith

abbrev pipe : SocketApi
pipe = record {
  Socket = Pipe;
  incoming = λ p. p.0;
  outgoing = λ p. p.1;
  recv = pipe_recv;
  send = pipe_send;
  recv_some = pipe_recv-some;
  recv_none = pipe_recv-none;
  send_some = pipe_send-some;
  send_none = pipe_send-none;
}

pub pipe_recv-waits : (s : Pipe) (n : ℕ) → 0 < n → 0 < length s.0 → (pipe_recv s n).0 ≢ none
pipe_recv-waits ([], o) n h k = absurd (omega arith)
pipe_recv-waits (b ∷ bs, o) zero h k = absurd (omega arith)
pipe_recv-waits (b ∷ bs, o) (suc n) h k = λ e. cc

pipe_send-waits : (s : Pipe) (bytes : List ℕ) → 0 < length bytes → (pipe_send s bytes).0 ≢ none
pipe_send-waits (i, o) [] h = absurd (omega arith)
pipe_send-waits (i, o) (b ∷ bs) h = λ e. cc

pipe_reliable : IsReliable pipe
pipe_reliable = record { recv_waits = pipe_recv-waits; send_waits = pipe_send-waits }

-- Counts the requests, and answers each with its first byte.
abbrev echo : List ℕ → ℕ → ℕ → List ℕ × ℕ
echo [] c w = ([], w + 1)
echo (b ∷ bs) c w = (b ∷ [], w + 1)

abbrev two_requests : List (List ℕ)
two_requests = (7 ∷ 8 ∷ []) ∷ (9 ∷ []) ∷ []

abbrev fresh : List ℕ → State Pipe ℕ
fresh bytes = record { socket = (bytes, []); connections = init; world = 0; msg_count = 0 }

decode-encode_example :
    decode (encode (1 ∷ 2 ∷ 3 ∷ []) ++ 4 ∷ [])
    ≡ (if ltb max_message_size 3 then too_large 3 else decoded (1 ∷ 2 ∷ 3 ∷ []) (4 ∷ []))
decode-encode_example = decode-encode (1 ∷ 2 ∷ 3 ∷ []) (4 ∷ []) (omega arith)

decode_sound_example :
    (1 ≤ max_message_size) × (1 ∷ 0 ∷ 0 ∷ 0 ∷ 5 ∷ 6 ∷ [] ≡ encode (5 ∷ []) ++ 6 ∷ [])
unfolding decode
decode_sound_example =
    decode_sound 1 0 0 0 (5 ∷ 6 ∷ []) (5 ∷ []) (6 ∷ []) (omega arith) (omega arith) (omega arith)
      (omega arith) refl

read_exact-Reads_example :
    Reads pipe (1 ∷ 2 ∷ 3 ∷ [], []) 2 (read_exact pipe (1 ∷ 2 ∷ 3 ∷ [], []) 2)
read_exact-Reads_example = read_exact-Reads pipe (1 ∷ 2 ∷ 3 ∷ [], []) 2

write_all-Writes_example :
    Writes pipe ([], 9 ∷ []) (1 ∷ 2 ∷ []) (write_all pipe ([], 9 ∷ []) (1 ∷ 2 ∷ []))
write_all-Writes_example = write_all-Writes pipe ([], 9 ∷ []) (1 ∷ 2 ∷ [])

handle_client-ne-none_example :
    handle_client pipe echo 4 (pos 5) "127.0.0.1" 0 (1 ∷ 0 ∷ 0 ∷ [], []) init 0 ≢ none
handle_client-ne-none_example =
    handle_client-ne-none pipe echo 4 (pos 5) "127.0.0.1" 0 (1 ∷ 0 ∷ 0 ∷ [], []) init 0
      (omega arith)

session_refines_example :
    (end : State Pipe ℕ) × (session_loop pipe echo 3 1 (fresh (frames two_requests)) ≡ some end)
    × (end.socket.1 ≡ frames (replies echo 1 two_requests 0))
    × (end.world ≡ world_after echo 1 two_requests 0)
    × (end.connections ≡ exchanged 1 2 init)
session_refines_example =
    session_refines pipe pipe_reliable echo 3 1 two_requests (fresh (frames two_requests))
      (omega arith, (omega arith, tt)) refl (omega arith)
