-- ===== src/Server/Session.antt =====
-- A session ends, and what it can have done by then.
use multi_player_game.Common.{
  ℕ, zero, suc, ◌+◌, ◌≤◌, ◌<◌, ap, ◌≢◌, inl, inr, Bool, true, false, List, Option, none, arith,
  length, length-append, Bool-cases, Option-cases, String, ltb,
}
use multi_player_game.Common.Int.{ℤ}
use multi_player_game.Socket.{SocketApi}
use multi_player_game.MessageFramer.{max_message_size, header_size}
use multi_player_game.MessageFramer.Stream.{
  Outcome, done, failed, out_of_fuel, Reads, Writes, read_exact-Reads, write_all-Writes,
}
use multi_player_game.ConnectionManager.{ConnectionManager}
use multi_player_game.Server.{
  State, after_write, after_payload, receive_payload, after_header, round, after_round,
  session_loop, answered, serve, handle_client,
}

module _ (api : SocketApi) {W : Type 0} (handle : List ℕ → ℕ → W → List ℕ × W) where
  -- If the loop goes on, four of k bytes are read at least.
  abbrev Left : ℕ → Bool × State api.Socket W → Type 0
  Left k (true, st) = length (api.incoming st.socket) + 4 ≤ k
  Left k (false, st) = Unit {0}

  after_write-Left :
      (k c : ℕ) (st : State api.Socket W) (bytes : List ℕ) (s : api.Socket)
      (r : Outcome (Unit {0}) × api.Socket)
      → Writes api s bytes r
      → length (api.incoming s) + 4 ≤ k
      → Left k (after_write api handle c st r)
  unfolding after_write
  after_write-Left k c st bytes s (done _, t) w h = omega (arith, ap length w.1)
  after_write-Left k c st bytes s (failed, t) w h = tt
  after_write-Left k c st bytes s (out_of_fuel, t) w h = tt

  after_payload-Left :
      (k c n : ℕ) (st : State api.Socket W) (s : api.Socket) (r : Outcome (List ℕ) × api.Socket)
      → Reads api s n r
      → length (api.incoming s) + 4 ≤ k
      → Left k (after_payload api handle c st r)
  unfolding after_payload
  after_payload-Left k c n st s (done p, t) w h =
      after_write-Left k c (answered api handle c p (record st { socket = t })) _ t _
        (write_all-Writes api t _) (omega (arith, ap length w.1, length-append p (api.incoming t)))
  after_payload-Left k c n st s (failed, t) w h = tt
  after_payload-Left k c n st s (out_of_fuel, t) w h = tt

  receive_payload-Left :
      (k c n : ℕ) (st : State api.Socket W)
      → length (api.incoming st.socket) + 4 ≤ k
      → Left k (receive_payload api handle c n st)
  unfolding receive_payload
  receive_payload-Left k c n st h = elim (Bool-cases (ltb max_message_size n)) [
    | inl big ↦ rw big tt
    | inr small ↦
        rw small (after_payload-Left k c n st st.socket _ (read_exact-Reads api st.socket n) h)
  ]

  after_header-Left :
      (k c : ℕ) (st : State api.Socket W) (s : api.Socket) (r : Outcome (List ℕ) × api.Socket)
      → Reads api s header_size r
      → length (api.incoming s) ≤ k
      → Left k (after_header api handle c st r)
  unfolding after_header
  after_header-Left k c st s (done h, t) w le =
      receive_payload-Left k c _ _
        (omega (arith, w.0, ap length w.1, length-append h (api.incoming t)))
  after_header-Left k c st s (failed, t) w le = tt
  after_header-Left k c st s (out_of_fuel, t) w le = tt

  -- Every round that does not end the session takes a header from the stream.
  round-Left :
      (c : ℕ) (st : State api.Socket W)
      → Left (length (api.incoming st.socket)) (round api handle c st)
  unfolding round
  round-Left c st =
      after_header-Left (length (api.incoming st.socket)) c st st.socket _
        (read_exact-Reads api st.socket 4) (omega arith)

  -- The rest of the loop gives a result, given that it does so on a stream of less than n bytes.
  after_round-ne-none :
      (k n : ℕ) (next : State api.Socket W → Option (State api.Socket W))
      (r : Bool × State api.Socket W)
      → ((st : State api.Socket W) → length (api.incoming st.socket) < n → next st ≢ none)
      → Left k r
      → k < n + 1
      → after_round next r ≢ none
  unfolding after_round
  after_round-ne-none k n next (true, st) go left less = go st (omega arith)
  after_round-ne-none k n next (false, st) go left less = λ e. cc

  -- With more rounds than bytes to read the loop ends: a last round finds no header.
  session_loop-ne-none :
      (fuel c : ℕ) (st : State api.Socket W)
      → length (api.incoming st.socket) < fuel
      → session_loop api handle fuel c st ≢ none
  unfolding session_loop
  session_loop-ne-none zero c st h = absurd (omega arith)
  session_loop-ne-none (suc fuel) c st h =
      after_round-ne-none (length (api.incoming st.socket)) fuel _ _ (session_loop-ne-none fuel c)
        (round-Left c st) (omega arith)

  serve-ne-none :
      (fuel c : ℕ) (st : State api.Socket W)
      → length (api.incoming st.socket) < fuel
      → serve api handle fuel c st ≢ none
  unfolding serve
  serve-ne-none fuel c st h = elim (Option-cases (session_loop api handle fuel c st)) [
    | inl e ↦ absurd (session_loop-ne-none fuel c st h e)
    | inr (st', e) ↦ rw (e, serve) (λ q. cc)
  ]

  -- A session ends, on any socket: one round more than there are bytes to read is enough.
  pub handle_client-ne-none :
      (fuel : ℕ) (fd : ℤ) (addr : String) (now : ℕ) (s : api.Socket) (m : ConnectionManager) (w : W)
      → length (api.incoming s) < fuel
      → handle_client api handle fuel fd addr now s m w ≢ none
  unfolding handle_client
  handle_client-ne-none fuel fd addr now s m w h = serve-ne-none fuel _ _ h
