-- ===== src/Server/Exchange.antt =====
-- A session against its specification: requests are handled one by one, in the order of the
-- stream, and answered in that order.
use multi_player_game.Common.{
  ℕ, zero, suc, ◌+◌, ◌%◌, ◌^◌, ◌≤◌, ◌<◌, ◌≡◌, refl, sym, ap, subst, ◌∙◌, Bool, true, false, List,
  [], ◌∷◌, ◌++◌, append_assoc, append-nil, some, arith, length, length-append, ltb,
}
use multi_player_game.Socket.{SocketApi, IsReliable}
use multi_player_game.MessageFramer.{max_message_size, write_u32_le, encode}
use multi_player_game.MessageFramer.RoundTrip.{encode_lem, write_u32_le_lem, read-write_u32_le}
use multi_player_game.MessageFramer.Stream.{
  Outcome, done, failed, out_of_fuel, read_exact, Reads, read_exact-Reads,
}
use multi_player_game.MessageFramer.Stream.Delivery.{read_front, write_reliable}
use multi_player_game.ConnectionManager
use multi_player_game.ConnectionManager.{ConnectionManager}
use multi_player_game.Server.{
  State, answer, after_payload, receive_payload, payload_len, after_header, round, after_round,
  session_loop,
}

-- Messages as they follow one another on the wire.
unfoldable pub frames : List (List ℕ) → List ℕ
frames [] = []
frames (p ∷ ps) = encode p ++ frames ps

abbrev pub IsSmall : List (List ℕ) → Type 0
IsSmall [] = Unit {0}
IsSmall (p ∷ ps) = (length p ≤ max_message_size) × IsSmall ps

-- The registry after n requests and answers.
unfoldable pub exchanged : ℕ → ℕ → ConnectionManager → ConnectionManager
exchanged c zero m = m
exchanged c (suc n) m =
    exchanged c n
      (ConnectionManager.record_message_sent c (ConnectionManager.record_message_received c m))

payload_len-write : (v : ℕ) → v < 2 ^ 32 → payload_len (write_u32_le v) ≡ v
unfolding payload_len
payload_len-write v h = rw (write_u32_le_lem v) (read-write_u32_le v h)

length-write_u32_le : (v : ℕ) → length (write_u32_le v) ≡ 4
length-write_u32_le v = rw (write_u32_le_lem v)

module _ {W : Type 0} (handle : List ℕ → ℕ → W → List ℕ × W) where
  -- The specification: the answers to requests in order, and what becomes of the world.
  unfoldable pub replies : ℕ → List (List ℕ) → W → List (List ℕ)
  replies c [] w = []
  replies c (p ∷ ps) w = (handle p c w).0 ∷ replies c ps (handle p c w).1

  unfoldable pub world_after : ℕ → List (List ℕ) → W → W
  world_after c [] w = w
  world_after c (p ∷ ps) w = world_after c ps (handle p c w).1

module _ (api : SocketApi) (rel : IsReliable api) {W : Type 0}
    (handle : List ℕ → ℕ → W → List ℕ × W) where
  -- The state after a request was answered over a socket that is now s.
  abbrev pub done_one : ℕ → List ℕ → State api.Socket W → api.Socket → State api.Socket W
  done_one c p st s = record {
    socket = s;
    connections =
        ConnectionManager.record_message_sent c
          (ConnectionManager.record_message_received c st.connections);
    world = (handle p c st.world).1;
    msg_count = (st.msg_count + 1) % 2 ^ 32;
  }

  abbrev pub Answers : ℕ → List ℕ → List ℕ → State api.Socket W → Bool × State api.Socket W → Type 0
  Answers c p rest st r =
      (s : api.Socket) × (r ≡ (true, done_one c p st s))
      × (api.incoming s ≡ rest)
      × (api.outgoing s ≡ api.outgoing st.socket ++ encode (handle p c st.world).0)

  answer_lem :
      (c : ℕ) (p rest : List ℕ) (st : State api.Socket W)
      → api.incoming st.socket ≡ rest
      → Answers c p rest st (answer api handle c p st)
  unfolding answer
  answer_lem c p rest st i =
      let (s, e, o, i') = write_reliable api rel st.socket (encode (handle p c st.world).0) in
      (s, rw e, i' ∙ i, o)

  abbrev HeaderRead : State api.Socket W → List ℕ → List ℕ → Outcome (List ℕ) × api.Socket → Type 0
  HeaderRead st bytes rest r =
      (s : api.Socket) × (r ≡ (done bytes, s))
      × (api.incoming s ≡ rest)
      × (api.outgoing s ≡ api.outgoing st.socket)

  pub round-Answers :
      (c : ℕ) (p rest : List ℕ) (st : State api.Socket W)
      → length p ≤ max_message_size
      → api.incoming st.socket ≡ encode p ++ rest
      → Answers c p rest st (round api handle c st)
  unfolding round after_header receive_payload after_payload
  round-Answers c p rest st small i =
      let v = length p in
      let whole : api.incoming st.socket ≡ write_u32_le v ++ (p ++ rest) =
        i
        ∙ ap (λ x. x ++ rest) (encode_lem p (omega arith))
        ∙ append_assoc (write_u32_le v) p rest in
      let (s, e, i', o) =
        subst (λ n. HeaderRead st (write_u32_le v) (p ++ rest) (read_exact api st.socket n))
          (length-write_u32_le v)
          (read_front api rel st.socket (write_u32_le v) (p ++ rest) whole) in
      let (s', e', i'', o') = read_front api rel s p rest i' in
      let fits : ltb max_message_size v ≡ false = ground arith in
      let (t, et, it, ot) = answer_lem c p rest (record st { socket = s' }) i'' in
      (
        t,
        rw (
          e,
          after_header,
          payload_len-write v (omega arith),
          receive_payload,
          fits,
          e',
          after_payload,
          et,
        ),
        it,
        ot ∙ ap (λ x. x ++ encode (handle p c st.world).0) (o' ∙ o),
      )

  no_header :
      (c : ℕ) (st : State api.Socket W) (r : Outcome (List ℕ) × api.Socket)
      → api.incoming st.socket ≡ []
      → Reads api st.socket 4 r
      → (s : api.Socket) × (after_header api handle c st r ≡ (false, record st { socket = s }))
        × (api.outgoing s ≡ api.outgoing st.socket)
  unfolding after_header
  no_header c st (done bytes, t) i (size, i', o) =
      absurd (omega (arith, size, ap length i, ap length i', length-append bytes (api.incoming t)))
  no_header c st (failed, t) i o = (t, refl, o)
  no_header c st (out_of_fuel, t) i h = absurd h

  pub round_ends :
      (c : ℕ) (st : State api.Socket W)
      → api.incoming st.socket ≡ []
      → (s : api.Socket) × (round api handle c st ≡ (false, record st { socket = s }))
        × (api.outgoing s ≡ api.outgoing st.socket)
  unfolding round
  round_ends c st i = no_header c st _ i (read_exact-Reads api st.socket 4)

  -- Over a connection that does not break, with requests of at most 1 MiB on the stream and
  -- nothing else: the session ends after one round more than there are requests; what is sent are
  -- the frames of the answers, in the order of the requests, each from the world that the requests
  -- before it left; and the registry has counted each request and each answer.
  pub session_refines :
      (fuel c : ℕ) (ps : List (List ℕ)) (st : State api.Socket W)
      → IsSmall ps
      → api.incoming st.socket ≡ frames ps
      → length ps < fuel
      → (end : State api.Socket W) × (session_loop api handle fuel c st ≡ some end)
        × (api.outgoing end.socket
            ≡ api.outgoing st.socket ++ frames (replies handle c ps st.world))
        × (end.world ≡ world_after handle c ps st.world)
        × (end.connections ≡ exchanged c (length ps) st.connections)
  unfolding session_loop after_round frames replies world_after exchanged
  session_refines zero c ps st small i h = absurd (omega arith)
  session_refines (suc fuel) c [] st small i h =
      let (s, e, o) = round_ends c st i in
      (
        record st { socket = s },
        rw (e, after_round),
        o ∙ sym (append-nil (api.outgoing st.socket)),
        refl,
        refl,
      )
  session_refines (suc fuel) c (p ∷ ps) st small i h =
      let (s, e, i', o) = round-Answers c p (frames ps) st small.0 i in
      let (fin, ef, of, wf, cf) =
        session_refines fuel c ps (done_one c p st s) small.1 i' (omega arith) in
      (
        fin,
        rw (e, after_round) ef,
        of
            ∙ ap (λ x. x ++ frames (replies handle c ps (handle p c st.world).1)) o
            ∙ append_assoc (api.outgoing st.socket) _ _,
        wf,
        cf,
      )
