-- ===== src/Server/Output.antt =====
-- Whatever a session meets, it only adds to what it has sent.
use multi_player_game.Common.{
  ℕ, zero, suc, ◌≡◌, refl, sym, ap, subst, ◌∙◌, inl, inr, Bool, true, false, List, [], ◌++◌,
  append_assoc, append-nil, Option, some, take, Bool-cases, ltb,
}
use multi_player_game.Socket.{SocketApi}
use multi_player_game.MessageFramer.{max_message_size, header_size}
use multi_player_game.MessageFramer.Stream.{
  Outcome, done, failed, out_of_fuel, Reads, Writes, read_exact-Reads, write_all-Writes,
}
use multi_player_game.Server.{
  State, after_write, after_payload, receive_payload, after_header, round, after_round,
  session_loop, answered,
}

module _ (api : SocketApi) where
  open api use {Socket, outgoing}

  -- The second socket has sent what `out` says, and then perhaps more.
  abbrev pub Extends : List ℕ → Socket → Type 0
  Extends out s = (more : List ℕ) × (outgoing s ≡ out ++ more)

  pub same-Extends : (out : List ℕ) (s : Socket) → outgoing s ≡ out → Extends out s
  same-Extends out s e = ([], e ∙ sym (append-nil out))

  pub Extends-trans :
      (out : List ℕ) (s t : Socket) → Extends out s → Extends (outgoing s) t → Extends out t
  Extends-trans out s t (xs, e) (ys, e') =
      (xs ++ ys, e' ∙ ap (λ x. x ++ ys) e ∙ append_assoc out xs ys)

module _ (api : SocketApi) {W : Type 0} (handle : List ℕ → ℕ → W → List ℕ × W) where
  open api use {Socket, outgoing}

  after_write-Extends :
      (c : ℕ) (st : State Socket W) (bytes : List ℕ) (s : Socket) (r : Outcome (Unit {0}) × Socket)
      → Writes api s bytes r
      → Extends api (outgoing s) (after_write api handle c st r).1.socket
  unfolding after_write
  after_write-Extends c st bytes s (done _, t) (o, i) = (bytes, o)
  after_write-Extends c st bytes s (failed, t) (k, less, o, i) = (take k bytes, o)
  after_write-Extends c st bytes s (out_of_fuel, t) h = absurd h

  after_payload-Extends :
      (c n : ℕ) (st : State Socket W) (s : Socket) (r : Outcome (List ℕ) × Socket)
      → Reads api s n r
      → Extends api (outgoing s) (after_payload api handle c st r).1.socket
  unfolding after_payload
  after_payload-Extends c n st s (done p, t) (size, i, o) =
      Extends-trans api (outgoing s) t _ (same-Extends api (outgoing s) t o) (
        after_write-Extends c (answered api handle c p (record st { socket = t })) _ t _
          (write_all-Writes api t _))
  after_payload-Extends c n st s (failed, t) o = same-Extends api (outgoing s) t o
  after_payload-Extends c n st s (out_of_fuel, t) h = absurd h

  receive_payload-Extends :
      (c n : ℕ) (st : State Socket W)
      → Extends api (outgoing st.socket) (receive_payload api handle c n st).1.socket
  unfolding receive_payload
  receive_payload-Extends c n st = elim (Bool-cases (ltb max_message_size n)) [
    | inl big ↦ rw big (same-Extends api (outgoing st.socket) st.socket refl)
    | inr small ↦
        rw small (after_payload-Extends c n st st.socket _ (read_exact-Reads api st.socket n))
  ]

  after_header-Extends :
      (c : ℕ) (st : State Socket W) (s : Socket) (r : Outcome (List ℕ) × Socket)
      → Reads api s header_size r
      → Extends api (outgoing s) (after_header api handle c st r).1.socket
  unfolding after_header
  after_header-Extends c st s (done h, t) (size, i, o) =
      Extends-trans api (outgoing s) t _ (same-Extends api (outgoing s) t o)
        (receive_payload-Extends c _ (record st { socket = t }))
  after_header-Extends c st s (failed, t) o = same-Extends api (outgoing s) t o
  after_header-Extends c st s (out_of_fuel, t) h = absurd h

  round-Extends :
      (c : ℕ) (st : State Socket W)
      → Extends api (outgoing st.socket) (round api handle c st).1.socket
  unfolding round
  round-Extends c st =
      after_header-Extends c st st.socket _ (read_exact-Reads api st.socket header_size)

  after_round-Extends :
      (out : List ℕ) (next : State Socket W → Option (State Socket W)) (r : Bool × State Socket W)
      (end : State Socket W)
      → Extends api out r.1.socket
      → after_round next r ≡ some end
      → ((e : next r.1 ≡ some end) → Extends api (outgoing r.1.socket) end.socket)
      → Extends api out end.socket
  unfolding after_round
  after_round-Extends out next (true, st) end x e later =
      Extends-trans api out st.socket end.socket x (later e)
  after_round-Extends out next (false, st) end x e later =
      let same : st ≡ end = cc in subst (λ t. Extends api out t.socket) same x

  pub session_loop-Extends :
      (fuel c : ℕ) (st end : State Socket W)
      → session_loop api handle fuel c st ≡ some end
      → Extends api (outgoing st.socket) end.socket
  unfolding session_loop
  session_loop-Extends zero c st end e = cc
  session_loop-Extends (suc fuel) c st end e =
      let r = round api handle c st in
      after_round-Extends (outgoing st.socket) (session_loop api handle fuel c) r end
        (round-Extends c st) e (λ e'. session_loop-Extends fuel c r.1 end e')
