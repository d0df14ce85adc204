-- ===== src/MessageFramer/Stream/Delivery.antt =====
-- Over a connection that does not break, `readExact` and `writeAll` return true.
use multi_player_game.Common.{
  ℕ, zero, suc, ◌-◌, ◌≤◌, ◌≡◌, refl, sym, ap, subst, ◌∙◌, ◌≢◌, inl, inr, List, [], ◌∷◌, ◌++◌, arith,
  length, take, drop, length-append, take-append, drop-append, Option-cases,
}
use multi_player_game.Socket.{SocketApi, IsReliable}
use multi_player_game.MessageFramer.Stream.{
  Outcome, done, failed, out_of_fuel, prepend, read_loop, read_exact, write_loop, write_all, Reads,
  Writes, read_exact-Reads, write_all-Writes,
}

module _ (api : SocketApi) (rel : IsReliable api) where
  open api use {Socket, incoming, outgoing, recv, send}

  prepend-ne-failed :
      (bytes : List ℕ) (r : Outcome (List ℕ) × Socket)
      → r.0 ≢ failed
      → (prepend api bytes r).0 ≢ failed
  prepend-ne-failed bytes (done more, t) h = λ e. cc
  prepend-ne-failed bytes (failed, t) h = h
  prepend-ne-failed bytes (out_of_fuel, t) h = λ e. cc

  read_loop-ne-failed :
      (fuel : ℕ) (s : Socket) (n : ℕ)
      → n ≤ length (incoming s)
      → (read_loop api fuel s n).0 ≢ failed
  unfolding read_loop
  read_loop-ne-failed fuel s zero h = λ e. cc
  read_loop-ne-failed zero s (suc n) h = λ e. cc
  read_loop-ne-failed (suc fuel) s (suc n) h = elim (Option-cases (recv s (suc n)).0) [
    | inl e ↦ absurd (rel.recv_waits s (suc n) (omega arith) (omega arith) e)
    | inr (bytes, e) ↦
        let (some_, few, i, o) = api.recv_some s (suc n) bytes e in
        rw (e, read_loop)
          (prepend-ne-failed bytes _ (
            read_loop-ne-failed fuel (recv s (suc n)).1 (suc n - length bytes)
              (omega (arith, ap length i, length-append bytes (incoming (recv s (suc n)).1)))))
  ]

  abbrev ReadsFront : Socket → List ℕ → List ℕ → Outcome (List ℕ) × Socket → Type 0
  ReadsFront s bytes rest r =
      (s' : Socket) × (r ≡ (done bytes, s')) × (incoming s' ≡ rest) × (outgoing s' ≡ outgoing s)

  front :
      (s : Socket) (bytes rest : List ℕ) (r : Outcome (List ℕ) × Socket)
      → incoming s ≡ bytes ++ rest
      → r.0 ≢ failed
      → Reads api s (length bytes) r
      → ReadsFront s bytes rest r
  front s bytes rest (done got, t) i ok (size, i', o) = (t, cc same, tail, o)
    where
      both : got ++ incoming t ≡ bytes ++ rest
      both = sym i' ∙ i

      same : got ≡ bytes
      same =
          sym (take-append got (incoming t))
          ∙ ap (take (length got)) both
          ∙ subst (λ n. take n (bytes ++ rest) ≡ bytes) (sym size) (take-append bytes rest)

      tail : incoming t ≡ rest
      tail =
          sym (drop-append got (incoming t))
          ∙ ap (drop (length got)) both
          ∙ subst (λ n. drop n (bytes ++ rest) ≡ rest) (sym size) (drop-append bytes rest)
  front s bytes rest (failed, t) i ok h = absurd (ok refl)
  front s bytes rest (out_of_fuel, t) i ok h = absurd h

  -- Bytes that are there are read.
  pub read_front :
      (s : Socket) (bytes rest : List ℕ)
      → incoming s ≡ bytes ++ rest
      → ReadsFront s bytes rest (read_exact api s (length bytes))
  unfolding read_exact
  read_front s bytes rest i =
      front s bytes rest _ i
        (read_loop-ne-failed (length bytes) s (length bytes)
          (omega (arith, ap length i, length-append bytes rest)))
        (read_exact-Reads api s (length bytes))

  write_loop-ne-failed :
      (fuel : ℕ) (s : Socket) (bytes : List ℕ) → (write_loop api fuel s bytes).0 ≢ failed
  unfolding write_loop
  write_loop-ne-failed fuel s [] = λ e. cc
  write_loop-ne-failed zero s (b ∷ bs) = λ e. cc
  write_loop-ne-failed (suc fuel) s (b ∷ bs) = elim (Option-cases (send s (b ∷ bs)).0) [
    | inl e ↦ absurd (rel.send_waits s (b ∷ bs) (omega arith) e)
    | inr (n, e) ↦
        rw (e, write_loop) (write_loop-ne-failed fuel (send s (b ∷ bs)).1 (drop n (b ∷ bs)))
  ]

  abbrev WritesAll : Socket → List ℕ → Outcome (Unit {0}) × Socket → Type 0
  WritesAll s bytes r =
      (s' : Socket) × (r ≡ (done tt, s'))
      × (outgoing s' ≡ outgoing s ++ bytes)
      × (incoming s' ≡ incoming s)

  sent :
      (s : Socket) (bytes : List ℕ) (r : Outcome (Unit {0}) × Socket)
      → r.0 ≢ failed
      → Writes api s bytes r
      → WritesAll s bytes r
  sent s bytes (done _, t) ok (o, i) = (t, refl, o, i)
  sent s bytes (failed, t) ok h = absurd (ok refl)
  sent s bytes (out_of_fuel, t) ok h = absurd h

  pub write_reliable : (s : Socket) (bytes : List ℕ) → WritesAll s bytes (write_all api s bytes)
  unfolding write_all
  write_reliable s bytes =
      sent s bytes _ (write_loop-ne-failed (length bytes) s bytes) (write_all-Writes api s bytes)
