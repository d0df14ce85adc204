-- ===== src/MessageFramer/Stream.antt =====
-- `readExact` and `writeAll`: whole messages over a socket that moves a part at a time.
pub mod Delivery
use multi_player_game.Common.{
  ℕ, zero, suc, ◌+◌, ◌-◌, ◌≤◌, ◌<◌, ◌≡◌, refl, sym, ap, subst, ◌∙◌, ◌≢◌, inl, inr, Bool, true,
  false, List, [], ◌∷◌, ◌++◌, append_assoc, append-nil, Option, none, some, arith, length, take,
  drop, length-append, take-append, drop-append, length-drop, take-append-drop, take-append-take,
  Option-cases,
}
use multi_player_game.Socket.{SocketApi, IsReliable}

-- How a loop over a socket ends: returns true, returns false, or has used up its fuel.
pub data Outcome (A : Type 0) : Type 0 where
  done : A → Outcome A
  failed : Outcome A
  out_of_fuel : Outcome A

module _ (api : SocketApi) where
  open api use {Socket, incoming, outgoing, recv, send}

  abbrev prepend : List ℕ → Outcome (List ℕ) × Socket → Outcome (List ℕ) × Socket
  prepend bytes (done more, s) = (done (bytes ++ more), s)
  prepend bytes (failed, s) = (failed, s)
  prepend bytes (out_of_fuel, s) = (out_of_fuel, s)

  -- The loop of `readExact`: so many bytes remain. A round takes at least one byte.
  read_loop : ℕ → Socket → ℕ → Outcome (List ℕ) × Socket
  read_loop fuel s zero = (done [], s)
  read_loop zero s (suc n) = (out_of_fuel, s)
  read_loop (suc fuel) s (suc n) =
      let (r, s') = recv s (suc n) in
      elim r [
        | none ↦ (failed, s')
        | some bytes ↦ prepend bytes (read_loop fuel s' (suc n - length bytes))
      ]

  -- `readExact(fd, buf, n)`, with what it has put into the buffer.
  unfoldable pub read_exact : Socket → ℕ → Outcome (List ℕ) × Socket
  unfolding read_loop
  read_exact s n = read_loop n s n

  -- The loop of `writeAll` over the bytes that remain.
  write_loop : ℕ → Socket → List ℕ → Outcome (Unit {0}) × Socket
  write_loop fuel s [] = (done tt, s)
  write_loop zero s (b ∷ bs) = (out_of_fuel, s)
  write_loop (suc fuel) s (b ∷ bs) =
      let (r, s') = send s (b ∷ bs) in
      elim r [ none ↦ (failed, s') | some n ↦ write_loop fuel s' (drop n (b ∷ bs)) ]

  unfoldable pub write_all : Socket → List ℕ → Outcome (Unit {0}) × Socket
  unfolding write_loop
  write_all s bytes = write_loop (length bytes) s bytes

  -- What a read of n bytes that began at s has done.
  abbrev pub Reads : Socket → ℕ → Outcome (List ℕ) × Socket → Type 0
  Reads s n (done bytes, s') =
      (length bytes ≡ n) × (incoming s ≡ bytes ++ incoming s') × (outgoing s' ≡ outgoing s)
  Reads s n (failed, s') = outgoing s' ≡ outgoing s
  Reads s n (out_of_fuel, s') = ⊥

  prepend-Reads :
      (s s' : Socket) (n : ℕ) (bytes : List ℕ) (r : Outcome (List ℕ) × Socket)
      → length bytes ≤ n
      → incoming s ≡ bytes ++ incoming s'
      → outgoing s' ≡ outgoing s
      → Reads s' (n - length bytes) r
      → Reads s n (prepend bytes r)
  prepend-Reads s s' n bytes (done more, t) le i o (size, i', o') = (
    omega (arith, length-append bytes more),
    i ∙ ap (◌++◌ bytes) i' ∙ sym (append_assoc bytes more (incoming t)),
    o' ∙ o,
  )
  prepend-Reads s s' n bytes (failed, t) le i o o' = o' ∙ o
  prepend-Reads s s' n bytes (out_of_fuel, t) le i o h = h

  read_loop-Reads : (fuel : ℕ) (s : Socket) (n : ℕ) → n ≤ fuel → Reads s n (read_loop fuel s n)
  unfolding read_loop
  read_loop-Reads fuel s zero h = (refl, refl, refl)
  read_loop-Reads zero s (suc n) h = absurd (omega arith)
  read_loop-Reads (suc fuel) s (suc n) h = elim (Option-cases (recv s (suc n)).0) [
    | inl e ↦ rw (e, read_loop) (api.recv_none s (suc n) e)
    | inr (bytes, e) ↦
        let (some_, few, i, o) = api.recv_some s (suc n) bytes e in
        rw (e, read_loop)
          (prepend-Reads s (recv s (suc n)).1 (suc n) bytes _ few i o
            (read_loop-Reads fuel (recv s (suc n)).1 (suc n - length bytes) (omega arith)))
  ]

  -- `readExact` ends. When it returns true it has put the next n bytes of the stream into the
  -- buffer and taken nothing else; either way it has sent nothing.
  pub read_exact-Reads : (s : Socket) (n : ℕ) → Reads s n (read_exact s n)
  unfolding read_exact
  read_exact-Reads s n = read_loop-Reads n s n (omega arith)

  -- What a write that began at s has done: a part of the bytes, from the front, when it fails.
  abbrev pub Writes : Socket → List ℕ → Outcome (Unit {0}) × Socket → Type 0
  Writes s bytes (done _, s') = (outgoing s' ≡ outgoing s ++ bytes) × (incoming s' ≡ incoming s)
  Writes s bytes (failed, s') =
      (k : ℕ) × (k < length bytes)
      × (outgoing s' ≡ outgoing s ++ take k bytes)
      × (incoming s' ≡ incoming s)
  Writes s bytes (out_of_fuel, s') = ⊥

  extend-Writes :
      (s s' : Socket) (n : ℕ) (bytes : List ℕ) (r : Outcome (Unit {0}) × Socket)
      → n ≤ length bytes
      → outgoing s' ≡ outgoing s ++ take n bytes
      → incoming s' ≡ incoming s
      → Writes s' (drop n bytes) r
      → Writes s bytes r
  extend-Writes s s' n bytes (done _, t) le o i (o', i') = (
    o'
        ∙ ap (λ x. x ++ drop n bytes) o
        ∙ append_assoc (outgoing s) (take n bytes) (drop n bytes)
        ∙ ap (◌++◌ (outgoing s)) (take-append-drop n bytes),
    i' ∙ i,
  )
  extend-Writes s s' n bytes (failed, t) le o i (k, less, o', i') = (
    n + k,
    omega (arith, length-drop n bytes),
    o'
        ∙ ap (λ x. x ++ take k (drop n bytes)) o
        ∙ append_assoc (outgoing s) (take n bytes) (take k (drop n bytes))
        ∙ ap (◌++◌ (outgoing s)) (take-append-take n k bytes),
    i' ∙ i,
  )
  extend-Writes s s' n bytes (out_of_fuel, t) le o i h = h

  write_loop-Writes :
      (fuel : ℕ) (s : Socket) (bytes : List ℕ)
      → length bytes ≤ fuel
      → Writes s bytes (write_loop fuel s bytes)
  unfolding write_loop
  write_loop-Writes fuel s [] h = (sym (append-nil (outgoing s)), refl)
  write_loop-Writes zero s (b ∷ bs) h = absurd (omega arith)
  write_loop-Writes (suc fuel) s (b ∷ bs) h = elim (Option-cases (send s (b ∷ bs)).0) [
    | inl e ↦
        let (o, i) = api.send_none s (b ∷ bs) e in
        rw (e, write_loop) (0, omega arith, o ∙ sym (append-nil (outgoing s)), i)
    | inr (n, e) ↦
        let (some_, few, o, i) = api.send_some s (b ∷ bs) n e in
        rw (e, write_loop)
          (extend-Writes s (send s (b ∷ bs)).1 n (b ∷ bs) _ few o i (
            write_loop-Writes fuel (send s (b ∷ bs)).1 (drop n (b ∷ bs))
              (omega (arith, length-drop n (b ∷ bs)))))
  ]

  -- `writeAll` ends. When it returns true all the bytes are sent, in order; otherwise a proper
  -- part of them is, from the front. It takes nothing that comes in.
  pub write_all-Writes : (s : Socket) (bytes : List ℕ) → Writes s bytes (write_all s bytes)
  unfolding write_all
  write_all-Writes s bytes = write_loop-Writes (length bytes) s bytes (omega arith)
