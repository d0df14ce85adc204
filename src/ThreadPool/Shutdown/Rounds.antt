-- ===== src/ThreadPool/Shutdown/Rounds.antt =====
-- Rounds of the threads of a pool that is stopping.
use multi_player_game.Common.{
  ℕ, zero, suc, ◌≤◌, ◌<◌, ◌≡◌, refl, ap, ◌∙◌, inl, inr, true, List, [], ◌∷◌, ◌++◌, arith, length,
}
use multi_player_game.ThreadPool.{
  Worker, Shared, ThreadPool, worker_step, handler_return, Act, moves, returns, wakes, act, nth_act,
  Event, acts, step, run,
}
use multi_player_game.ThreadPool.Leaving.{AllLeft, nth_act-Kept}
use multi_player_game.ThreadPool.Shutdown.Progress.{
  remaining, Awake, listed, acts_of, segment_lem, all_idle-AllLeft, nothing_left,
}
use multi_player_game.ThreadPool.Leaving.{length-nth_act}

-- In the round, every worker takes a step, and the handler that it is in returns.
abbrev pub Covers : ℕ → List (Act × ℕ) → Type 0
Covers n turns = (i : ℕ) → i < n → (listed moves i turns ≡ true) × (listed returns i turns ≡ true)

abbrev pub AllCover : ℕ → List (List (Act × ℕ)) → Type 0
AllCover n [] = Unit {0}
AllCover n (turns ∷ rounds) = Covers n turns × AllCover n rounds

pub AllCover-le :
    (m n : ℕ) (rounds : List (List (Act × ℕ))) → m ≤ n → AllCover n rounds → AllCover m rounds
AllCover-le m n [] few h = tt
AllCover-le m n (turns ∷ rounds) few (h, hs) =
    ((λ i less. h i (omega arith)), AllCover-le m n rounds few hs)

unfoldable pub in_turn : List (List (Act × ℕ)) → List Event
in_turn [] = []
in_turn (turns ∷ rounds) = acts_of turns ++ in_turn rounds

pub run-append : (es fs : List Event) (p : ThreadPool) → run (es ++ fs) p ≡ run fs (run es p)
unfolding run
run-append [] fs p = refl
run-append (e ∷ es) fs p = run-append es fs (step e p)

acts_keep :
    (turns : List (Act × ℕ)) (p : ThreadPool)
    → ((run (acts_of turns) p).shared.stopping ≡ p.shared.stopping)
      × (length (run (acts_of turns) p).workers ≡ length p.workers)
unfolding run step acts_of
acts_keep [] p = (refl, refl)
acts_keep ((a, i) ∷ turns) p =
    let (_, _, kept, _) = nth_act-Kept a i p.workers p.shared in
    let (on, size) = acts_keep turns (step (acts a i) p) in
    (on ∙ kept, size ∙ length-nth_act a i p.workers p.shared)

gone-nth_act :
    (a : Act) (i : ℕ) (ws : List Worker) (q : Shared) → AllLeft ws → nth_act a i ws q ≡ (ws, q)
unfolding nth_act act worker_step handler_return
gone-nth_act a i [] q h = refl
gone-nth_act moves zero (w ∷ ws) q h = rw h.0 refl
gone-nth_act returns zero (w ∷ ws) q h = rw h.0 refl
gone-nth_act wakes zero (w ∷ ws) q h = rw h.0 refl
gone-nth_act a (suc i) (w ∷ ws) q h = ap (λ (vs, r). (w ∷ vs, r)) (gone-nth_act a i ws q h.1)

-- Nobody who has left comes back.
gone-run : (turns : List (Act × ℕ)) (p : ThreadPool) → AllLeft p.workers → run (acts_of turns) p ≡ p
unfolding run step acts_of
gone-run [] p h = refl
gone-run ((a, i) ∷ turns) p h =
    let e = gone-nth_act a i p.workers p.shared h in
    ap (λ (ws, q). run (acts_of turns) (record { workers = ws; shared = q })) e ∙ gone-run turns p h

left_stay :
    (rounds : List (List (Act × ℕ))) (p : ThreadPool)
    → AllLeft p.workers
    → AllLeft (run (in_turn rounds) p).workers
unfolding run in_turn
left_stay [] p left = left
left_stay (turns ∷ rounds) p left =
    rw (run-append (acts_of turns) (in_turn rounds) p, gone-run turns p left)
      (left_stay rounds p left)

pub rounds_end :
    (rounds : List (List (Act × ℕ))) (p : ThreadPool)
    → p.shared.stopping ≡ true
    → Awake p.workers
    → AllCover (length p.workers) rounds
    → remaining p.workers p.shared ≤ length rounds
    → AllLeft (run (in_turn rounds) p).workers
unfolding run in_turn
rounds_end [] p h k cover few = nothing_left p.workers (omega arith)
rounds_end (turns ∷ rounds) p h k (here, cover) few =
    rw (run-append (acts_of turns) (in_turn rounds) p) (elim (segment_lem turns p h k) [
      | inl (same, all) ↦ rw same (
          left_stay rounds p (
            all_idle-AllLeft p.workers k
              (λ i less. let (m, r) = here i less in (all moves i m, all returns i r))))
      | inr (less, up) ↦
          let p' = run (acts_of turns) p in
          let (on, size) = acts_keep turns p in
          rounds_end rounds p' (on ∙ h) up (rw size cover) (omega (arith, less))
    ])
