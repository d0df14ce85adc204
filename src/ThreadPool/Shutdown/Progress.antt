-- ===== src/ThreadPool/Shutdown/Progress.antt =====
-- How far the workers of a pool that is stopping are from their end.
use multi_player_game.Common.{
  ℕ, zero, suc, ◌+◌, ◌*◌, ◌≤◌, ◌<◌, ◌≡◌, refl, sym, ap, subst, ◌∙◌, ◌⊎◌, inl, inr, Bool, true,
  false, ◌||◌, ◌&&◌, List, [], ◌∷◌, arith, length, nat_beq, nat_beq_iff, Bool-cases,
}
use multi_player_game.ThreadPool.{
  Worker, arriving, drowsy, asleep, taking, handling, exited, Shared, ThreadPool, worker_step,
  handler_return, Act, moves, returns, wakes, act, nth_act, Event, acts, step, run,
}
use multi_player_game.ThreadPool.Leaving.{AllLeft, nth_act-Kept}

-- The acts that a worker still has to take, apart from the tasks in the queue, which take three each.
abbrev pub weight : Worker → ℕ
weight arriving = 1
weight drowsy = 1
weight asleep = 1
weight (handling t) = 2
weight (taking t) = 3
weight exited = 0

pub load : List Worker → ℕ
load [] = 0
load (w ∷ ws) = weight w + load ws

abbrev pub remaining : List Worker → Shared → ℕ
remaining ws q = 3 * length q.tasks + load ws

-- Not on the way to sleep, nor asleep.
abbrev pub is_awake : Worker → Bool
is_awake drowsy = false
is_awake asleep = false
is_awake _ = true

abbrev pub Awake : List Worker → Type 0
Awake [] = Unit {0}
Awake (w ∷ ws) = (is_awake w ≡ true) × Awake ws

-- Whether the act changes nothing.
abbrev pub idle : Act → Worker → Bool
idle moves exited = true
idle moves (handling t) = true
idle moves _ = false
idle returns (handling t) = false
idle returns _ = true
idle wakes _ = true

pub idle_at : Act → ℕ → List Worker → Bool
idle_at a i [] = true
idle_at a zero (w ∷ ws) = idle a w
idle_at a (suc i) (w ∷ ws) = idle_at a i ws

abbrev same_act : Act → Act → Bool
same_act moves moves = true
same_act returns returns = true
same_act wakes wakes = true
same_act _ _ = false

same_act_lem : (a b : Act) → same_act a b ≡ true → a ≡ b
same_act_lem moves moves e = refl
same_act_lem returns returns e = refl
same_act_lem wakes wakes e = refl
same_act_lem moves returns e = absurd (ground arith)
same_act_lem moves wakes e = absurd (ground arith)
same_act_lem returns moves e = absurd (ground arith)
same_act_lem returns wakes e = absurd (ground arith)
same_act_lem wakes moves e = absurd (ground arith)
same_act_lem wakes returns e = absurd (ground arith)

unfoldable pub listed : Act → ℕ → List (Act × ℕ) → Bool
listed a i [] = false
listed a i ((b, j) ∷ turns) = same_act a b && nat_beq i j || listed a i turns

abbrev Steps : Act → Worker → Shared → ℕ → Type 0
Steps a w q n =
    ((act a w q ≡ (w, q)) × (idle a w ≡ true))
    ⊎ ((3 * length (act a w q).1.tasks + weight (act a w q).0 + n + 1
          ≡ 3 * length q.tasks + weight w + n)
        × (is_awake (act a w q).0 ≡ true))

-- An act brings a worker that is awake nearer to its end, or changes nothing.
act_lem :
    (a : Act) (w : Worker) (q : Shared) (n : ℕ)
    → q.stopping ≡ true
    → is_awake w ≡ true
    → Steps a w q n
unfolding act worker_step handler_return
act_lem moves w q n h k = ground arith
act_lem returns w q n h k = ground arith
act_lem wakes w q n h k = ground arith

nth_act_lem :
    (a : Act) (i : ℕ) (ws : List Worker) (q : Shared)
    → q.stopping ≡ true
    → Awake ws
    → ((nth_act a i ws q ≡ (ws, q)) × (idle_at a i ws ≡ true))
      ⊎ ((remaining (nth_act a i ws q).0 (nth_act a i ws q).1 + 1 ≡ remaining ws q)
          × Awake (nth_act a i ws q).0)
unfolding nth_act idle_at load
nth_act_lem a i [] q h k = inl (refl, refl)
nth_act_lem a zero (w ∷ ws) q h (k, ks) = elim (act_lem a w q (load ws) h k) [
  | inl (same, none) ↦ inl (ap (λ (v, r). (v ∷ ws, r)) same, none)
  | inr (less, up) ↦ inr (omega (arith, less), (up, ks))
]
nth_act_lem a (suc i) (w ∷ ws) q h (k, ks) = elim (nth_act_lem a i ws q h ks) [
  | inl (same, none) ↦ inl (ap (λ (vs, r). (w ∷ vs, r)) same, none)
  | inr (less, up) ↦ inr (omega (arith, less), (k, up))
]

unfoldable pub acts_of : List (Act × ℕ) → List Event
acts_of [] = []
acts_of ((a, i) ∷ turns) = acts a i ∷ acts_of turns

-- Nothing has changed, and the acts were idle; or less remains to be done.
abbrev Turns : List (Act × ℕ) → ThreadPool → ThreadPool → Type 0
Turns turns p p' =
    ((p' ≡ p) × ((a : Act) (i : ℕ) → listed a i turns ≡ true → idle_at a i p.workers ≡ true))
    ⊎ ((remaining p'.workers p'.shared < remaining p.workers p.shared) × Awake p'.workers)

first_or_rest :
    (b : Act) (j : ℕ) (turns : List (Act × ℕ)) (p : ThreadPool) (a : Act) (i : ℕ)
    → idle_at b j p.workers ≡ true
    → (listed a i turns ≡ true → idle_at a i p.workers ≡ true)
    → listed a i ((b, j) ∷ turns) ≡ true
    → idle_at a i p.workers ≡ true
unfolding listed
first_or_rest b j turns p a i none rest here = elim (Bool-cases (same_act a b && nat_beq i j)) [
  | inl this ↦
      let act_is : a ≡ b = same_act_lem a b (ground arith) in
      let number_is : i ≡ j = (nat_beq_iff i j).0 (ground arith) in rw (act_is, number_is) none
  | inr other ↦ rest (ground arith)
]

pub segment_lem :
    (turns : List (Act × ℕ)) (p : ThreadPool)
    → p.shared.stopping ≡ true
    → Awake p.workers
    → Turns turns p (run (acts_of turns) p)
unfolding run step listed acts_of
segment_lem [] p h k = inl (refl, λ a i e. absurd (ground arith))
segment_lem ((b, j) ∷ turns) p h k =
    let moved = step (acts b j) p in
    let (_, _, kept, _) = nth_act-Kept b j p.workers p.shared in
    elim (nth_act_lem b j p.workers p.shared h k) [
      | inl (same, none) ↦
          let e : moved ≡ p = ap (λ (ws, q). record { workers = ws; shared = q }) same in
          subst (λ x. Turns ((b, j) ∷ turns) p (run (acts_of turns) x)) (sym e)
            (elim (segment_lem turns p h k) [
              | inl (rest, all) ↦
                  inl (rest, λ a i here. first_or_rest b j turns p a i none (all a i) here)
              | inr less ↦ inr less
            ])
      | inr (less, up) ↦ elim (segment_lem turns moved (kept ∙ h) up) [
        | inl (rest, _) ↦ inr (rw rest (omega (arith, less), up))
        | inr (more, up') ↦ inr (omega (arith, less, more), up')
      ]
    ]

pub all_idle-AllLeft :
    (ws : List Worker)
    → Awake ws
    → ((i : ℕ) → i < length ws → (idle_at moves i ws ≡ true) × (idle_at returns i ws ≡ true))
    → AllLeft ws
unfolding idle_at
all_idle-AllLeft [] k h = tt
all_idle-AllLeft (arriving ∷ ws) k h = absurd (ground (arith, h 0))
all_idle-AllLeft (drowsy ∷ ws) k h = absurd (ground (arith, k.0))
all_idle-AllLeft (asleep ∷ ws) k h = absurd (ground (arith, k.0))
all_idle-AllLeft (taking t ∷ ws) k h = absurd (ground (arith, h 0))
all_idle-AllLeft (handling t ∷ ws) k h = absurd (ground (arith, h 0))
all_idle-AllLeft (exited ∷ ws) k h =
    (refl, all_idle-AllLeft ws k.1 (λ i less. h (suc i) (omega arith)))

pub nothing_left : (ws : List Worker) → load ws ≡ 0 → AllLeft ws
unfolding load
nothing_left [] h = tt
nothing_left (arriving ∷ ws) h = absurd (omega arith)
nothing_left (drowsy ∷ ws) h = absurd (omega arith)
nothing_left (asleep ∷ ws) h = absurd (omega arith)
nothing_left (taking t ∷ ws) h = absurd (omega arith)
nothing_left (handling t ∷ ws) h = absurd (omega arith)
nothing_left (exited ∷ ws) h = (refl, nothing_left ws (omega arith))

pub load-le : (ws : List Worker) → load ws ≤ 3 * length ws
unfolding load
load-le [] = omega arith
load-le (arriving ∷ ws) = omega (arith, load-le ws)
load-le (drowsy ∷ ws) = omega (arith, load-le ws)
load-le (asleep ∷ ws) = omega (arith, load-le ws)
load-le (taking t ∷ ws) = omega (arith, load-le ws)
load-le (handling t ∷ ws) = omega (arith, load-le ws)
load-le (exited ∷ ws) = omega (arith, load-le ws)
