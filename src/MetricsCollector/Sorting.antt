-- ===== src/MetricsCollector/Sorting.antt =====
-- `std::sort` of simulator/src/MetricsCollector.cpp: the result ascends, and has the same elements.
use multi_player_game.Common.{
  ℕ, zero, suc, ◌≤◌, ◌<◌, ◌-◌, ◌≡◌, refl, ap, ◌∙◌, inl, inr, ◌⊎◌, subst, List, [], ◌∷◌, length,
  arith,
}
use multi_player_game.MetricsCollector.{insert, sort, latency_at}

abbrev pub Below : ℕ → List ℕ → Type 0
Below k [] = Unit {0}
Below k (x ∷ xs) = (x ≤ k) × Below k xs

abbrev Above : ℕ → List ℕ → Type 0
Above k [] = Unit {0}
Above k (x ∷ xs) = (k ≤ x) × Above k xs

abbrev pub IsAscending : List ℕ → Type 0
IsAscending [] = Unit {0}
IsAscending (x ∷ xs) = Above x xs × IsAscending xs

Above-le : (j k : ℕ) (xs : List ℕ) → j ≤ k → Above k xs → Above j xs
Above-le j k [] h a = tt
Above-le j k (x ∷ xs) h (a, rest) = (omega arith, Above-le j k xs h rest)

insert_cases :
    (x y : ℕ) (ys : List ℕ)
    → ((x ≤ y) × (insert x (y ∷ ys) ≡ x ∷ y ∷ ys))
      ⊎ ((y ≤ x) × (insert x (y ∷ ys) ≡ y ∷ insert x ys))
unfolding insert
insert_cases x y ys = ground arith

insert-Above : (k x : ℕ) (xs : List ℕ) → k ≤ x → Above k xs → Above k (insert x xs)
insert-Above k x [] h a = unfold insert in (h, tt)
insert-Above k x (y ∷ ys) h (a, rest) = elim (insert_cases x y ys) [
  | inl (le, same) ↦ rw same (h, (a, rest))
  | inr (ge, same) ↦ rw same (a, insert-Above k x ys h rest)
]

insert-IsAscending : (x : ℕ) (xs : List ℕ) → IsAscending xs → IsAscending (insert x xs)
insert-IsAscending x [] up = unfold insert in (tt, tt)
insert-IsAscending x (y ∷ ys) (above, up) = elim (insert_cases x y ys) [
  | inl (le, same) ↦ rw same ((le, Above-le x y ys le above), (above, up))
  | inr (ge, same) ↦ rw same (insert-Above y x ys ge above, insert-IsAscending x ys up)
]

pub sort-IsAscending : (xs : List ℕ) → IsAscending (sort xs)
unfolding sort
sort-IsAscending [] = tt
sort-IsAscending (x ∷ xs) = insert-IsAscending x (sort xs) (sort-IsAscending xs)

length-insert : (x : ℕ) (xs : List ℕ) → length (insert x xs) ≡ suc (length xs)
unfolding insert
length-insert x [] = refl
length-insert x (y ∷ ys) = ground (arith, length-insert x ys)

pub length-sort : (xs : List ℕ) → length (sort xs) ≡ length xs
unfolding sort
length-sort [] = refl
length-sort (x ∷ xs) = length-insert x (sort xs) ∙ ap suc (length-sort xs)

Below-insert : (k x : ℕ) (xs : List ℕ) → Below k (insert x xs) → (x ≤ k) × Below k xs
Below-insert k x [] b =
    let one : insert x [] ≡ x ∷ [] = unfold insert in refl in subst (Below k) one b
Below-insert k x (y ∷ ys) b = elim (insert_cases x y ys) [
  | inl (le, same) ↦ subst (Below k) same b
  | inr (ge, same) ↦
      let (first, rest) = subst (Below k) same b in
      let (low, others) = Below-insert k x ys rest in (low, (first, others))
]

pub Below-sort : (k : ℕ) (xs : List ℕ) → Below k (sort xs) → Below k xs
unfolding sort
Below-sort k [] b = tt
Below-sort k (x ∷ xs) b =
    let (first, rest) = Below-insert k x (sort xs) b in (first, Below-sort k xs rest)

Above-latency_at : (k : ℕ) (xs : List ℕ) (i : ℕ) → i < length xs → Above k xs → k ≤ latency_at xs i
unfolding latency_at
Above-latency_at k [] i h a = absurd (omega arith)
Above-latency_at k (x ∷ xs) zero h (a, rest) = a
Above-latency_at k (x ∷ xs) (suc i) h (a, rest) = Above-latency_at k xs i (omega arith) rest

pub latency_at_mono :
    (xs : List ℕ) (i j : ℕ)
    → IsAscending xs
    → i ≤ j
    → j < length xs
    → latency_at xs i ≤ latency_at xs j
unfolding latency_at
latency_at_mono [] i j up le h = absurd (omega arith)
latency_at_mono (x ∷ xs) zero zero up le h = omega arith
latency_at_mono (x ∷ xs) zero (suc j) (above, up) le h = Above-latency_at x xs j (omega arith) above
latency_at_mono (x ∷ xs) (suc i) zero up le h = absurd (omega arith)
latency_at_mono (x ∷ xs) (suc i) (suc j) (above, up) le h =
    latency_at_mono xs i j up (omega arith) (omega arith)

last-Below :
    (x : ℕ) (xs : List ℕ) → IsAscending (x ∷ xs) → Below (latency_at (x ∷ xs) (length xs)) (x ∷ xs)
unfolding latency_at
last-Below x [] up = (omega arith, tt)
last-Below x (y ∷ ys) (above, up) =
    (Above-latency_at x (y ∷ ys) (length ys) (omega arith) above, last-Below y ys up)

pub back-Below : (xs : List ℕ) → IsAscending xs → Below (latency_at xs (length xs - 1)) xs
back-Below [] up = tt
back-Below (x ∷ xs) up =
    let end : length xs ≡ length (x ∷ xs) - 1 = omega arith in
    subst (λ i. Below (latency_at (x ∷ xs) i) (x ∷ xs)) end (last-Below x xs up)
