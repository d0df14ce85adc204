-- ===== src/Common/Dict/Entries.antt =====
-- What holds of every entry of a map, under the map's operations.
use mathlib.Core.Path.{◌≡◌, sym, subst}
use mathlib.Core.Logic.{◌≢◌, inl, inr}
use mathlib.Core.Option.{none, some}
use mathlib.Core.List.{[], ◌∷◌}
use native.Mathlib.Omega.{arith}
use multi_player_game.Common.Tests.{Eq, ◌==◌, Bool-cases}
use multi_player_game.Common.Dict.{
  Dict, lookup, emplace, adjust, erase, IsUnique, All, adjust_missing,
}

module _ {ℓ κ ν} {K : Type ℓ} {V : Type κ} ⦃e : Eq K⦄ (P : K → V → Type ν) where
  pub lookup-All : (k : K) (d : Dict K V) {v : V} → All P d → lookup k d ≡ some v → P k v
  unfolding lookup
  lookup-All k [] a h = cc
  lookup-All k ((i, w) ∷ d) {v} a h = elim (Bool-cases (i == k)) [
    | inl hit ↦
        let same : w ≡ v = ground arith in
        subst (P k) same (subst (λ j. P j w) ((e.decides i k).0 hit) a.0)
    | inr miss ↦ lookup-All k d a.1 (rw miss at h)
  ]

  pub erase-All : (k : K) (d : Dict K V) → All P d → All P (erase k d)
  unfolding erase
  erase-All k [] a = tt
  erase-All k ((i, v) ∷ d) a = ground (arith, erase-All k d a.1)

  pub adjust-All :
      (k : K) (f : V → V) (d : Dict K V)
      → ((v : V) → P k v → P k (f v))
      → All P d
      → All P (adjust k f d)
  unfolding adjust
  adjust-All k f [] h a = tt
  adjust-All k f ((i, v) ∷ d) h a = elim (Bool-cases (i == k)) [
    | inl hit ↦ rw hit (
      subst (λ j. P j (f v)) (sym ((e.decides i k).0 hit))
          (h v (subst (λ j. P j v) ((e.decides i k).0 hit) a.0)),
      adjust-All k f d h a.1,
    )
    | inr miss ↦ rw miss (a.0, adjust-All k f d h a.1)
  ]

  pub emplace-All : (k : K) (v : V) (d : Dict K V) → P k v → All P d → All P (emplace k v d)
  unfolding emplace
  emplace-All k v d p a = ground arith

  -- An update may break the property at its own key.
  pub adjust-All-but :
      (k : K) (f : V → V) (d : Dict K V)
      → All (λ j v. j ≢ k → P j v) d
      → All (λ j v. j ≢ k → P j v) (adjust k f d)
  unfolding adjust
  adjust-All-but k f [] a = tt
  adjust-All-but k f ((i, v) ∷ d) a = elim (Bool-cases (i == k)) [
    | inl hit ↦ rw hit ((λ ne. absurd (ne ((e.decides i k).0 hit))), adjust-All-but k f d a.1)
    | inr miss ↦ rw miss (a.0, adjust-All-but k f d a.1)
  ]

  pub All-but : (k : K) (d : Dict K V) → All P d → All (λ j v. j ≢ k → P j v) d
  All-but k [] a = tt
  All-but k ((i, v) ∷ d) a = ((λ _. a.0), All-but k d a.1)

  pub erase-All-but : (k : K) (d : Dict K V) → All (λ j v. j ≢ k → P j v) d → All P (erase k d)
  unfolding erase
  erase-All-but k [] a = tt
  erase-All-but k ((i, v) ∷ d) a = elim (Bool-cases (i == k)) [
    | inl hit ↦ rw hit (erase-All-but k d a.1)
    | inr miss ↦ rw miss (a.0 (λ same. cc ((e.decides i k).1 same)), erase-All-but k d a.1)
  ]

  -- It is enough that the update keeps the property of the value that is there.
  pub adjust-All_found :
      (k : K) (f : V → V) (v : V) (d : Dict K V)
      → IsUnique d
      → lookup k d ≡ some v
      → P k (f v)
      → All P d
      → All P (adjust k f d)
  unfolding adjust lookup
  adjust-All_found k f v [] u h p a = tt
  adjust-All_found k f v ((i, w) ∷ d) u h p a = elim (Bool-cases (i == k)) [
    | inl hit ↦
        let same : i ≡ k = (e.decides i k).0 hit in
        let value : w ≡ v = ground arith in
        rw (hit, adjust_missing k f d (subst (λ j. lookup j d ≡ none) same u.0))
          (subst (λ j. P j (f w)) (sym same) (subst (λ x. P k (f x)) (sym value) p), a.1)
    | inr miss ↦ rw miss (a.0, adjust-All_found k f v d u.1 (rw miss at h) p a.1)
  ]
