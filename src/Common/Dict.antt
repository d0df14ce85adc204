-- ===== src/Common/Dict.antt =====
-- A std::unordered_map as an association list. Its order carries no meaning, and no key is twice
-- in it: IsUnique holds of every map that the operations below build.
pub mod Entries
use Prim.Native.Nat.{ℕ, suc, ◌+◌, ◌≤◌, ◌<◌}
use mathlib.Core.Path.{◌≡◌, refl, sym, subst}
use mathlib.Core.Logic.{inl, inr}
use mathlib.Core.Bool.{Bool, true, false}
use mathlib.Core.Option
use mathlib.Core.Option.{Option, none, some}
use mathlib.Core.List.{List, [], ◌∷◌}
use native.Mathlib.Omega.{arith}
use multi_player_game.Common.Tests.{Eq, ◌==◌, if◌then◌else◌, Bool-cases}
use multi_player_game.Common.Lists.{length}

abbrev pub Dict {ℓ κ} : Type ℓ → Type κ → Type (ℓ ⊔ κ)
Dict K V = List (K × V)

module _ {ℓ κ} {K : Type ℓ} {V : Type κ} ⦃e : Eq K⦄ where
  -- `m.find(k)`
  unfoldable pub lookup : K → Dict K V → Option V
  lookup k [] = none
  lookup k ((j, v) ∷ d) = if j == k then some v else lookup k d

  -- `m.count(k) > 0`
  unfoldable pub contains : K → Dict K V → Bool
  contains k d = elim (lookup k d) [ none ↦ false | some _ ↦ true ]

  -- `m.emplace(k, v)`: a key that is there keeps its value.
  unfoldable pub emplace : K → V → Dict K V → Dict K V
  unfolding contains lookup
  emplace k v d = if contains k d then d else (k, v) ∷ d

  -- Writing through the iterator of `m.find(k)`.
  unfoldable pub adjust : K → (V → V) → Dict K V → Dict K V
  adjust k f [] = []
  adjust k f ((j, v) ∷ d) = (j, if j == k then f v else v) ∷ adjust k f d

  -- `m.erase(it)` at the key k.
  unfoldable pub erase : K → Dict K V → Dict K V
  erase k [] = []
  erase k ((j, v) ∷ d) = if j == k then erase k d else (j, v) ∷ erase k d

  abbrev pub IsUnique : Dict K V → Type κ
  IsUnique [] = Unit {κ}
  IsUnique ((k, v) ∷ d) = (lookup k d ≡ none) × IsUnique d

  -- Every entry, under its key, has the property.
  abbrev pub All {ν} : (K → V → Type ν) → Dict K V → Type ν
  All P [] = Unit
  All P ((k, v) ∷ d) = P k v × All P d

  pub lookup-emplace :
      (j k : K) (v : V) (d : Dict K V)
      → contains k d ≡ false
      → lookup j (emplace k v d) ≡ (if k == j then some v else lookup j d)
  unfolding lookup emplace
  lookup-emplace j k v d h = rw h

  pub lookup-adjust :
      (j k : K) (f : V → V) (d : Dict K V)
      → lookup j (adjust k f d) ≡ (if k == j then Option.map f (lookup j d) else lookup j d)
  unfolding lookup adjust
  lookup-adjust j k f [] = ground arith
  lookup-adjust j k f ((i, v) ∷ d) =
      ground (arith, e.decides i k, e.decides i j, e.decides k j, lookup-adjust j k f d)

  pub lookup-erase :
      (j k : K) (d : Dict K V) → lookup j (erase k d) ≡ (if k == j then none else lookup j d)
  unfolding lookup erase
  lookup-erase j k [] = ground arith
  lookup-erase j k ((i, v) ∷ d) =
      ground (arith, e.decides i k, e.decides i j, e.decides k j, lookup-erase j k d)

  pub emplace-IsUnique : (k : K) (v : V) (d : Dict K V) → IsUnique d → IsUnique (emplace k v d)
  unfolding emplace
  emplace-IsUnique k v d u = ground arith

  pub adjust-IsUnique : (k : K) (f : V → V) (d : Dict K V) → IsUnique d → IsUnique (adjust k f d)
  unfolding adjust
  adjust-IsUnique k f [] u = tt
  adjust-IsUnique k f ((i, v) ∷ d) u =
      ground (arith, adjust-IsUnique k f d u.1, lookup-adjust i k f d)

  pub erase-IsUnique : (k : K) (d : Dict K V) → IsUnique d → IsUnique (erase k d)
  unfolding erase
  erase-IsUnique k [] u = tt
  erase-IsUnique k ((i, v) ∷ d) u = ground (arith, erase-IsUnique k d u.1, lookup-erase i k d)

  pub length-adjust : (k : K) (f : V → V) (d : Dict K V) → length (adjust k f d) ≡ length d
  unfolding adjust
  length-adjust k f [] = refl
  length-adjust k f ((i, v) ∷ d) = omega (arith, length-adjust k f d)

  pub erase_missing : (k : K) (d : Dict K V) → lookup k d ≡ none → erase k d ≡ d
  unfolding lookup erase
  erase_missing k [] h = refl
  erase_missing k ((i, v) ∷ d) h = ground (arith, erase_missing k d)

  -- Erasing a key that is there takes one entry away.
  pub length-erase :
      (k : K) (v : V) (d : Dict K V)
      → IsUnique d
      → lookup k d ≡ some v
      → length (erase k d) + 1 ≡ length d
  unfolding lookup erase
  length-erase k v [] u h = cc
  length-erase k v ((i, w) ∷ d) u h =
      ground (arith, e.decides i k, erase_missing k d, length-erase k v d u.1)

  pub adjust_missing : (k : K) (f : V → V) (d : Dict K V) → lookup k d ≡ none → adjust k f d ≡ d
  unfolding lookup adjust
  adjust_missing k f [] h = refl
  adjust_missing k f ((i, v) ∷ d) h = ground (arith, adjust_missing k f d)
