-- ===== src/Common/Actions.antt =====
-- Methods that change a state and give a result, in sequence.
abbrev pub Action : Type 0 → Type 0 → Type 0
Action S A = S → A × S

module _ {S A : Type 0} where
  unfoldable pub pure : A → Action S A
  pure a s = (a, s)

  unfoldable pub gets : (S → A) → Action S A
  gets f s = (f s, s)

unfoldable pub modify : {S : Type 0} → (S → S) → Action S (Unit {0})
modify f s = (tt, f s)

infixl 5 ◌>>=◌ ◌>>◌
unfoldable pub ◌>>=◌ : {S A B : Type 0} → Action S A → (A → Action S B) → Action S B
◌>>=◌ m f s = let (a, s') = m s in f a s'

abbrev pub ◌>>◌ : {S A B : Type 0} → Action S A → Action S B → Action S B
m >> k = m >>= λ _. k
