-- ===== src/RequestHandler/Monad.antt =====
-- Handlers as methods that reply, refuse with a message, or throw.
use multi_player_game.Common.{String, Bool, true, false, Result, ok, err}

pub data Reply (A : Type 0) : Type 0 where
  reply : A → Reply A
  refuse : String → Reply A
  throws : Reply A

abbrev pub Handler : Type 0 → Type 0 → Type 0
Handler S A = S → Reply A × S

module _ {S A : Type 0} where
  abbrev pub pure : A → Handler S A
  pure a w = (reply a, w)

  abbrev pub lift : Reply A → Handler S A
  lift r w = (r, w)

  abbrev pub gets : (S → A) → Handler S A
  gets f w = (reply (f w), w)

abbrev pub modify : {S : Type 0} → (S → S) → Handler S (Unit {0})
modify f w = (reply tt, f w)

abbrev pub refuse_if : {S : Type 0} → Bool → String → Handler S (Unit {0})
refuse_if true e w = (refuse e, w)
refuse_if false e w = (reply tt, w)

infixl 5 ◌>>=◌ ◌>>◌
abbrev pub ◌>>=◌ : {S A B : Type 0} → Handler S A → (A → Handler S B) → Handler S B
◌>>=◌ m f w =
    let (r, w') = m w in
    elim r [ reply a ↦ f a w' | refuse e ↦ (refuse e, w') | throws ↦ (throws, w') ]

abbrev pub ◌>>◌ : {S B : Type 0} → Handler S (Unit {0}) → Handler S B → Handler S B
m >> k = m >>= λ _. k

abbrev pub reply_of : {A : Type 0} → Result A → Reply A
reply_of (ok a) = reply a
reply_of (err e) = refuse e
