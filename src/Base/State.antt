-- ===== src/Base/State.antt =====
-- State passing: a step returns its value and the new state.

abbrev pub St : Type 0 → Type 0 → Type 0
St S A = S → A × S

infixl 5 ◌>>=◌ ◌>>◌
abbrev pub ◌>>=◌ : {S A B : Type 0} → St S A → (A → St S B) → St S B
◌>>=◌ m k s = let r = m s in k r.0 r.1

abbrev pub ◌>>◌ : {S A B : Type 0} → St S A → St S B → St S B
◌>>◌ m k s = k (m s).1

abbrev pub pure : {S A : Type 0} → A → St S A
pure a s = (a, s)
