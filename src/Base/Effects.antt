-- ===== src/Base/Effects.antt =====
-- What a call on a Go channel may do to the goroutine that makes it.

pub data Effect {ℓ} (A : Type ℓ) : Type ℓ where
  ok : A → Effect A
  panic : Effect A
  blocks : Effect A

infixl 5 ◌>>=◌
abbrev pub ◌>>=◌ {ℓ κ} : {A : Type ℓ} {B : Type κ} → Effect A → (A → Effect B) → Effect B
ok a >>= f = f a
panic >>= f = panic
blocks >>= f = blocks
