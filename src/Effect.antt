-- ===== src/Effect.antt =====
-- Python statements that change a state and may raise: what was done before the exception stays
-- done, so the state comes back beside the exception too.

use quest_test.Prelude.{Bool, true, false, if◌then◌else◌, ◌≡◌, ◌≢◌, refl}

pub data Outcome {ℓ} (E : Type ℓ) (A : Type ℓ) : Type ℓ where
  returned : A → Outcome E A
  raised : E → Outcome E A

abbrev pub Action {ℓ} : Type ℓ → Type ℓ → Type ℓ → Type ℓ
Action S E A = S → Outcome E A × S

module _ {ℓ} {S E A : Type ℓ} where
  abbrev pub pure : A → Action S E A
  pure a s = (returned a, s)

  abbrev pub raise : E → Action S E A
  raise e s = (raised e, s)

  -- `except ... as error`: the handler sees the exception.
  abbrev pub handle : Outcome E A × S → (E → Action S E A) → Outcome E A × S
  handle (returned a, s) handler = (returned a, s)
  handle (raised e, s) handler = handler e s

  abbrev pub try_except : Action S E A → (E → Action S E A) → Action S E A
  try_except m handler s = handle (m s) handler

module _ {ℓ} {S E A B : Type ℓ} where
  abbrev pub go_on : Outcome E A × S → (A → Action S E B) → Outcome E B × S
  go_on (returned a, s) f = f a s
  go_on (raised e, s) f = (raised e, s)

  infixl 5 ◌>>=◌ ◌>>◌
  abbrev pub ◌>>=◌ : Action S E A → (A → Action S E B) → Action S E B
  ◌>>=◌ m f s = go_on (m s) f

  abbrev pub ◌>>◌ : Action S E A → Action S E B → Action S E B
  ◌>>◌ m n = m >>= λ _. n

pub raised-returned {ℓ} :
    {E A : Type ℓ} (e : E) (a : A) → ◌≢◌ {A = Outcome E A} (raised e) (returned a)
raised-returned e a h = cc

-- A guard that raises, and the rest: what returns has passed it.
pub passed_guard {ℓ} :
    {E A : Type ℓ} (b : Bool) (e : E) (next : Outcome E A) (a : A)
    → (if b then raised e else next) ≡ returned a
    → (b ≡ false) × (next ≡ returned a)
passed_guard true e next a h = absurd (raised-returned e a h)
passed_guard false e next a h = (refl, h)

-- What a chain of statements returned, its first one returned something to.
pub go_on_inv {ℓ} :
    {S E A B : Type ℓ} (r : Outcome E A × S) (f : A → Action S E B) (b : B)
    → (go_on r f).0 ≡ returned b
    → (a : A) × (r.0 ≡ returned a) × ((f a r.1).0 ≡ returned b)
go_on_inv (returned a, s) f b h = (a, refl, h)
go_on_inv (raised e, s) f b h = absurd (raised-returned e b h)
