-- ===== src/Exec.antt =====
-- The C functions that return 0, or -1 at once when a step fails: actions on a state, which comes
-- back as the steps before the failure left it. An access outside an array is a `fault`.
pub mod Says
use smart_door_lock.Base.{◌≡◌, refl, Bool, true, false, Option, none, some}

pub data Result {ℓ} (A : Type ℓ) : Type ℓ where
  ok : A → Result A
  err : Result A
  fault : Result A

abbrev pub Exec {ℓ} : Type ℓ → Type ℓ → Type ℓ
Exec S A = S → Result A × S

module _ {ℓ} {S A : Type ℓ} where
  abbrev pub pure : A → Exec S A
  pure a s = (ok a, s)

  -- `return -1`
  abbrev pub raise : Exec S A
  raise s = (err, s)

  abbrev pub crash : Exec S A
  crash s = (fault, s)

module _ {ℓ} {S A B : Type ℓ} where
  abbrev pub continue : Result A → (A → Exec S B) → Exec S B
  continue (ok a) f s = f a s
  continue err f s = (err, s)
  continue fault f s = (fault, s)

  infixl 10 ◌>>=◌ ◌>>◌
  abbrev pub ◌>>=◌ : Exec S A → (A → Exec S B) → Exec S B
  ◌>>=◌ m f s = let (r, s') = m s in continue r f s'

  abbrev pub ◌>>◌ : Exec S A → Exec S B → Exec S B
  m >> n = m >>= λ _. n

-- `if (!test) return -1;`
abbrev pub check : {S : Type 0} → Bool → Exec S Unit
check true s = (ok tt, s)
check false s = (err, s)
