-- ===== src/Exec/Says.antt =====
-- What an action has written by the time it succeeds, composed along its steps.
use smart_door_lock.Base.{
  ℕ, ◌≡◌, ◌∙◌, refl, sym, ap, List, [], ◌++◌, append-nil, append_assoc, subst, Bool, true, false,
}
use smart_door_lock.Exec.{Result, ok, err, fault, Exec, pure, check, continue, ◌>>=◌}

-- Where `m` succeeds, `out` has grown by `bs`.
pub record Says {S A : Type 0} (out : S → List ℕ) (bs : List ℕ) (m : Exec S A) : Type 0 where
  pub at : (s : S) (a : A) → (m s).0 ≡ ok a → out (m s).1 ≡ out s ++ bs

-- Inversion of a sequence that succeeds.
pub bind-ok :
    {S A B : Type 0} (m : Exec S A) (f : A → Exec S B) (s : S) (b : B)
    → ((m >>= f) s).0 ≡ ok b
    → (a : A) × ((m s).0 ≡ ok a) × ((f a (m s).1).0 ≡ ok b)
bind-ok {S} {A} {B} m f s b h = by_result (m s).0 refl h
  where
    by_result :
        (r : Result A)
        → (m s).0 ≡ r
        → (continue r f (m s).1).0 ≡ ok b
        → (a : A) × ((m s).0 ≡ ok a) × ((f a (m s).1).0 ≡ ok b)
    by_result (ok a) p e = (a, p, e)
    by_result err p e = absurd (cc)
    by_result fault p e = absurd (cc)

pub check-ok : {S : Type 0} (b : Bool) (s : S) → (check b s).0 ≡ ok tt → b ≡ true
check-ok true s h = refl
check-ok false s h = absurd (cc)

ok-injective : {A : Type 0} (a b : A) → ok a ≡ ok b → a ≡ b
ok-injective a b h = cc

-- What an action returns satisfies `P`, whatever the state.
pub record Gives {S A : Type 0} (P : A → Type 0) (m : Exec S A) : Type 0 where
  pub at : (s : S) (a : A) → (m s).0 ≡ ok a → P a

pub Gives-pure : {S A : Type 0} {P : A → Type 0} (a : A) → P a → Gives {S = S} P (pure a)
Gives-pure {P = P} a p = record { at = λ s b h. subst P (ok-injective a b h) p }

pub Gives-bind :
    {S A B : Type 0} {P : B → Type 0} (m : Exec S A) (f : A → Exec S B)
    → ((a : A) → Gives P (f a))
    → Gives P (m >>= f)
Gives-bind m f hf = record {
  at = λ s b h. let (a, p, e) = bind-ok m f s b h in (hf a).at (m s).1 b e;
}

module _ {S : Type 0} (out : S → List ℕ) where
  pub Says-pure : {A : Type 0} (a : A) → Says out [] (pure a)
  Says-pure a = record { at = λ s b h. sym (append-nil (out s)) }

  pub Says-check : (b : Bool) → Says out [] (check b)
  Says-check true = record { at = λ s b h. sym (append-nil (out s)) }
  Says-check false = record { at = λ s b h. cc }

  pub Says-bind :
      {A B : Type 0} (bs cs : List ℕ) (m : Exec S A) (f : A → Exec S B)
      → Says out bs m
      → ((a : A) → Says out cs (f a))
      → Says out (bs ++ cs) (m >>= f)
  Says-bind {A} {B} bs cs m f hm hf = record { at = λ s b h. go s (m s).0 (m s).1 b refl refl h }
    where
      go :
          (s : S) (r : Result A) (s' : S) (b : B)
          → (m s).0 ≡ r
          → (m s).1 ≡ s'
          → (continue r f s').0 ≡ ok b
          → out (continue (m s).0 f (m s).1).1 ≡ out s ++ (bs ++ cs)
      go s (ok a) s' b p q h =
          rw (p, q)
            ((hf a).at s' b h
              ∙ ap (λ l. l ++ cs) (ap out (sym q) ∙ hm.at s a p)
              ∙ append_assoc (out s) bs cs)
      go s err s' b p q h = cc
      go s fault s' b p q h = cc

  pub Says-of_eq :
      {A : Type 0} {bs cs : List ℕ} (m : Exec S A) → bs ≡ cs → Says out bs m → Says out cs m
  Says-of_eq m e h = record { at = λ s a p. rw (← e) (h.at s a p) }
