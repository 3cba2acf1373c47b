-- ===== src/Lcd/Remove/Loop.antt =====
-- The loop of `remove_char`: what it has written when it ends.
use smart_door_lock.Base.{
  ℕ, zero, suc, ◌+◌, ◌-◌, ◌≤◌, ◌<◌, ◌≡◌, ◌≢◌, ◌∙◌, refl, sym, ap, List, [], ◌∷◌, ◌++◌, true, false,
  Option, some, length, append-nil, append_assoc, set, take, drop, ltb, ◌==◌, if◌then◌else◌, arith,
  length-set, length-drop, length-append, Bool-cases, inl, inr,
}
use smart_door_lock.Lcd.{skip_char, remove_loop}

-- The text without a character.
abbrev pub without : ℕ → List ℕ → List ℕ
without rm [] = []
without rm (c ∷ cs) = if c == rm then without rm cs else c ∷ without rm cs

-- The text behind its leading characters `rm`.
abbrev behind : ℕ → List ℕ → List ℕ
behind rm [] = []
behind rm (c ∷ cs) = if c == rm then behind rm cs else c ∷ cs

without-behind : (rm : ℕ) (t : List ℕ) → without rm (behind rm t) ≡ without rm t
without-behind rm [] = refl
without-behind rm (c ∷ t) = ground (arith, without-behind rm t)

length-behind : (rm : ℕ) (t : List ℕ) → length (behind rm t) ≤ length t
length-behind rm [] = omega arith
length-behind rm (c ∷ t) = ground (arith, length-behind rm t)

-- The first byte of a text in its array: the NUL behind an empty one.
abbrev first : List ℕ → ℕ
first [] = 0
first (c ∷ t) = c

skip_char-behind :
    (rm : ℕ) (t rest : List ℕ) (j size : ℕ)
    → 0 ≢ rm
    → length t ≤ size
    → skip_char rm (t ++ 0 ∷ rest) j size
      ≡ some (
        j + (length t - length (behind rm t)),
        size - (length t - length (behind rm t)),
        first (behind rm t),
      )
unfolding skip_char
skip_char-behind rm [] rest j size h le = ground arith
skip_char-behind rm (c ∷ t) rest j size h le =
    ground (arith, skip_char-behind rm t rest (j + 1) (size - 1), length-behind rm t)

-- What stands behind the skipped characters.
drop-behind :
    (rm : ℕ) (t rest : List ℕ)
    → drop (length t - length (behind rm t)) (t ++ rest) ≡ behind rm t ++ rest
drop-behind rm [] rest = refl
drop-behind rm (c ∷ t) rest = elim (Bool-cases (c == rm)) [
  | inl e ↦
      let n : suc (length t) - length (behind rm t) ≡ suc (length t - length (behind rm t)) =
        omega (arith, length-behind rm t) in
      rw e (ap (λ k. drop k (c ∷ (t ++ rest))) n ∙ drop-behind rm t rest)
  | inr e ↦
      let n : suc (length t) - suc (length t) ≡ 0 = omega arith in
      rw e (ap (λ k. drop k (c ∷ (t ++ rest))) n)
]

head-behind : (rm : ℕ) (t : List ℕ) (a : ℕ) (u : List ℕ) → behind rm t ≡ a ∷ u → (a == rm) ≡ false
head-behind rm [] a u h = absurd (cc)
head-behind rm (c ∷ t) a u h = elim (Bool-cases (c == rm)) [
  | inl e ↦ head-behind rm t a u (let h' = rw e at h in h')
  | inr e ↦ let h' = rw e at h in ground (arith, e)
]

take-set : (s : List ℕ) (i c : ℕ) → i < length s → take (suc i) (set s i c) ≡ take i s ++ c ∷ []
take-set [] i c h = absurd (omega arith)
take-set (x ∷ s) zero c h = refl
take-set (x ∷ s) (suc i) c h = ap (λ l. x ∷ l) (take-set s i c (omega arith))

take-set_le : (s : List ℕ) (i k c : ℕ) → k ≤ i → take k (set s i c) ≡ take k s
take-set_le s i zero c h = refl
take-set_le [] i (suc k) c h = refl
take-set_le (x ∷ s) zero (suc k) c h = absurd (omega arith)
take-set_le (x ∷ s) (suc i) (suc k) c h = ap (λ l. x ∷ l) (take-set_le s i k c (omega arith))

drop-set : (s : List ℕ) (i k c : ℕ) → i < k → drop k (set s i c) ≡ drop k s
drop-set [] i k c h = refl
drop-set (x ∷ s) i zero c h = absurd (omega arith)
drop-set (x ∷ s) zero (suc k) c h = refl
drop-set (x ∷ s) (suc i) (suc k) c h = drop-set s i k c (omega arith)

drop-nil : (k : ℕ) → drop {A = ℕ} k [] ≡ []
drop-nil zero = refl
drop-nil (suc k) = refl

drop-drop : (s : List ℕ) (i k : ℕ) → drop k (drop i s) ≡ drop (i + k) s
drop-drop s zero k = ap (λ n. drop n s) (omega arith)
drop-drop [] (suc i) k = drop-nil k ∙ sym (drop-nil (suc i + k))
drop-drop (x ∷ s) (suc i) k =
    let e : suc (i + k) ≡ suc i + k = omega arith in drop-drop s i k ∙ ap (λ n. drop n (x ∷ s)) e

-- What the loop leaves of the rest `t` of the text, from the place `i` on.
pub record Removes (rm : ℕ) (s : List ℕ) (i : ℕ) (t : List ℕ) (result : Option (List ℕ × ℕ))
    : Type 0 where
  pub out : List ℕ
  pub returns : result ≡ some (out, i + length (without rm t))
  pub kept : take (i + length (without rm t)) out ≡ take i s ++ without rm t
  pub same_length : length out ≡ length s

remove_loop-ends :
    (f rm : ℕ) (s : List ℕ) (i j size : ℕ)
    → 0 < f
    → size ≤ i
    → remove_loop f rm s i j size ≡ some (s, size)
unfolding remove_loop
remove_loop-ends zero rm s i j size pos h = absurd (omega arith)
remove_loop-ends (suc f) rm s i j size pos h = ground arith

-- A round at the place `i`, with the rest `t` at `j`.
module _ (rm : ℕ) (s : List ℕ) (i j : ℕ) (t rest : List ℕ) (h : 0 ≢ rm)
    (at_j : drop j s ≡ t ++ 0 ∷ rest) where
  abbrev gone : ℕ
  gone = length t - length (behind rm t)

  abbrev stored : List ℕ
  stored = set s i (first (behind rm t))

  remove_loop-round :
      (f : ℕ)
      → 0 < length t
      → remove_loop (suc f) rm s i j (i + length t)
        ≡ remove_loop f rm stored (i + 1) (j + gone + 1) (i + length t - gone)
  unfolding remove_loop
  remove_loop-round f some_left =
      let more : ltb i (i + length t) ≡ true = ground arith in
      rw (more, at_j, skip_char-behind rm t rest j (i + length t) h (omega arith))

  in_array : i ≤ j → i < length s
  in_array le = omega (arith, ap (length {0}) at_j, length-drop j s, length-append t (0 ∷ rest))

  at_next :
      (u : List ℕ) (a : ℕ)
      → i ≤ j
      → behind rm t ≡ a ∷ u
      → drop (j + gone + 1) stored ≡ u ++ 0 ∷ rest
  at_next u a le e =
      drop-set s i (j + gone + 1) (first (behind rm t)) (omega arith)
      ∙ ap (λ k. drop k s) (omega arith)
      ∙ sym (drop-drop s j (gone + 1))
      ∙ ap (drop (gone + 1)) at_j
      ∙ sym (drop-drop (t ++ 0 ∷ rest) gone 1)
      ∙ ap (drop 1) (drop-behind rm t (0 ∷ rest) ∙ ap (λ b. b ++ 0 ∷ rest) e)

  last-Removes :
      (f : ℕ)
      → 0 < length t
      → length t < suc f
      → i ≤ j
      → behind rm t ≡ []
      → Removes rm s i t (remove_loop (suc f) rm s i j (i + length t))
  last-Removes f some_left fuel le e =
      let none_kept : without rm t ≡ [] = sym (without-behind rm t) ∙ ap (without rm) e in
      let b : length (behind rm t) ≡ 0 = ap (length {0}) e in
      let w : length (without rm t) ≡ 0 = ap (length {0}) none_kept in
      let size : i + length t - gone ≡ i + length (without rm t) = omega arith in
      record {
        out = stored;
        returns =
            remove_loop-round f some_left
            ∙ remove_loop-ends f rm stored (i + 1) (j + gone + 1) (i + length t - gone)
                (omega arith) (omega arith)
            ∙ ap (λ k. some (stored, k)) size;
        kept =
            ap (λ k. take k stored) (omega arith)
            ∙ take-set_le s i i (first (behind rm t)) (omega arith)
            ∙ sym (append-nil (take i s))
            ∙ ap (λ l. take i s ++ l) (sym none_kept);
        same_length = length-set s i (first (behind rm t));
      }

  next-Removes :
      (f : ℕ) (a : ℕ) (u : List ℕ)
      → 0 < length t
      → i ≤ j
      → behind rm t ≡ a ∷ u
      → Removes rm stored
          (i + 1)
          u
          (remove_loop f rm stored (i + 1) (j + gone + 1) (i + 1 + length u))
      → Removes rm s i t (remove_loop (suc f) rm s i j (i + length t))
  next-Removes f a u some_left le e r =
      let kept_a : without rm t ≡ a ∷ without rm u =
        sym (without-behind rm t) ∙ ap (without rm) e ∙ rw (head-behind rm t a u e) in
      let b : length (behind rm t) ≡ suc (length u) = ap (length {0}) e in
      let w : length (without rm t) ≡ suc (length (without rm u)) = ap (length {0}) kept_a in
      let le_t = length-behind rm t in
      let one : i + 1 ≡ suc i = omega arith in
      let count : i + 1 + length (without rm u) ≡ i + length (without rm t) = omega arith in
      record {
        out = r.out;
        returns =
            remove_loop-round f some_left
            ∙ ap (remove_loop f rm stored (i + 1) (j + gone + 1)) (omega arith)
            ∙ r.returns
            ∙ ap (λ k. some (r.out, k)) count;
        kept =
            ap (λ k. take k r.out) (sym count)
            ∙ r.kept
            ∙ ap (λ l. l ++ without rm u)
                (ap (λ k. take k stored) one
                  ∙ take-set s i (first (behind rm t)) (in_array le)
                  ∙ ap (λ x. take i s ++ first x ∷ []) e)
            ∙ append_assoc (take i s) (a ∷ []) (without rm u)
            ∙ ap (λ l. take i s ++ l) (sym kept_a);
        same_length = r.same_length ∙ length-set s i (first (behind rm t));
      }

pub remove_loop-Removes :
    (f rm : ℕ) (s : List ℕ) (i j : ℕ) (t rest : List ℕ)
    → 0 ≢ rm
    → length t < f
    → i ≤ j
    → drop j s ≡ t ++ 0 ∷ rest
    → Removes rm s i t (remove_loop f rm s i j (i + length t))
remove_loop-Removes zero rm s i j t rest h fuel le at_j = absurd (omega arith)
remove_loop-Removes (suc f) rm s i j [] rest h fuel le at_j = record {
  out = s;
  returns = remove_loop-ends (suc f) rm s i j (i + 0) (omega arith) (omega arith);
  kept = ap (λ k. take k s) (omega arith) ∙ sym (append-nil (take i s));
  same_length = refl;
}
remove_loop-Removes (suc f) rm s i j (c ∷ t) rest h fuel le at_j =
    by_behind (behind rm (c ∷ t)) refl
      (λ s' i' j' u lt le'. remove_loop-Removes f rm s' i' j' u rest h lt le')
  where
    by_behind :
        (u : List ℕ)
        → behind rm (c ∷ t) ≡ u
        → ((s' : List ℕ) (i' j' : ℕ) (u' : List ℕ)
            → length u' < f
            → i' ≤ j'
            → drop j' s' ≡ u' ++ 0 ∷ rest
            → Removes rm s' i' u' (remove_loop f rm s' i' j' (i' + length u')))
        → Removes rm s i (c ∷ t) (remove_loop (suc f) rm s i j (i + length (c ∷ t)))
    by_behind [] e ih = last-Removes rm s i j (c ∷ t) rest h at_j f (omega arith) fuel le e
    by_behind (a ∷ u) e ih = next-Removes rm s i j (c ∷ t) rest h at_j f a u (omega arith) le e (
        ih _ (i + 1) _ u (omega (arith, length-behind rm (c ∷ t), ap (length {0}) e)) (omega arith)
          (at_next rm s i j (c ∷ t) rest h at_j u a le e))
