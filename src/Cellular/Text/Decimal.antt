-- ===== src/Cellular/Text/Decimal.antt =====
-- `%d` and `strtol`: printing a number and reading it back, with what follows it.
use smart_door_lock.Base.{
  ℕ, zero, suc, ◌+◌, ◌*◌, ◌/◌, ◌%◌, ◌≤◌, ◌<◌, ◌≡◌, ◌⊎◌, ◌∙◌, inl, inr, refl, sym, ap, List, [], ◌∷◌,
  ◌++◌, false, arith, ltb, le→ltb, lt→ltb, Bool-cases,
}
use smart_door_lock.Base.Bytes.{c_string}
use smart_door_lock.Cellular.Text.{strtol, digits_from, decimal, read_digits, is_digit, clamp_pos}

-- One digit, and more digits.
digits_from-small : (f n : ℕ) (acc : List ℕ) → n < 10 → digits_from (suc f) n acc ≡ (b'0' + n) ∷ acc
unfolding digits_from
digits_from-small f n acc h = rw (lt→ltb n 10 h)

digits_from-big :
    (f n : ℕ) (acc : List ℕ)
    → 10 ≤ n
    → digits_from (suc f) n acc ≡ digits_from f (n / 10) ((b'0' + n % 10) ∷ acc)
unfolding digits_from
digits_from-big f n acc h = rw (le→ltb n 10 h)

read_digits-digit :
    (a d : ℕ) (cs : List ℕ) → d < 10 → read_digits a ((b'0' + d) ∷ cs) ≡ read_digits (a * 10 + d) cs
unfolding read_digits
read_digits-digit a d cs h = ground arith

small_or_big : (n : ℕ) → (n < 10) ⊎ (10 ≤ n)
small_or_big n = elim (Bool-cases (ltb n 10)) [
  | inl h ↦ inl (ground arith)
  | inr h ↦ inr (ground arith)
]

read_digits-digits_from :
    (f n : ℕ) (acc : List ℕ) → n < f → read_digits 0 (digits_from f n acc) ≡ read_digits n acc
read_digits-digits_from zero n acc h = absurd (omega arith)
read_digits-digits_from (suc f) n acc h = elim (small_or_big n) [
  | inl small ↦
      rw (digits_from-small f n acc small, read_digits-digit 0 n acc small)
        (ap (λ k. read_digits k acc) (omega arith))
  | inr big ↦
      rw
        (
          digits_from-big f n acc big,
          read_digits-digits_from f (n / 10) ((b'0' + n % 10) ∷ acc) (omega arith),
          read_digits-digit (n / 10) (n % 10) acc (omega arith),
        )
        (ap (λ k. read_digits k acc) (omega arith))
]

-- The text begins with a digit.
digits_from-head :
    (f n : ℕ) (acc : List ℕ)
    → n < f
    → (d : ℕ) × (cs : List ℕ) × (d < 10) × (digits_from f n acc ≡ (b'0' + d) ∷ cs)
digits_from-head zero n acc h = absurd (omega arith)
digits_from-head (suc f) n acc h = elim (small_or_big n) [
  | inl small ↦ (n, acc, small, digits_from-small f n acc small)
  | inr big ↦
      let (d, cs, lt, e) = digits_from-head f (n / 10) ((b'0' + n % 10) ∷ acc) (omega arith) in
      (d, cs, lt, digits_from-big f n acc big ∙ e)
]

-- It holds no NUL.
pub c_string-digits_from :
    (f n : ℕ) (acc : List ℕ)
    → n < f
    → c_string (digits_from f n acc) ≡ digits_from f n (c_string acc)
c_string-digits_from zero n acc h = absurd (omega arith)
c_string-digits_from (suc f) n acc h = elim (small_or_big n) [
  | inl small ↦
      rw (digits_from-small f n acc small, digits_from-small f n (c_string acc) small)
        (ground arith)
  | inr big ↦
      let step : c_string ((b'0' + n % 10) ∷ acc) ≡ (b'0' + n % 10) ∷ c_string acc = ground arith in
      rw (digits_from-big f n acc big, digits_from-big f n (c_string acc) big)
        (c_string-digits_from f (n / 10) ((b'0' + n % 10) ∷ acc) (omega arith)
          ∙ ap (digits_from f (n / 10)) step)
]

digits_from-append :
    (f n : ℕ) (acc rest : List ℕ)
    → n < f
    → digits_from f n acc ++ rest ≡ digits_from f n (acc ++ rest)
digits_from-append zero n acc rest h = absurd (omega arith)
digits_from-append (suc f) n acc rest h = elim (small_or_big n) [
  | inl small ↦ rw (digits_from-small f n acc small, digits_from-small f n (acc ++ rest) small)
  | inr big ↦
      rw (digits_from-big f n acc big, digits_from-big f n (acc ++ rest) big)
        (digits_from-append f (n / 10) ((b'0' + n % 10) ∷ acc) rest (omega arith))
]

pub decimal-append : (n : ℕ) (rest : List ℕ) → decimal n ++ rest ≡ digits_from (suc n) n rest
unfolding decimal
decimal-append n rest = digits_from-append (suc n) n [] rest (omega arith)

-- A text that begins with a digit is read from its first character on.
strtol-digit :
    (d : ℕ) (cs : List ℕ)
    → d < 10
    → strtol ((b'0' + d) ∷ cs) ≡ clamp_pos (read_digits 0 ((b'0' + d) ∷ cs))
unfolding strtol
strtol-digit d cs h = ground arith

-- What follows a number does not begin with a digit.
abbrev pub Ends : List ℕ → Type 0
Ends [] = Unit
Ends (c ∷ cs) = is_digit c ≡ false

read_digits-Ends : (n : ℕ) (rest : List ℕ) → Ends rest → read_digits n rest ≡ n
unfolding read_digits
read_digits-Ends n [] h = refl
read_digits-Ends n (c ∷ cs) h = rw h

-- `strtol` reads a number that `%d` printed, up to the first character that is no digit.
pub strtol-digits_from :
    (n : ℕ) (rest : List ℕ) → Ends rest → strtol (digits_from (suc n) n rest) ≡ clamp_pos n
strtol-digits_from n rest h =
    let (d, cs, lt, e) = digits_from-head (suc n) n rest (omega arith) in
    rw e (strtol-digit d cs lt)
    ∙ ap (λ t. clamp_pos (read_digits 0 t)) (sym e)
    ∙ ap clamp_pos
        (read_digits-digits_from (suc n) n rest (omega arith) ∙ read_digits-Ends n rest h)
