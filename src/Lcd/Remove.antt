-- ===== src/Lcd/Remove.antt =====
-- `remove_char`, which edits a string in its array, against the list without the character.
mod Loop
use smart_door_lock.Base.{
  ℕ, zero, suc, ◌+◌, ◌-◌, ◌≤◌, ◌<◌, ◌≡◌, ◌≢◌, ◌∙◌, refl, sym, ap, subst, List, [], ◌∷◌, ◌++◌, Bool,
  true, false, Option, none, some, length, append-nil, append_assoc, set, take, drop, ltb, ◌==◌,
  if◌then◌else◌, All, arith, length-set, length-drop, length-append, Bool-cases, inl, inr,
}
use smart_door_lock.Base.Bytes.{c_string}
use smart_door_lock.Lcd.{skip_char, remove_loop, remove_char, ended, ◌>>=◌}
pub use smart_door_lock.Lcd.Remove.Loop.{without}
use smart_door_lock.Lcd.Remove.Loop.{Removes, remove_loop-Removes}

-- The array as a C string when a NUL is put behind a text without one.
c_string-set :
    (s : List ℕ) (k : ℕ)
    → k < length s
    → All (λ c. c ≢ 0) (take k s)
    → c_string (set s k 0) ≡ take k s
c_string-set [] k h a = absurd (omega arith)
c_string-set (x ∷ s) zero h a = refl
c_string-set (x ∷ s) (suc k) h a =
    let x_stays : (x == 0) ≡ false = ground (arith, a.0) in
    rw x_stays (ap (λ l. x ∷ l) (c_string-set s k (omega arith) a.1))

c_string-text : (t rest : List ℕ) → All (λ c. c ≢ 0) t → c_string (t ++ 0 ∷ rest) ≡ t
c_string-text [] rest a = refl
c_string-text (x ∷ t) rest a =
    let x_stays : (x == 0) ≡ false = ground (arith, a.0) in
    rw x_stays (ap (λ l. x ∷ l) (c_string-text t rest a.1))

without-ne : (rm : ℕ) (t : List ℕ) → All (λ c. c ≢ 0) t → All (λ c. c ≢ 0) (without rm t)
without-ne rm [] a = tt
without-ne rm (c ∷ t) a = elim (Bool-cases (c == rm)) [
  | inl e ↦ rw e (without-ne rm t a.1)
  | inr e ↦ rw e (a.0, without-ne rm t a.1)
]

length-without : (rm : ℕ) (t : List ℕ) → length (without rm t) ≤ length t
length-without rm [] = omega arith
length-without rm (c ∷ t) = ground (arith, length-without rm t)

-- On an array that holds a text with a NUL behind it, `remove_char` with another character than NUL
-- ends without an access outside the array; the array then holds the text without that character, its
-- size is the same, and the new length is returned.
pub remove_char-without :
    (rm : ℕ) (t rest : List ℕ)
    → 0 ≢ rm
    → All (λ c. c ≢ 0) t
    → (out : List ℕ) × (remove_char (t ++ 0 ∷ rest) rm ≡ some (out, length (without rm t)))
      × (c_string out ≡ without rm t)
      × (length out ≡ length (t ++ 0 ∷ rest))
unfolding remove_char
remove_char-without rm t rest h a =
    let s = t ++ 0 ∷ rest in
    let k = length (without rm t) in
    let str = c_string-text t rest a in
    let r = remove_loop-Removes (length t + 1) rm s 0 0 t rest h (omega arith) (omega arith) refl in
    let zero_len : 0 + length t ≡ length t = omega arith in
    let zero_k : 0 + k ≡ k = omega arith in
    let kept : take k r.out ≡ without rm t = ap (λ n. take n r.out) (sym zero_k) ∙ r.kept in
    let room : k < length r.out =
      omega (arith, r.same_length, length-append t (0 ∷ rest), length-without rm t) in
    (
      set r.out k 0,
      ap (λ (n : ℕ). remove_loop (n + 1) rm s 0 0 n >>= ended) (ap length str)
          ∙ ap (λ (n : ℕ). remove_loop (length t + 1) rm s 0 0 n >>= ended) (sym zero_len)
          ∙ ap (λ o. o >>= ended) r.returns
          ∙ ap (λ n. some (set r.out n 0, n)) zero_k,
      c_string-set r.out k room (rw kept (without-ne rm t a)) ∙ kept,
      length-set r.out k 0 ∙ r.same_length,
    )
