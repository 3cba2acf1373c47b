-- ===== src/Strtok/Splits.antt =====
-- What `strtok` gives on any array, when its separators do not include the NUL.
use smart_door_lock.Base.{
  ℕ, ◌+◌, ◌≤◌, ◌<◌, ◌≡◌, ◌∙◌, refl, sym, ap, subst, List, [], ◌∷◌, ◌++◌, Bool, true, false, ◌||◌,
  Option, none, some, length, arith, ◌==◌, if◌then◌else◌, Bool-cases, inl, inr, length-append,
}
use smart_door_lock.Base.Bytes.{c_string}
use smart_door_lock.Strtok.{Tok, strtok_in, skip_delims, span_token, close, finish, IsToken}

abbrev put_first : ℕ → List (List ℕ) → List (List ℕ)
put_first c [] = []
put_first c (w ∷ ws) = (c ∷ w) ∷ ws

-- The text cut at every separator.
abbrev cut : (ℕ → Bool) → List ℕ → List (List ℕ)
cut is [] = [] ∷ []
cut is (c ∷ cs) = if is c then [] ∷ cut is cs else put_first c (cut is cs)

abbrev nonempty : List (List ℕ) → List (List ℕ)
nonempty [] = []
nonempty ([] ∷ ws) = nonempty ws
nonempty ((c ∷ w) ∷ ws) = (c ∷ w) ∷ nonempty ws

-- The tokens of a text.
abbrev pub tokens : (ℕ → Bool) → List ℕ → List (List ℕ)
tokens is t = nonempty (cut is t)

pub record IsLine (is : ℕ → Bool) (s line passed : List ℕ) (end_at : ℕ) (rest : List ℕ)
    : Type 0 where
  pub some_bytes : 0 < length line
  pub token : IsToken is line
  pub text : tokens is (c_string s) ≡ line ∷ tokens is (c_string rest)
  pub whole : length passed + length rest ≡ length s
  pub starts : length line ≤ end_at
  pub ends : end_at ≤ length passed

-- What a call with this result has split.
abbrev pub Splits : (ℕ → Bool) → List ℕ → Option (List ℕ) → List ℕ → ℕ → List ℕ → Type 0
Splits is s none passed end_at rest = tokens is (c_string s) ≡ []
Splits is s (some line) passed end_at rest = IsLine is s line passed end_at rest

abbrev pub SplitsTo : (ℕ → Bool) → List ℕ → Tok → Type 0
SplitsTo is s t = Splits is s t.token t.passed t.end_at t.rest

abbrev StopsAt : (ℕ → Bool) → List ℕ → Type 0
StopsAt is [] = Unit
StopsAt is (c ∷ cs) = (c == 0 || is c) ≡ true

abbrev StartsOther : (ℕ → Bool) → List ℕ → Type 0
StartsOther is [] = Unit
StartsOther is (c ∷ cs) = is c ≡ false

module _ (is : ℕ → Bool) (nul : is 0 ≡ false) where
  no_separator : (c : ℕ) → is c ≡ true → (c == 0) ≡ false
  no_separator c e = elim (Bool-cases (c == 0)) [
    | inl zero_c ↦ let c_zero : c ≡ 0 = ground (arith, zero_c) in absurd (cc (e, nul, c_zero))
    | inr other ↦ other
  ]

  skip_delims-tokens :
      (s : List ℕ)
      → (tokens is (c_string s) ≡ tokens is (c_string (skip_delims is s).1))
        × (length (skip_delims is s).0 + length (skip_delims is s).1 ≡ length s)
        × StartsOther is (skip_delims is s).1
  unfolding skip_delims
  skip_delims-tokens [] = (refl, omega arith, tt)
  skip_delims-tokens (c ∷ cs) = elim (Bool-cases (is c)) [
    | inl e ↦
        let (same, len, start) = skip_delims-tokens cs in
        rw (e, no_separator c e, e) (same, omega arith, start)
    | inr e ↦ rw e (refl, omega arith, e)
  ]

  span_token-StopsAt : (s : List ℕ) → StopsAt is (span_token is s).1
  unfolding span_token
  span_token-StopsAt [] = tt
  span_token-StopsAt (c ∷ cs) = elim (Bool-cases (c == 0 || is c)) [
    | inl e ↦ rw e e
    | inr e ↦ rw e (span_token-StopsAt cs)
  ]

  span_token-whole :
      (s : List ℕ)
      → IsToken is (span_token is s).0
        × ((span_token is s).0 ++ (span_token is s).1 ≡ s)
        × (c_string s ≡ (span_token is s).0 ++ c_string (span_token is s).1)
  unfolding span_token
  span_token-whole [] = (tt, refl, refl)
  span_token-whole (c ∷ cs) = elim (Bool-cases (c == 0 || is c)) [
    | inl e ↦ rw e (tt, refl, refl)
    | inr e ↦
        let (token, whole, same) = span_token-whole cs in
        let nonzero : (c == 0) ≡ false = ground (arith, e) in
        let other : is c ≡ false = ground (arith, e) in
        rw (e, nonzero, other) ((refl, token), ap (λ t. c ∷ t) whole, ap (λ t. c ∷ t) same)
  ]

  -- A token, what stops it behind it.
  cut-token :
      (line rest : List ℕ)
      → IsToken is line
      → StopsAt is rest
      → (more : List (List ℕ)) × (cut is (line ++ c_string rest) ≡ line ∷ more)
        × (tokens is (c_string rest) ≡ nonempty more)
  cut-token [] [] token stops = ([], refl, refl)
  cut-token [] (d ∷ rest) token stops = elim (Bool-cases (d == 0)) [
    | inl e ↦ rw e ([], refl, refl)
    | inr e ↦
        let separator : is d ≡ true = ground (arith, stops, e) in
        rw (e, separator) (cut is (c_string rest), refl, refl)
  ]
  cut-token (c ∷ line) rest token stops =
      let (more, same, rest_same) = cut-token line rest token.1 stops in
      let other : is c ≡ false = ground (arith, token.0) in
      (more, rw other (ap (put_first c) same), rest_same)

  tokens-line :
      (c : ℕ) (line rest : List ℕ)
      → IsToken is (c ∷ line)
      → StopsAt is rest
      → tokens is (c ∷ line ++ c_string rest) ≡ (c ∷ line) ∷ tokens is (c_string rest)
  tokens-line c line rest token stops =
      let (more, same, rest_same) = cut-token (c ∷ line) rest token stops in
      ap nonempty same ∙ ap (λ ws. (c ∷ line) ∷ ws) (sym rest_same)

  close-SplitsTo :
      (s skipped line rest : List ℕ)
      → 0 < length line
      → IsToken is line
      → StopsAt is rest
      → length skipped + length (line ++ rest) ≡ length s
      → tokens is (c_string s) ≡ line ∷ tokens is (c_string rest)
      → SplitsTo is s (close skipped line rest)
  close-SplitsTo s skipped line [] some_bytes token stops len text = record {
    some_bytes = some_bytes;
    token = token;
    text = text;
    whole = omega (arith, length-append skipped line, length-append line []);
    starts = omega arith;
    ends = omega (arith, length-append skipped line);
  }
  close-SplitsTo s skipped line (d ∷ rest) some_bytes token stops len text =
      let of_line = length-append line (d ∷ rest) in
      let of_passed = length-append skipped line in
      elim (Bool-cases (d == 0)) [
        | inl e ↦ rw e (record {
          some_bytes = some_bytes;
          token = token;
          text = text;
          whole = omega arith;
          starts = omega arith;
          ends = omega arith;
        })
        | inr e ↦
            let separator : is d ≡ true = ground (arith, stops, e) in
            let behind : tokens is (c_string (d ∷ rest)) ≡ tokens is (c_string rest) =
              rw (e, separator) refl in
            rw e (record {
              some_bytes = some_bytes;
              token = token;
              text = text ∙ ap (λ t. line ∷ t) behind;
              whole =
                  omega
                    (arith, length-append skipped (line ++ 0 ∷ []), length-append line (0 ∷ []));
              starts = omega arith;
              ends =
                  omega
                    (arith, length-append skipped (line ++ 0 ∷ []), length-append line (0 ∷ []));
            })
      ]

  finish-SplitsTo :
      (s skipped s' : List ℕ) (p : List ℕ × List ℕ)
      → tokens is (c_string s) ≡ tokens is (c_string s')
      → length skipped + length s' ≡ length s
      → StartsOther is s'
      → IsToken is p.0
      → StopsAt is p.1
      → p.0 ++ p.1 ≡ s'
      → c_string s' ≡ p.0 ++ c_string p.1
      → SplitsTo is s (finish skipped p)
  finish-SplitsTo s skipped s' ([], []) same len starts token stops whole text =
      same ∙ ap (tokens is) text
  finish-SplitsTo s skipped s' ([], d ∷ rest) same len starts token stops whole text =
      let other : is d ≡ false = subst (StartsOther is) (sym whole) starts in
      let end : (d == 0) ≡ true = ground (arith, stops, other) in
      let empty : c_string (d ∷ rest) ≡ [] = rw end refl in same ∙ ap (tokens is) (text ∙ empty)
  finish-SplitsTo s skipped s' (c ∷ line, rest) same len starts token stops whole text =
      close-SplitsTo s skipped (c ∷ line) rest (omega arith) token stops
        (ap (λ t. length skipped + length t) whole ∙ len)
        (same ∙ ap (tokens is) text ∙ tokens-line c line rest token stops)

  pub strtok_in-SplitsTo : (s : List ℕ) → SplitsTo is s (strtok_in is s)
  unfolding strtok_in
  strtok_in-SplitsTo s =
      let (same, len, starts) = skip_delims-tokens s in
      let s' = (skip_delims is s).1 in
      let (token, whole, text) = span_token-whole s' in
      finish-SplitsTo s (skip_delims is s).0 s' (span_token is s') same len starts token
        (span_token-StopsAt s') whole text
