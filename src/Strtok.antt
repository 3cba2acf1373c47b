-- ===== src/Strtok.antt =====
-- The C library: `strtok` as it works on an array: what it returns, and what it leaves in the array.
pub mod Splits
use smart_door_lock.Base.{
  ℕ, ◌+◌, ◌≡◌, ◌∙◌, ap, List, [], ◌∷◌, ◌++◌, Bool, true, false, ◌||◌, Option, none, some, length,
  All, arith, ◌==◌, if◌then◌else◌,
}

abbrev pub is_comma : ℕ → Bool
is_comma c = c == b','

abbrev pub is_comma_quote : ℕ → Bool
is_comma_quote c = c == b',' || c == b'"'

abbrev pub is_comma_quote_bracket : ℕ → Bool
is_comma_quote_bracket c = c == b',' || (c == b'"' || c == b')')

-- The bytes that were passed, as they are then, the number of them up to the token's end, and the
-- array from where the next call goes on. The end of the list counts as a NUL.
pub record Tok : Type 0 where
  pub token : Option (List ℕ)
  pub passed : List ℕ
  pub end_at : ℕ
  pub rest : List ℕ

unfoldable pub skip_delims : (ℕ → Bool) → List ℕ → List ℕ × List ℕ
skip_delims is [] = ([], [])
skip_delims is (c ∷ cs) =
    let (skipped, rest) = skip_delims is cs in if is c then (c ∷ skipped, rest) else ([], c ∷ cs)

unfoldable pub span_token : (ℕ → Bool) → List ℕ → List ℕ × List ℕ
span_token is [] = ([], [])
span_token is (c ∷ cs) =
    let (token, rest) = span_token is cs in
    if c == 0 || is c then ([], c ∷ cs) else (c ∷ token, rest)

-- A separator behind the token becomes a NUL, and the next call goes on behind it.
abbrev pub close : List ℕ → List ℕ → List ℕ → Tok
close skipped token [] = record {
  token = some token;
  passed = skipped ++ token;
  end_at = length skipped + length token;
  rest = [];
}
close skipped token (d ∷ rest) =
    if d == 0
    then record {
      token = some token;
      passed = skipped ++ token;
      end_at = length skipped + length token;
      rest = d ∷ rest;
    }
    else record {
      token = some token;
      passed = skipped ++ (token ++ 0 ∷ []);
      end_at = length skipped + length token;
      rest = rest;
    }

abbrev pub finish : List ℕ → List ℕ × List ℕ → Tok
finish skipped ([], rest) = record {
  token = none;
  passed = skipped;
  end_at = length skipped;
  rest = rest;
}
finish skipped (c ∷ token, rest) = close skipped (c ∷ token) rest

unfoldable pub strtok_in : (ℕ → Bool) → List ℕ → Tok
unfolding skip_delims span_token
strtok_in is s = let (skipped, s') = skip_delims is s in finish skipped (span_token is s')

-- Bytes of a token: no separator and no NUL.
abbrev pub IsToken : (ℕ → Bool) → List ℕ → Type 0
IsToken is = All (λ c. (c == 0 || is c) ≡ false)

span_token-lem :
    (is : ℕ → Bool) (token : List ℕ) (d : ℕ) (rest : List ℕ)
    → IsToken is token
    → is d ≡ true
    → span_token is (token ++ d ∷ rest) ≡ (token, d ∷ rest)
unfolding span_token
span_token-lem is [] d rest h e = ground (arith, e)
span_token-lem is (c ∷ token) d rest h e = rw (h.0, span_token-lem is token d rest h.1 e)

skip_delims-none :
    (is : ℕ → Bool) (c : ℕ) (cs : List ℕ) → is c ≡ false → skip_delims is (c ∷ cs) ≡ ([], c ∷ cs)
unfolding skip_delims
skip_delims-none is c cs h = rw h

skip_delims-one :
    (is : ℕ → Bool) (a c : ℕ) (cs : List ℕ)
    → is a ≡ true
    → is c ≡ false
    → skip_delims is (a ∷ c ∷ cs) ≡ (a ∷ [], c ∷ cs)
unfolding skip_delims
skip_delims-one is a c cs before first = rw (before, first)

-- A token with a separator behind it, at the very start.
pub strtok_in-token :
    (is : ℕ → Bool) (c : ℕ) (token : List ℕ) (d : ℕ) (rest : List ℕ)
    → IsToken is (c ∷ token)
    → is c ≡ false
    → is d ≡ true
    → (d == 0) ≡ false
    → strtok_in is (c ∷ token ++ d ∷ rest) ≡ record {
      token = some (c ∷ token);
      passed = c ∷ token ++ 0 ∷ [];
      end_at = 0 + length (c ∷ token);
      rest = rest;
    }
unfolding strtok_in
strtok_in-token is c token d rest h first e nonzero =
    ap (λ (p : List ℕ × List ℕ). finish p.0 (span_token is p.1))
      (skip_delims-none is c (token ++ d ∷ rest) first)
    ∙ ap (finish []) (span_token-lem is (c ∷ token) d rest h e)
    ∙ rw nonzero

-- The same behind one separator.
pub strtok_in-second :
    (is : ℕ → Bool) (a c : ℕ) (token : List ℕ) (d : ℕ) (rest : List ℕ)
    → is a ≡ true
    → IsToken is (c ∷ token)
    → is c ≡ false
    → is d ≡ true
    → (d == 0) ≡ false
    → strtok_in is (a ∷ c ∷ token ++ d ∷ rest) ≡ record {
      token = some (c ∷ token);
      passed = a ∷ c ∷ token ++ 0 ∷ [];
      end_at = 1 + length (c ∷ token);
      rest = rest;
    }
unfolding strtok_in
strtok_in-second is a c token d rest before h first e nonzero =
    ap (λ (p : List ℕ × List ℕ). finish p.0 (span_token is p.1))
      (skip_delims-one is a c (token ++ d ∷ rest) before first)
    ∙ ap (finish (a ∷ [])) (span_token-lem is (c ∷ token) d rest h e)
    ∙ rw nonzero
