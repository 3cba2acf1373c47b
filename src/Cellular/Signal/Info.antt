-- ===== src/Cellular/Signal/Info.antt =====
-- The signal information: which replies get past the guard, and which fields of a line are returned.
use smart_door_lock.Base.{
  ℕ, ◌≡◌, ◌≢◌, ◌∙◌, refl, sym, ap, List, [], ◌∷◌, ◌++◌, append-nil, append_assoc, Bool, true, false,
  not, ◌||◌, arith, All, length, drop, if◌then◌else◌, some,
}
use smart_door_lock.Base.Bytes.{codes}
use smart_door_lock.SerialIo.{SerialIo}
use smart_door_lock.Exec.{ok, Exec, raise}
use smart_door_lock.Exec.Says.{bind-ok}
use smart_door_lock.Cellular.{State, exchange, has}
use smart_door_lock.Cellular.Text.{smoni, long_time, strtol}
use smart_door_lock.Cellular.Signal.{
  is_comma, skip_commas, cut, strtok, drop_tokens, SignalInfo, put_technology, Parsed, parse_2g,
  parse_3g, parse_fields, cellular_get_signal_info,
}

abbrev pub IsField : List ℕ → Type 0
IsField [] = ⊥
IsField (c ∷ cs) = All (λ x. x ≢ b',') (c ∷ cs)

-- Fields, each with the comma behind it, and a rest.
abbrev pub joined : List (List ℕ) → List ℕ → List ℕ
joined [] rest = rest
joined (t ∷ ts) rest = t ++ b',' ∷ joined ts rest

cut-field :
    (token t rest : List ℕ)
    → All (λ x. x ≢ b',') t
    → cut token (t ++ b',' ∷ rest) ≡ (token ++ t, rest)
unfolding cut
cut-field token [] rest h = ap (λ l. (l, rest)) (sym (append-nil token))
cut-field token (c ∷ t) rest h =
    let other : is_comma c ≡ false = ground (arith, h.0) in
    rw (other, cut-field (token ++ (c ∷ [])) t rest h.1)
      (ap (λ l. (l, rest)) (append_assoc token (c ∷ []) t))

strtok-field : (t rest : List ℕ) → IsField t → strtok (t ++ b',' ∷ rest) ≡ some (t, rest)
unfolding strtok
strtok-field [] rest h = absurd h
strtok-field (c ∷ t) rest h =
    let other : is_comma c ≡ false = ground (arith, h.0) in
    let whole = cut-field [] (c ∷ t) rest h in rw (skip_commas, other) (ap some whole)

drop_tokens-joined :
    (ts : List (List ℕ)) (rest : List ℕ)
    → All IsField ts
    → drop_tokens (length ts) (joined ts rest) ≡ rest
unfolding drop_tokens
drop_tokens-joined [] rest h = refl
drop_tokens-joined (t ∷ ts) rest h =
    rw (drop_tokens, strtok-field t (joined ts rest) h.0) (drop_tokens-joined ts rest h.1)

parse_2g-field :
    (line t rest : List ℕ) (info : SignalInfo)
    → IsField t
    → drop_tokens 14 line ≡ t ++ b',' ∷ rest
    → parse_2g line info ≡ (true, record info { signal_power = strtol t })
unfolding parse_2g
parse_2g-field line t rest info ht e = rw (parse_2g, e, strtok-field t rest ht)

parse_3g-fields :
    (line t u rest : List ℕ) (info : SignalInfo)
    → IsField t
    → IsField u
    → drop_tokens 2 line ≡ t ++ b',' ∷ (u ++ b',' ∷ rest)
    → parse_3g line info ≡ (true, record info { ec_n0 = strtol t; signal_power = strtol u })
unfolding parse_3g
parse_3g-fields line t u rest info ht hu e =
    rw (parse_3g, e, strtok-field t (u ++ b',' ∷ rest) ht, strtok-field u rest hu)

-- A `2G` line: the power is the number of the 15th field behind the technology; Ec/n0 stays.
parse_fields-2g :
    (ts : List (List ℕ)) (t rest : List ℕ) (info : SignalInfo)
    → length ts ≡ 14
    → All IsField ts
    → IsField t
    → parse_fields (b'2' ∷ b'G' ∷ b',' ∷ joined ts (t ++ b',' ∷ rest)) info ≡ (
      true,
      record info {
        signal_power = strtol t;
        access_technology = codes "2G" ++ drop 2 info.access_technology;
      },
    )
unfolding parse_fields strtok
parse_fields-2g ts t rest info len hs ht =
    parse_2g-field (joined ts (t ++ b',' ∷ rest)) t rest (put_technology (codes "2G") info) ht (
      ap (λ n. drop_tokens n (joined ts (t ++ b',' ∷ rest))) (sym len)
      ∙ drop_tokens-joined ts (t ++ b',' ∷ rest) hs)

-- A `3G` line: Ec/n0 is the number of the 3rd field behind the technology, the power that of the 4th.
parse_fields-3g :
    (ts : List (List ℕ)) (t u rest : List ℕ) (info : SignalInfo)
    → length ts ≡ 2
    → All IsField ts
    → IsField t
    → IsField u
    → parse_fields (b'3' ∷ b'G' ∷ b',' ∷ joined ts (t ++ b',' ∷ (u ++ b',' ∷ rest))) info ≡ (
      true,
      record {
        signal_power = strtol u;
        ec_n0 = strtol t;
        access_technology = codes "3G" ++ drop 2 info.access_technology;
      },
    )
unfolding parse_fields strtok
parse_fields-3g ts t u rest info len hs ht hu =
    parse_3g-fields (joined ts (t ++ b',' ∷ (u ++ b',' ∷ rest))) t u rest
      (put_technology (codes "3G") info) ht hu
      (ap (λ n. drop_tokens n (joined ts (t ++ b',' ∷ (u ++ b',' ∷ rest)))) (sym len)
        ∙ drop_tokens-joined ts (t ++ b',' ∷ (u ++ b',' ∷ rest)) hs)

-- The guard lets an action run only if none of the three tests fails.
guard_passed :
    {S A : Type 0} (a b c : Bool) (m : Exec S A) (s : S) (x : A)
    → ((if not a || (not b || not c) then raise else m) s).0 ≡ ok x
    → (a ≡ true) × (b ≡ true) × (c ≡ true)
guard_passed true true true m s x h = (refl, refl, refl)
guard_passed true true false m s x h = absurd (cc)
guard_passed true false c m s x h = absurd (cc)
guard_passed false b c m s x h = absurd (cc)

module _ (io : SerialIo) where
  -- `CellularGetSignalInfo` gets past its guard only on a reply that holds all three of the words
  -- `SEARCH`, `LIMSRV` and `NOCONN`, which a modem reports when it has no connection.
  pub signal_info_needs_all_three :
      (info : SignalInfo) (s : State io) (p : Parsed)
      → (cellular_get_signal_info io info s).0 ≡ ok p
      → (reply : List ℕ) × ((exchange io smoni 1023 long_time s).0 ≡ ok reply)
        × (has reply (codes "SEARCH") ≡ true)
        × (has reply (codes "LIMSRV") ≡ true)
        × (has reply (codes "NOCONN") ≡ true)
  unfolding cellular_get_signal_info
  signal_info_needs_all_three info s p h =
      let (reply, got, guarded) = bind-ok (exchange io smoni 1023 long_time) _ s p h in
      let (a, b, c) =
        guard_passed (has reply (codes "SEARCH")) (has reply (codes "LIMSRV"))
          (has reply (codes "NOCONN")) _ (exchange io smoni 1023 long_time s).1 p guarded in
      (reply, got, a, b, c)
