-- ===== src/Cellular/Modem/Start.antt =====
-- The retries of cellular.c, and what starting the modem and choosing an operator send.
use smart_door_lock.Base.{ℕ, zero, suc, ◌<◌, ◌≡◌, ◌↔◌, ◌∙◌, refl, sym, ap, [], ◌++◌, arith}
use smart_door_lock.Base.Bytes.{codes}
use smart_door_lock.Base.Int.{ℤ, pos}
use smart_door_lock.SerialIo.{SerialIo}
use smart_door_lock.Exec.{Result, ok, err, fault, Exec}
use smart_door_lock.Exec.Says.{Says, Says-bind, Says-check}
use smart_door_lock.Cellular.{State, has}
use smart_door_lock.Cellular.Text.{
  echo_off, scfg, rounds, short_time, medium_time, long_time, cops_manual,
}
use smart_door_lock.Cellular.Wire.{line, Says-command_ok, Says-recv}
use smart_door_lock.Cellular.Modem.{
  all, echo_and_scfg, retry, wait_ready, initialization_options, cellular_check_modem,
  cellular_wait_until_modem_responds, cellular_set_operator,
}

module _ {S : Type 0} (m : Exec S (Unit {0})) where
  -- The state after `k` rounds.
  abbrev pub after : ℕ → S → S
  after zero s = s
  after (suc k) s = after k (m s).1

  -- The first `k` rounds return -1.
  abbrev pub AllFail : ℕ → S → Type 0
  AllFail zero s = Unit
  AllFail (suc k) s = ((m s).0 ≡ err) × AllFail k (m s).1

  retry_first : (n : ℕ) (s : S) → (m s).0 ≡ ok tt → retry (suc n) m s ≡ (ok tt, (m s).1)
  unfolding retry
  retry_first n s h = ground arith

  retry_again : (n : ℕ) (s : S) → (m s).0 ≡ err → retry (suc n) m s ≡ retry n m (m s).1
  unfolding retry
  retry_again n s h = ground arith

  retry_fault : (n : ℕ) (s : S) → (m s).0 ≡ fault → retry (suc n) m s ≡ (fault, (m s).1)
  unfolding retry
  retry_fault n s h = ground arith

  retry_of_success :
      (n k : ℕ) (s : S)
      → k < n
      → AllFail k s
      → (m (after k s)).0 ≡ ok tt
      → retry n m s ≡ (ok tt, (m (after k s)).1)
  retry_of_success zero k s lt f h = absurd (omega arith)
  retry_of_success (suc n) zero s lt f h = retry_first n s h
  retry_of_success (suc n) (suc k) s lt f h =
      retry_again n s f.0 ∙ retry_of_success n k (m s).1 (omega arith) f.1 h

  retry_of_failure : (n : ℕ) (s : S) → AllFail n s → retry n m s ≡ (err, after n s)
  unfolding retry
  retry_of_failure zero s f = refl
  retry_of_failure (suc n) s f = retry_again n s f.0 ∙ retry_of_failure n (m s).1 f.1

  -- How a loop of at most `n` rounds that succeeds has run.
  abbrev pub Succeeded : ℕ → S → Type 0
  Succeeded n s = (k : ℕ) × (k < n) × AllFail k s × ((m (after k s)).0 ≡ ok tt)

  retry_none : (s : S) → (retry zero m s).0 ≡ err
  unfolding retry
  retry_none s = refl

  Succeeded-later : (n : ℕ) (s : S) → (m s).0 ≡ err → Succeeded n (m s).1 → Succeeded (suc n) s
  Succeeded-later n s p (k, lt, f, h) = (suc k, omega arith, (p, f), h)

  Succeeded-by :
      (n : ℕ) (s : S) (r : Result (Unit {0}))
      → (m s).0 ≡ r
      → (retry (suc n) m s).0 ≡ ok tt
      → ((retry n m (m s).1).0 ≡ ok tt → Succeeded n (m s).1)
      → Succeeded (suc n) s
  Succeeded-by n s (ok tt) p h later = (zero, omega arith, tt, p)
  Succeeded-by n s err p h later =
      Succeeded-later n s p
        (later (ap (λ (x : Result (Unit {0}) × S). x.0) (sym (retry_again n s p)) ∙ h))
  Succeeded-by n s fault p h later = absurd (cc (retry_fault n s p))

  pub retry_ok : (n : ℕ) (s : S) → (retry n m s).0 ≡ ok tt → Succeeded n s
  retry_ok zero s h = absurd (cc (retry_none s))
  retry_ok (suc n) s h = Succeeded-by n s (m s).0 refl h (retry_ok n (m s).1)

module _ (io : SerialIo) where
  -- `CellularWaitUntilModemResponds` returns 0 exactly if one of at most seven checks finds the modem
  -- responding, all checks before it having returned -1.
  pub wait_until_modem_responds_iff :
      (s : State io)
      → ((cellular_wait_until_modem_responds io s).0 ≡ ok tt)
        ↔ Succeeded (cellular_check_modem io) rounds s
  unfolding cellular_wait_until_modem_responds
  wait_until_modem_responds_iff s = (
    retry_ok (cellular_check_modem io) rounds s,
    λ (k, lt, f, h).
        ap (λ (x : Result (Unit {0}) × State io). x.0)
          (retry_of_success (cellular_check_modem io) rounds k s lt f h),
  )

  -- It makes no check after the first that finds the modem responding.
  wait_until_modem_responds_stops :
      (k : ℕ) (s : State io)
      → k < rounds
      → AllFail (cellular_check_modem io) k s
      → (cellular_check_modem io (after (cellular_check_modem io) k s)).0 ≡ ok tt
      → cellular_wait_until_modem_responds io s
        ≡ (ok tt, (cellular_check_modem io (after (cellular_check_modem io) k s)).1)
  unfolding cellular_wait_until_modem_responds
  wait_until_modem_responds_stops k s lt f h =
      retry_of_success (cellular_check_modem io) rounds k s lt f h

  -- It returns -1 after seven checks that have all returned -1.
  wait_until_modem_responds_gives_up :
      (s : State io)
      → AllFail (cellular_check_modem io) rounds s
      → cellular_wait_until_modem_responds io s ≡ (err, after (cellular_check_modem io) rounds s)
  unfolding cellular_wait_until_modem_responds
  wait_until_modem_responds_gives_up s f = retry_of_failure (cellular_check_modem io) rounds s f

  Says-wait_ready : Says (line io) [] (wait_ready io)
  unfolding wait_ready
  Says-wait_ready =
      Says-bind (line io) [] [] _ _ (Says-recv io 50 medium_time)
        (λ reply. Says-check (line io) (has reply (codes "+PBREADY")))

  Says-echo_and_scfg : Says (line io) (echo_off ++ scfg) (initialization_options io echo_and_scfg)
  unfolding initialization_options
  Says-echo_and_scfg =
      Says-bind (line io) echo_off scfg _ _ (Says-command_ok io echo_off 50 short_time)
        (λ _. Says-command_ok io scfg 50 short_time)

  Says-all : Says (line io) (echo_off ++ scfg) (initialization_options io all)
  unfolding initialization_options
  Says-all = Says-bind (line io) [] (echo_off ++ scfg) _ _ Says-wait_ready (λ _. Says-echo_and_scfg)

  -- Where `initialization_options(all)` returns 0 it has sent `ATE0` and then `AT^SCFG`, each once and
  -- whole: the case falls through into the next one.
  init_all_says :
      (s : State io)
      → (initialization_options io all s).0 ≡ ok tt
      → line io (initialization_options io all s).1 ≡ line io s ++ (echo_off ++ scfg)
  init_all_says s h = Says-all.at s tt h

  -- Where `CellularSetOperator` returns 0 in mode 1 it has sent the command with the operator's code in
  -- decimal.
  set_operator_says :
      (code : ℤ) (s : State io)
      → (cellular_set_operator io (pos 1) code s).0 ≡ ok tt
      → line io (cellular_set_operator io (pos 1) code s).1 ≡ line io s ++ cops_manual code
  unfolding cellular_set_operator
  set_operator_says code s h = (Says-command_ok io (cops_manual code) 10 long_time).at s tt h
