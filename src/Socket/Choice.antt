-- ===== src/Socket/Choice.antt =====
-- The loop of `SocketInit` over the operators.
use smart_door_lock.Base.{◌≡◌, ◌∙◌, List, [], ◌∷◌, ◌++◌}
use smart_door_lock.SerialIo.{SerialIo}
use smart_door_lock.Exec.{Result, ok, err}
use smart_door_lock.Cellular.{State}
use smart_door_lock.Cellular.Modem.{attempt}
use smart_door_lock.Cellular.Operators.{OperatorInfo}
use smart_door_lock.Socket.{register_at, try_operators}

module _ (io : SerialIo) where
  -- The modem after all these operators were tried.
  abbrev pub after : List OperatorInfo → State io → State io
  after [] s = s
  after (o ∷ os) s = after os (register_at io o s).1

  -- None of them could be set and registered with.
  abbrev pub Refused : List OperatorInfo → State io → Type 0
  Refused [] s = Unit
  Refused (o ∷ os) s = ((register_at io o s).0 ≡ err) × Refused os (register_at io o s).1

  attempt-err :
      (r : Result Unit × State io) (os : List OperatorInfo)
      → r.0 ≡ err
      → attempt r (try_operators io os) ≡ try_operators io os r.1
  attempt-err (r, s) os e = rw e

  attempt-ok :
      (r : Result Unit × State io) (os : List OperatorInfo)
      → r.0 ≡ ok tt
      → attempt r (try_operators io os) ≡ (ok tt, r.1)
  attempt-ok (r, s) os e = rw e

  -- The loop stops at the first operator with which the modem registers: none behind it is tried.
  try_operators-first :
      (before : List OperatorInfo) (o : OperatorInfo) (behind : List OperatorInfo) (s : State io)
      → Refused before s
      → (register_at io o (after before s)).0 ≡ ok tt
      → try_operators io (before ++ o ∷ behind) s ≡ (ok tt, (register_at io o (after before s)).1)
  unfolding try_operators
  try_operators-first [] o behind s refused found = attempt-ok (register_at io o s) behind found
  try_operators-first (b ∷ before) o behind s refused found =
      attempt-err (register_at io b s) (before ++ o ∷ behind) refused.0
      ∙ try_operators-first before o behind (register_at io b s).1 refused.1 found
