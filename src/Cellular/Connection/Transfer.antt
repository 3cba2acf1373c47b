-- ===== src/Cellular/Connection/Transfer.antt =====
-- Reading and writing over the open connection.
use smart_door_lock.Base.{ℕ, ◌≤◌, ◌≡◌, ◌≢◌, ◌⊎◌, inl, inr, refl, List, length, arith}
use smart_door_lock.SerialIo.{SerialIo, IsBounded}
use smart_door_lock.Exec.{Result, ok, err, fault}
use smart_door_lock.Cellular.{State, recv}
use smart_door_lock.Cellular.Wire.{recv-length_le}
use smart_door_lock.Cellular.Connection.{cellular_read}

module _ (io : SerialIo) where
  recv-ne-fault : (n t : ℕ) (s : State io) → (recv io n t s).0 ≢ fault
  unfolding recv
  recv-ne-fault n t s = ground arith

  -- `CellularRead` returns -1, or at most the bytes that were asked for, over a port that does.
  pub read-cases :
      IsBounded io
      → (n t : ℕ) (s : State io)
      → ((cellular_read io n t s).0 ≡ err)
        ⊎ ((bs : List ℕ) × ((cellular_read io n t s).0 ≡ ok bs) × (length bs ≤ n))
  unfolding cellular_read
  read-cases b n t s = by_result (recv io n t s).0 refl
    where
      by_result :
          (r : Result (List ℕ))
          → (recv io n t s).0 ≡ r
          → ((cellular_read io n t s).0 ≡ err)
            ⊎ ((bs : List ℕ) × ((cellular_read io n t s).0 ≡ ok bs) × (length bs ≤ n))
      by_result err e = inl e
      by_result (ok bs) e = inr (bs, e, recv-length_le io b n t s bs e)
      by_result fault e = absurd (recv-ne-fault n t s e)
