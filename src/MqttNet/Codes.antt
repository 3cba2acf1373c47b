-- ===== src/MqttNet/Codes.antt =====
-- What the network callbacks return.
use smart_door_lock.Base.{
  ℕ, ◌≤◌, ◌<◌, ◌≡◌, ◌⊎◌, inl, inr, refl, List, [], ◌∷◌, true, false, Bool, length, arith,
}
use smart_door_lock.SerialIo.{SerialIo, IsBounded}
use smart_door_lock.Exec.{Result, ok}
use smart_door_lock.Cellular.Connection.Transfer.{read-cases}
use smart_door_lock.MqttNet.{
  code_error_timeout, code_error_network, Transfer, moved, failed, NetState, read_result, net_read,
}

module _ (io : SerialIo) where
  abbrev IsRead : ℕ → Result Transfer → Type 0
  IsRead buf_len r =
      ((bs : List ℕ) × (r ≡ ok (moved bs)) × (0 < length bs) × (length bs ≤ buf_len))
      ⊎ (r ≡ ok (failed code_error_timeout))
      ⊎ (r ≡ ok (failed code_error_network))

  read_result-IsRead :
      (buf_len : ℕ) (bs : List ℕ) → length bs ≤ buf_len → IsRead buf_len (read_result io (ok bs))
  read_result-IsRead buf_len [] h = inr (inl refl)
  read_result-IsRead buf_len (b ∷ bs) h = inl (b ∷ bs, refl, omega arith, h)

  -- Over a port that returns no more than was asked for, `NetRead` never takes nothing for data: it returns from 1 to `buf_len` bytes, the code of a
  -- time-out or that of a network error.
  net_read-range :
      IsBounded io
      → (is_null : Bool) (buf_len timeout_ms : ℕ) (n : NetState io)
      → ((bs : List ℕ) × ((net_read io is_null buf_len timeout_ms n).0 ≡ ok (moved bs))
          × (0 < length bs)
          × (length bs ≤ buf_len))
        ⊎ ((net_read io is_null buf_len timeout_ms n).0 ≡ ok (failed code_error_timeout))
        ⊎ ((net_read io is_null buf_len timeout_ms n).0 ≡ ok (failed code_error_network))
  unfolding net_read
  net_read-range b true buf_len timeout_ms n = inr (inr refl)
  net_read-range b false buf_len timeout_ms n =
      elim (read-cases io b buf_len timeout_ms n.sock.cell) [
        | inl e ↦ inr (inr (rw e))
        | inr (bs, e, le) ↦ rw e (read_result-IsRead buf_len bs le)
      ]
