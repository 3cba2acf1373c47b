-- ===== src/Serial/Recv.antt =====
-- `SerialRecv`: reads in pieces until enough has come, the time is over or nothing more comes.
use smart_door_lock.Base.{
  ℕ, zero, suc, ◌-◌, List, [], ◌∷◌, ◌++◌, Option, none, some, length, ltb, leb, if◌then◌else◌,
}
use smart_door_lock.Clock.{sub32}
use smart_door_lock.Serial.{circular_buf_size}
use smart_door_lock.Serial.Driver.{World, arrive, at_most, uart_get_data, ◌>>=◌}

-- What is done with the result of `UartGetData`; `rest` is the further rounds.
unfoldable pub take_in :
    (List ℕ → World → Option (List ℕ × World))
    → List ℕ
    → Option (List ℕ) × World
    → Option (List ℕ × World)
take_in rest read (none, w) = some (read, w)
take_in rest read (some [], w) = some (read, w)
take_in rest read (some (b ∷ bs), w) = rest (read ++ b ∷ bs) w

unfoldable pub recv_round :
    (List ℕ → World → Option (List ℕ × World))
    → (max_len timeout_ms start : ℕ) → List ℕ
    → World
    → Option (List ℕ × World)
unfolding take_in uart_get_data arrive
recv_round rest max_len timeout_ms start read w =
    if ltb (length read) max_len
    then (let w' = arrive w in
        let interval = sub32 w'.time_since_start start in
        if leb timeout_ms interval
        then some (read, w')
        else (uart_get_data (at_most (max_len - length read) circular_buf_size)
              (timeout_ms - interval) w'
            >>= take_in rest read))
    else some (read, w)

-- On fuel: each round that goes on has read a byte.
unfoldable pub recv_rounds :
    ℕ → (max_len timeout_ms start : ℕ) → List ℕ → World → Option (List ℕ × World)
unfolding recv_round
recv_rounds zero max_len timeout_ms start read w = some (read, w)
recv_rounds (suc f) max_len timeout_ms start read w =
    recv_round (recv_rounds f max_len timeout_ms start) max_len timeout_ms start read w

-- The bytes that were put into the caller's array; their number is returned.
unfoldable pub serial_recv : ℕ → ℕ → World → Option (List ℕ × World)
unfolding recv_rounds arrive
serial_recv max_len timeout_ms w =
    let w' = arrive w in recv_rounds max_len max_len timeout_ms w'.time_since_start [] w'
