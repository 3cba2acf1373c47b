-- ===== src/MqttNet/Tests.antt =====
-- The network callbacks over a scripted modem.
use smart_door_lock.Base.{
  ℕ, ◌≡◌, inl, refl, List, [], ◌∷◌, ◌++◌, true, false, none, some, replicate, arith,
}
use smart_door_lock.Base.Bytes.{codes}
use smart_door_lock.Exec.{ok}
use smart_door_lock.Cellular.{recv}
use smart_door_lock.Cellular.Script.{script, replying}
use smart_door_lock.Cellular.Connection.{cellular_read}
use smart_door_lock.Socket.{blank_oplist, socket_read, cellular}
use smart_door_lock.MqttNet.{moved, NetState, net_read, net_write}
use smart_door_lock.Serial.{Uart, empty_buf, rx_irq_handler, next_index}
use smart_door_lock.Serial.Driver.{usart0_tx, usart0_rx, sys_tick}
use smart_door_lock.Serial.Recv.{serial_recv}
use smart_door_lock.Serial.Receive.{Listens, stream}
use smart_door_lock.Serial.Transmit.{outgoing}
use smart_door_lock.Serial.Drain.{IsArmed}
use smart_door_lock.Serial.Port.{driver, received_by}
use smart_door_lock.MqttNet.Delivery.{world, write_transmits, read_delivers}

-- An open connection on which these bytes come.
abbrev online : List (List ℕ) → NetState script
online rs = record {
  sock = record { cell = replying rs; oplist = blank_oplist; ops_found = 0 };
  host = none;
  imei = replicate 64 0;
  named = false;
}

abbrev switched_on : Uart
switched_on = record {
  rx_buf = empty_buf;
  tx_buf = empty_buf;
  enabled = true;
  rxdatav_enabled = true;
  txbl_enabled = false;
  transmitted = codes "AT";
  lost_update = false;
}

switched_on-IsArmed : IsArmed switched_on
switched_on-IsArmed = record {
  on = refl;
  ring = record { read = omega arith; room = omega arith; write = refl };
  armed = inl refl;
}

-- The driver below an open connection; the UART asks for a byte at every look.
abbrev over_driver : NetState driver
over_driver = record {
  host = none;
  imei = replicate 64 0;
  named = false;
  sock = record {
    cell = record {
      dev = (
        record {
          uart = switched_on;
          time_since_start = 0;
          upcoming = replicate 13 (usart0_tx true ∷ []);
        },
        switched_on-IsArmed.ring,
      );
      transparent_mode = true;
    };
    oplist = blank_oplist;
    ops_found = 0;
  };
}

write_transmits_example :
    ((net_write driver (codes "ping") over_driver).0 ≡ ok (moved (codes "ping")))
    × ((world (net_write driver (codes "ping") over_driver).1).uart.transmitted
        ≡ outgoing switched_on ++ codes "ping")
write_transmits_example =
    write_transmits (codes "ping") over_driver switched_on-IsArmed (ground arith) (omega arith)

-- `O`, `K` and `!` come, two of them while the driver waits.
abbrev hearing : NetState driver
hearing = record {
  host = none;
  imei = replicate 64 0;
  named = false;
  sock = record {
    cell = record {
      dev = (
        record {
          uart = switched_on;
          time_since_start = 7;
          upcoming =
              (sys_tick ∷ [])
              ∷ []
              ∷ (usart0_rx (some b'O') ∷ [])
              ∷ []
              ∷ (usart0_rx (some b'K') ∷ sys_tick ∷ [])
              ∷ (usart0_rx (some b'!') ∷ [])
              ∷ []
              ∷ [];
        },
        switched_on-IsArmed.ring,
      );
      transparent_mode = true;
    };
    oplist = blank_oplist;
    ops_found = 0;
  };
}

hearing-Listens : Listens (world hearing).uart
hearing-Listens = record {
  on = refl;
  asks = refl;
  ring = record { read = omega arith; room = omega arith; write = refl };
}

read_delivers_example :
    (stream (world hearing) ≡ codes "OK" ++ stream (world (net_read driver false 2 5 hearing).1))
    × Listens (world (net_read driver false 2 5 hearing).1).uart
unfolding net_read socket_read cellular cellular_read recv received_by serial_recv rx_irq_handler
    next_index
read_delivers_example = read_delivers 2 5 hearing (codes "OK") refl hearing-Listens (refl, refl)
