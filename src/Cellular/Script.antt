-- ===== src/Cellular/Script.antt =====
-- A port for tests: a modem that gives its replies in order, whatever it is told, and then is silent.
use smart_door_lock.Base.{
  ℕ, ◌≤◌, ◌≡◌, refl, List, [], ◌∷◌, ◌++◌, some, true, false, length, take, length-take, ap, arith,
}
use smart_door_lock.SerialIo.{SerialIo, IsBounded}
use smart_door_lock.Cellular.{Cell}

pub record Modem : Type 0 where
  pub heard : List ℕ
  pub replies : List (List ℕ)

abbrev pub next_reply : List (List ℕ) → List ℕ
next_reply [] = []
next_reply (r ∷ rs) = r

abbrev pub later_replies : List (List ℕ) → List (List ℕ)
later_replies [] = []
later_replies (r ∷ rs) = rs

some-eq : (xs ys : List ℕ) → some xs ≡ some ys → xs ≡ ys
some-eq xs ys h = cc

reply_fits : (n : ℕ) (r bs : List ℕ) → some (take n r) ≡ some bs → length bs ≤ n
reply_fits n r bs h = omega (arith, length-take n r, ap (length {0}) (some-eq (take n r) bs h))

abbrev pub script : SerialIo
script = record {
  Dev = Modem;
  serial_init = λ baud d. (true, d);
  serial_disable = λ d. d;
  serial_flush_input_buff = λ d. d;
  serial_send = λ bs d. (some (length bs), record d { heard = d.heard ++ bs });
  serial_recv = λ n t d.
      (some (take n (next_reply d.replies)), record d { replies = later_replies d.replies });
  wire = λ d. d.heard;
  wire-flush = λ d. refl;
  wire-send = λ bs d n h. refl;
  wire-recv = λ n t d. refl;
}

script-IsBounded : IsBounded script
script-IsBounded = record { recv-length = λ n t d bs h. reply_fits n (next_reply d.replies) bs h }

-- A modem with these replies, on a line in command mode.
abbrev pub replying : List (List ℕ) → Cell Modem
replying rs = record { dev = record { heard = []; replies = rs }; transparent_mode = false }
