-- ===== src/Serial/Ring.antt =====
-- A circular buffer as a queue.
use smart_door_lock.Base.{
  ℕ, zero, suc, ◌+◌, ◌-◌, ◌%◌, ◌≤◌, ◌<◌, ◌≡◌, ◌∙◌, refl, ap, List, [], ◌∷◌, ◌++◌, false, arith,
  length, ◌==◌,
}
use smart_door_lock.Base.Bits.{mask_255}
use smart_door_lock.Serial.{CircularBuf, next_index, stored, push, front, pop}

-- `n` bytes from index `i` on, round the array.
unfoldable pub round_from : (ℕ → ℕ) → ℕ → ℕ → List ℕ
round_from cells i zero = []
round_from cells i (suc n) = cells i ∷ round_from cells ((i + 1) % 256) n

-- The bytes that are not yet handled, the oldest first.
unfoldable pub queue : CircularBuf → List ℕ
unfolding round_from
queue b = round_from b.data_at b.rd_i b.pending_bytes

-- The read index is inside the array, no more bytes are pending than it holds, and the write index
-- stands behind them.
pub record IsRing (b : CircularBuf) : Type 0 where
  pub read : b.rd_i < 256
  pub room : b.pending_bytes ≤ 256
  pub write : b.wr_i ≡ (b.rd_i + b.pending_bytes) % 256

length-round_from : (cells : ℕ → ℕ) (i n : ℕ) → length (round_from cells i n) ≡ n
unfolding round_from
length-round_from cells i zero = refl
length-round_from cells i (suc n) = ap suc (length-round_from cells ((i + 1) % 256) n)

pub length-queue : (b : CircularBuf) → length (queue b) ≡ b.pending_bytes
unfolding queue
length-queue b = length-round_from b.data_at b.rd_i b.pending_bytes

pub next_index_lem : (i : ℕ) → i < 256 → next_index i ≡ (i + 1) % 256
unfolding next_index
next_index_lem i h = mask_255 (i + 1) (omega arith)

pub round_from-last :
    (cells : ℕ → ℕ) (i n j : ℕ)
    → i < 256
    → j ≡ (i + n) % 256
    → round_from cells i (suc n) ≡ round_from cells i n ++ (cells j ∷ [])
unfolding round_from
round_from-last cells i zero j h e = let here : j ≡ i = omega arith in rw (here)
round_from-last cells i (suc n) j h e =
    ap (λ l. cells i ∷ l) (round_from-last cells ((i + 1) % 256) n j (omega arith) (omega arith))

pub round_from-stored :
    (cells : ℕ → ℕ) (i n k j c : ℕ)
    → i < 256
    → n ≤ k
    → k < 256
    → j ≡ (i + k) % 256
    → round_from (stored cells j c) i n ≡ round_from cells i n
unfolding round_from
round_from-stored cells i zero k j c h le lt e = refl
round_from-stored cells i (suc n) zero j c h le lt e = absurd (omega arith)
round_from-stored cells i (suc n) (suc k) j c h le lt e =
    let ih =
      round_from-stored cells ((i + 1) % 256) n k j c (omega arith) (omega arith) (omega arith)
        (omega arith) in
    let apart : (i == j) ≡ false = ground arith in rw (apart, ih)

stored_self : (cells : ℕ → ℕ) (i c : ℕ) → stored cells i c i ≡ c
stored_self cells i c = ground arith

pub push-IsRing : (c : ℕ) (b : CircularBuf) → IsRing b → b.pending_bytes < 256 → IsRing (push c b)
unfolding push
push-IsRing c b v h = record {
  read = v.read;
  room = omega (arith, v.room);
  write = omega (arith, v.write, v.read, next_index_lem b.wr_i (omega (arith, v.write)));
}

pub queue-push :
    (c : ℕ) (b : CircularBuf)
    → IsRing b
    → b.pending_bytes < 256
    → queue (push c b) ≡ queue b ++ (c ∷ [])
unfolding queue push
queue-push c b v h =
    let one_more : (b.pending_bytes + 1) % 4294967296 ≡ suc b.pending_bytes = omega arith in
    ap (round_from (stored b.data_at b.wr_i c) b.rd_i) one_more
    ∙ round_from-last (stored b.data_at b.wr_i c) b.rd_i b.pending_bytes b.wr_i v.read v.write
    ∙ rw (
      round_from-stored b.data_at b.rd_i b.pending_bytes b.pending_bytes b.wr_i c v.read
          (omega arith) h v.write,
      stored_self b.data_at b.wr_i c,
    )

pub pending-push :
    (c : ℕ) (b : CircularBuf)
    → IsRing b
    → b.pending_bytes < 256
    → (push c b).pending_bytes ≡ b.pending_bytes + 1
unfolding push
pending-push c b v h = omega arith

pub pop-IsRing : (b : CircularBuf) → IsRing b → 0 < b.pending_bytes → IsRing (pop b)
unfolding pop
pop-IsRing b v h = record {
  read = omega (arith, next_index_lem b.rd_i v.read);
  room = omega (arith, v.room);
  write = omega (arith, v.write, v.room, next_index_lem b.rd_i v.read);
}

pub queue-pop :
    (b : CircularBuf) → IsRing b → 0 < b.pending_bytes → queue b ≡ front b ∷ queue (pop b)
unfolding queue pop front round_from
queue-pop b v h = by_count b.pending_bytes refl
  where
    by_count :
        (n : ℕ)
        → b.pending_bytes ≡ n
        → round_from b.data_at b.rd_i b.pending_bytes
          ≡ b.data_at b.rd_i
            ∷ round_from b.data_at
                (next_index b.rd_i)
                ((b.pending_bytes + 4294967296 - 1) % 4294967296)
    by_count zero e = absurd (omega arith)
    by_count (suc n) e =
        let less : (b.pending_bytes + 4294967296 - 1) % 4294967296 ≡ n = omega (arith, v.room) in
        rw (less, e, next_index_lem b.rd_i v.read)

pub pending-pop :
    (b : CircularBuf) → IsRing b → 0 < b.pending_bytes → b.pending_bytes ≡ suc (pop b).pending_bytes
pending-pop b r h =
    omega (arith, ap (length {0}) (queue-pop b r h), length-queue b, length-queue (pop b))
