-- ===== src/Serial/View.antt =====
-- The circular buffer up to where its bytes lie: a quotient of the buffers, and the bounded lists.
use mathlib.Core.Equiv.{IsEquiv, Iso, iso_to_equiv}
use mathlib.Core.HLevel.{Σ_prop_path, prop→set}
use mathlib.Core.Quot
use mathlib.Core.Quot.{Quot, Quot-set}
use native.Mathlib.Bridge.{le_prop}
use smart_door_lock.Base.{
  ℕ, zero, suc, ◌+◌, ◌%◌, ◌≤◌, ◌<◌, ◌≡◌, ◌∙◌, refl, sym, ap, List, [], ◌∷◌, ◌++◌, false, arith,
  length,
}
use smart_door_lock.Serial.{CircularBuf, push, front, pop}
use smart_door_lock.Serial.Ring.{
  round_from, queue, IsRing, length-queue, push-IsRing, queue-push, pop-IsRing, queue-pop,
}

abbrev pub Ring : Type 0
Ring = (b : CircularBuf) × IsRing b

-- The same bytes are pending, wherever in the array they lie.
abbrev pub SameBytes : Ring → Ring → Type 0
SameBytes r r' = queue r.0 ≡ queue r'.0

abbrev pub Buffer : Type 0
Buffer = Quot SameBytes

abbrev pub Held : Type 0
Held = (bytes : List ℕ) × (length bytes ≤ 256)

Held-set : IsSet Held
Held-set = hlevel (λ (xs : List ℕ). prop→set (λ (p q : length xs ≤ 256). le_prop p q))

held : Ring → Held
held (b, v) = (queue b, omega (arith, length-queue b, v.room))

held-eq : (r r' : Ring) → SameBytes r r' → held r ≡ held r'
unfolding held
held-eq r r' e = Σ_prop_path (λ n. le_prop) e

pub view : Buffer → Held
unfolding held
view = Quot.lift Held-set held held-eq

abbrev cell : List ℕ → ℕ → ℕ
cell [] k = 0
cell (x ∷ xs) zero = x
cell (x ∷ xs) (suc k) = cell xs k

-- A buffer with the bytes at the start of the array.
abbrev from_bytes : List ℕ → CircularBuf
from_bytes xs = record {
  data_at = cell xs;
  rd_i = 0;
  wr_i = length xs % 256;
  pending_bytes = length xs;
  overflow = false;
}

from_bytes-IsRing : (xs : List ℕ) → length xs ≤ 256 → IsRing (from_bytes xs)
from_bytes-IsRing xs h = record { read = omega arith; room = h; write = omega arith }

round_from-cell :
    (cells : ℕ → ℕ) (i : ℕ) (xs : List ℕ)
    → i + length xs ≤ 256
    → ((k : ℕ) → cells (i + k) ≡ cell xs k)
    → round_from cells i (length xs) ≡ xs
unfolding round_from
round_from-cell cells i [] h same = refl
round_from-cell cells i (x ∷ []) h same =
    let here : i + 0 ≡ i = omega arith in ap (λ c. c ∷ []) (ap cells (sym here) ∙ same 0)
round_from-cell cells i (x ∷ y ∷ xs) h same =
    let here : i + 0 ≡ i = omega arith in
    let next : (i + 1) % 256 ≡ i + 1 = omega arith in
    rw next (
      ap (λ c. c ∷ round_from cells (i + 1) (length (y ∷ xs))) (ap cells (sym here) ∙ same 0)
      ∙ ap (λ l. x ∷ l)
          (round_from-cell cells (i + 1) (y ∷ xs) (omega arith)
            (λ k. ap cells (omega arith) ∙ same (suc k))))

queue-from_bytes : (xs : List ℕ) → length xs ≤ 256 → queue (from_bytes xs) ≡ xs
unfolding queue
queue-from_bytes xs h =
    round_from-cell (cell xs) 0 xs (omega arith) (λ k. ap (cell xs) (omega arith))

view_iso : Iso Buffer Held
unfolding view held
view_iso = record {
  fun = view;
  inv = λ (xs, h). Quot.mk (from_bytes xs, from_bytes-IsRing xs h);
  rinv = λ (xs, h). Σ_prop_path (λ n. le_prop) (queue-from_bytes xs h);
  linv = Quot.ind (λ q. Quot-set _ _) λ r. Quot.sound (queue-from_bytes (queue r.0) (held r).1);
}

-- Circular buffers up to the place of their bytes are the lists of at most 256 bytes; there `push`, on
-- a buffer with room, puts a byte at the end, and `front` and `pop`, on one that is not empty, take
-- off the first.
pub ring_is_queue :
    IsEquiv view
    × ((c : ℕ) (r : Ring) (room : r.0.pending_bytes < 256)
        → (view (Quot.mk (push c r.0, push-IsRing c r.0 r.1 room))).0
          ≡ (view (Quot.mk r)).0 ++ c ∷ [])
    × ((r : Ring) (some_bytes : 0 < r.0.pending_bytes)
        → (view (Quot.mk r)).0
          ≡ front r.0 ∷ (view (Quot.mk (pop r.0, pop-IsRing r.0 r.1 some_bytes))).0)
unfolding view held view_iso
ring_is_queue = (
  (iso_to_equiv view_iso).1,
  λ c r room. queue-push c r.0 r.1 room,
  λ r some_bytes. queue-pop r.0 r.1 some_bytes,
)
