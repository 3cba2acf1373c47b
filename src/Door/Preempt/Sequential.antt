-- ===== src/Door/Preempt/Sequential.antt =====
-- The callback with interrupts inside leaves what one in a piece leaves.
use smart_door_lock.Base.{
  ℕ, ◌≡◌, ◌<◌, inl, inr, refl, List, ◌++◌, false, ◌&&◌, All, Bool-cases, if◌then◌else◌,
}
use smart_door_lock.Base.Bytes.{bytes_eq}
use smart_door_lock.Clock.{sub32}
use smart_door_lock.Door.{
  closed, unlocked, locked, is_unlocked, is_locked, open_door_cmd, lock_door_cmd, unlock_door_cmd,
  normal_door_stat, open_interval, message_text, mqtt_message_cb,
}
use smart_door_lock.Door.Preempt.{Preempted, fires, arrive, status, obey_with, mqtt_message_cb_with}
use smart_door_lock.Door.Preempt.Came.{
  all_of, IsSequential, Came-arrive, Came-trans, Came-is_locked, Came-is_unlocked,
}
use smart_door_lock.Door.Preempt.Stores.{
  Near, rest-Near, open_up-IsSequential, set_stat-IsSequential, leave-IsSequential,
}

module _ (cur_time : ℕ) (buf : List ℕ) where
  obey_with-IsSequential :
      (w : Preempted)
      → All (All (Near cur_time buf)) w.upcoming
      → IsSequential cur_time buf w (obey_with cur_time buf w)
  unfolding obey_with
  obey_with-IsSequential w near =
      let v = arrive w in
      let v' = arrive v in
      let v'' = arrive v' in
      let c = Came-arrive w in
      let c' = Came-trans c (Came-arrive v) in
      let c'' = Came-trans c' (Came-arrive v') in
      let l = is_locked (status w) in
      rw (Came-is_locked c, Came-is_unlocked c', Came-is_locked c'')
        (elim (Bool-cases (if l then false else bytes_eq buf open_door_cmd)) [
          | inl o ↦ rw o (
              open_up-IsSequential cur_time buf w v _ c (rw o refl)
                (rest-Near cur_time buf w.upcoming w.panel near))
          | inr o ↦ elim (Bool-cases (is_unlocked (status w) && bytes_eq buf normal_door_stat)) [
            | inl n ↦
                rw (o, n)
                  (open_up-IsSequential cur_time buf w v' _ c' (rw (o, n) refl) (
                    rest-Near cur_time buf v.upcoming v.panel
                      (rest-Near cur_time buf w.upcoming w.panel near)))
            | inr n ↦ elim (Bool-cases (bytes_eq buf unlock_door_cmd)) [
              | inl u ↦
                  rw (o, n, u)
                    (set_stat-IsSequential cur_time buf w v' _ unlocked c' (rw (o, n) refl)
                      (λ x. rw u refl))
              | inr u ↦ elim (Bool-cases (l && bytes_eq buf normal_door_stat)) [
                | inl m ↦
                    rw (o, n, u, m)
                      (set_stat-IsSequential cur_time buf w v'' _ closed c'' (rw (o, n) refl)
                        (λ x. rw (u, m) refl))
                | inr m ↦ elim (Bool-cases (bytes_eq buf lock_door_cmd)) [
                  | inl k ↦
                      rw (o, n, u, m, k)
                        (set_stat-IsSequential cur_time buf w v'' _ locked c'' (rw (o, n) refl)
                          (λ x. rw (u, m, k) refl))
                  | inr k ↦
                      rw (o, n, u, m, k)
                        (leave-IsSequential cur_time buf w v'' _ c'' (rw (o, n) refl)
                          (λ x. rw (u, m, k) refl))
                ]
              ]
            ]
          ]
        ])

-- Whenever the timer's interrupts come between the callback's accesses to `dr_iot`, the door and LED 0
-- are left as if the callback had run in one piece, with some of the interrupts before it and the
-- others after it, in their order. The interrupts come less than 30000 ms after the callback has read
-- the clock.
pub message_linearizes :
    (cur_time : ℕ) (buffer : List ℕ) (w : Preempted)
    → All (All (λ t. sub32 t cur_time < open_interval)) w.upcoming
    → let w' = mqtt_message_cb_with cur_time buffer w in
      (before : List ℕ) × (after : List ℕ) × (all_of w.upcoming
        ≡ before ++ (after ++ all_of w'.upcoming))
      × (w'.panel
          ≡ fires after (
              let p = fires before w.panel in
              record p { door = mqtt_message_cb cur_time buffer p.door }))
unfolding mqtt_message_cb_with mqtt_message_cb
message_linearizes cur_time buffer w near =
    let s = obey_with-IsSequential cur_time (message_text buffer) w near in
    (s.before, s.after, s.order, s.result)
