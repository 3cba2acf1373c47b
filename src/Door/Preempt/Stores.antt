-- ===== src/Door/Preempt/Stores.antt =====
-- The ways in which the callback ends, each as a run in one piece.
use smart_door_lock.Base.{
  ℕ, ◌≡◌, ◌∙◌, ◌<◌, inl, inr, refl, sym, ap, List, [], ◌∷◌, ◌++◌, append_assoc, Bool, true, false,
  ◌&&◌, ◌||◌, arith, All, Bool-cases, if◌then◌else◌,
}
use smart_door_lock.Base.Bytes.{bytes_eq}
use smart_door_lock.Clock.{sub32}
use smart_door_lock.Door.{
  DoorStatus, closed, opened, unlocked, locked, is_open, is_unlocked, is_locked, Door,
  open_door_cmd, lock_door_cmd, unlock_door_cmd, normal_door_stat, open_interval, obey,
}
use smart_door_lock.Door.Preempt.{
  Panel, Preempted, fire, fires, arrive_from, arrive, status, put_time, put_stat, set_stat, open_up,
}
use smart_door_lock.Door.Preempt.Came.{
  told, all_of, IsSequential, fires-is_locked, fires-is_unlocked, fires-append, Came, first_of,
  Came-arrive, Came-trans, Came-is_locked, Came-is_unlocked,
}

-- Whether the text opens a door that is locked, or unlocked, or neither.
abbrev pub opens : (is_locked is_unlocked : Bool) → List ℕ → Bool
opens l u buf =
    (if l then false else bytes_eq buf open_door_cmd) || (u && bytes_eq buf normal_door_stat)

pub obey-opens :
    (now : ℕ) (buf : List ℕ) (d : Door)
    → opens (is_locked d.stat) (is_unlocked d.stat) buf ≡ true
    → obey now buf d ≡ record { stat = opened; open_time = now }
unfolding obey
obey-opens now buf d h = rw h

-- Where the callback does not open the door, it stores this status, if any.
abbrev pub other_stat : (is_locked : Bool) → List ℕ → DoorStatus → DoorStatus
other_stat l buf s =
    if bytes_eq buf unlock_door_cmd
    then unlocked
    else if l && bytes_eq buf normal_door_stat
    then closed
    else if bytes_eq buf lock_door_cmd
    then locked
    else s

pub obey-other :
    (now : ℕ) (buf : List ℕ) (d : Door)
    → opens (is_locked d.stat) (is_unlocked d.stat) buf ≡ false
    → obey now buf d ≡ record d { stat = other_stat (is_locked d.stat) buf d.stat }
unfolding obey
obey-other now buf d h = rw h (ground arith)

module _ (cur_time : ℕ) (buf : List ℕ) where
  -- The door as the callback opens it.
  abbrev opened_at : Bool → Panel
  opened_at on = record { door = record { stat = opened; open_time = cur_time }; led0 = on }

  -- An interrupt less than 30000 ms after the callback has read the clock.
  abbrev pub Near : ℕ → Type 0
  Near t = sub32 t cur_time < open_interval

  fire-opened_at : (t : ℕ) (on : Bool) → Near t → fire t (opened_at on) ≡ opened_at true
  unfolding fire
  fire-opened_at t on near = ground arith

  fires-opened_at :
      (ts : List ℕ) (on : Bool)
      → All Near ts
      → put_stat opened (fires ts (opened_at on)) ≡ fires ts (opened_at on)
  unfolding fires
  fires-opened_at [] on near = refl
  fires-opened_at (t ∷ ts) on near =
      ap (λ p. put_stat opened (fires ts p)) (fire-opened_at t on near.0)
      ∙ fires-opened_at ts true near.1
      ∙ ap (fires ts) (sym (fire-opened_at t on near.0))

  fire-put_time :
      (t : ℕ) (p : Panel)
      → is_open p.door.stat ≡ false
      → (fire t (put_time cur_time p) ≡ put_time cur_time (fire t p))
        × (is_open (fire t p).door.stat ≡ false)
  unfolding fire
  fire-put_time t p h = ground arith

  -- On a door that is not open an interrupt does not look at the opening time.
  fires-put_time :
      (ts : List ℕ) (p : Panel)
      → is_open p.door.stat ≡ false
      → put_stat opened (fires ts (put_time cur_time p)) ≡ opened_at (fires ts p).led0
  unfolding fires
  fires-put_time [] p h = refl
  fires-put_time (t ∷ ts) p h =
      let (e, still) = fire-put_time t p h in
      ap (λ q. put_stat opened (fires ts q)) e ∙ fires-put_time ts (fire t p) still

  told-opens :
      (p : Panel)
      → opens (is_locked p.door.stat) (is_unlocked p.door.stat) buf ≡ true
      → told cur_time buf p ≡ opened_at p.led0
  told-opens p h = ap (λ d. record p { door = d }) (obey-opens cur_time buf p.door h)

  put_time-opened :
      (p : Panel) → is_open p.door.stat ≡ true → put_time cur_time p ≡ opened_at p.led0
  put_time-opened p h = ground arith

  pub rest-Near :
      (slots : List (List ℕ)) (p : Panel)
      → All (All Near) slots
      → All (All Near) (arrive_from slots p).upcoming
  unfolding arrive_from
  rest-Near [] p near = tt
  rest-Near (ts ∷ rest) p near = near.1

  first-Near :
      (slots : List (List ℕ)) (p : Panel)
      → All (All Near) slots
      → All Near (first_of (arrive_from slots p).upcoming)
  unfolding arrive_from
  first-Near [] p near = tt
  first-Near (ts ∷ []) p near = tt
  first-Near (ts ∷ ts' ∷ rest) p near = near.1.0

  module _ (w : Preempted) where
    abbrev pub Opens : Type 0
    Opens = opens (is_locked (status w)) (is_unlocked (status w)) buf ≡ true

    abbrev pub Leaves : Type 0
    Leaves = opens (is_locked (status w)) (is_unlocked (status w)) buf ≡ false

    opens-Came :
        {v : Preempted} {ts : List ℕ}
        → Came w ts v
        → opens (is_locked (status v)) (is_unlocked (status v)) buf
          ≡ opens (is_locked (status w)) (is_unlocked (status w)) buf
    opens-Came c = rw (Came-is_locked c, Came-is_unlocked c)

    pub open_up-IsSequential :
        (v : Preempted) (ts : List ℕ)
        → Came w ts v
        → Opens
        → All (All Near) v.upcoming
        → IsSequential cur_time buf w (open_up cur_time v)
    unfolding open_up set_stat
    open_up-IsSequential v ts c h near =
        let q = arrive v in
        let cq = Came-trans c (Came-arrive v) in
        let x = record q { panel = put_time cur_time q.panel } in
        let cy = Came-arrive x in
        let f = first_of q.upcoming in
        let ts' = ts ++ first_of v.upcoming in
        let still : opens (is_locked (status q)) (is_unlocked (status q)) buf ≡ true =
          opens-Came cq ∙ h in
        let order = cq.order ∙ ap (λ l. ts' ++ l) cy.order in
        elim (Bool-cases (is_open (status q))) [
          | inl at_open ↦ record {
            before = ts';
            after = f;
            order = order;
            result =
                ap (put_stat opened) cy.panel
                ∙ ap (λ p. put_stat opened (fires f p)) (put_time-opened q.panel at_open)
                ∙ fires-opened_at f q.panel.led0 (first-Near v.upcoming v.panel near)
                ∙ ap (fires f) (sym (told-opens q.panel still) ∙ ap (told cur_time buf) cq.panel);
          }
          | inr not_open ↦ record {
            before = ts' ++ f;
            after = [];
            order = order ∙ sym (append_assoc ts' f (all_of (arrive x).upcoming));
            result =
                ap (put_stat opened) cy.panel
                ∙ fires-put_time f q.panel not_open
                ∙ sym (
                    told-opens (fires f q.panel)
                      (rw (fires-is_locked f q.panel, fires-is_unlocked f q.panel) still))
                ∙ ap (told cur_time buf) (ap (fires f) cq.panel ∙ sym (fires-append ts' f w.panel));
          }
        ]

    pub set_stat-IsSequential :
        (v : Preempted) (ts : List ℕ) (s : DoorStatus)
        → Came w ts v
        → Leaves
        → ((x : DoorStatus) → other_stat (is_locked (status w)) buf x ≡ s)
        → IsSequential cur_time buf w (set_stat s v)
    unfolding set_stat
    set_stat-IsSequential v ts s c h stores =
        let cu = Came-trans c (Came-arrive v) in
        let ts' = ts ++ first_of v.upcoming in
        let p = fires ts' w.panel in
        record {
          before = ts';
          after = [];
          order = cu.order;
          result =
              ap (put_stat s) cu.panel
              ∙ ap (λ d. record p { door = d })
                  (sym (
                    obey-other cur_time buf p.door
                      (rw (fires-is_locked ts' w.panel, fires-is_unlocked ts' w.panel) h)
                    ∙ ap (λ x. record p.door { stat = x })
                        (rw (fires-is_locked ts' w.panel) (stores p.door.stat))));
        }

    -- Where no text fits, nothing is stored.
    pub leave-IsSequential :
        (v : Preempted) (ts : List ℕ)
        → Came w ts v
        → Leaves
        → ((x : DoorStatus) → other_stat (is_locked (status w)) buf x ≡ x)
        → IsSequential cur_time buf w v
    unfolding fires
    leave-IsSequential v ts c h keeps =
        let p = fires ts w.panel in
        record {
          before = ts;
          after = [];
          order = c.order;
          result =
              c.panel
              ∙ ap (λ d. record p { door = d })
                  (sym (
                    obey-other cur_time buf p.door
                      (rw (fires-is_locked ts w.panel, fires-is_unlocked ts w.panel) h)
                    ∙ ap (λ x. record p.door { stat = x })
                        (rw (fires-is_locked ts w.panel) (keeps p.door.stat))));
        }
