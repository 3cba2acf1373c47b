-- ===== src/Door/Preempt/Came.antt =====
-- The interrupts that have come between two points of the callback, and what they leave alone.
use smart_door_lock.Base.{ℕ, ◌≡◌, ◌∙◌, refl, sym, ap, List, [], ◌∷◌, ◌++◌, append_assoc, arith}
use smart_door_lock.Door.{is_unlocked, is_locked, obey}
use smart_door_lock.Door.Preempt.{Panel, Preempted, fire, fires, arrive_from, arrive, status}

-- The callback with nothing between its accesses.
abbrev pub told : ℕ → List ℕ → Panel → Panel
told cur_time buf p = record p { door = obey cur_time buf p.door }

abbrev pub all_of : List (List ℕ) → List ℕ
all_of [] = []
all_of (ts ∷ rest) = ts ++ all_of rest

-- The interrupts came in the order of the list, some before and some after the callback as a whole.
pub record IsSequential (cur_time : ℕ) (buf : List ℕ) (w w' : Preempted) : Type 0 where
  pub before : List ℕ
  pub after : List ℕ
  pub order : all_of w.upcoming ≡ before ++ (after ++ all_of w'.upcoming)
  pub result : w'.panel ≡ fires after (told cur_time buf (fires before w.panel))

-- What an interrupt leaves: whether the door is locked, and whether it is unlocked.
pub fire-is_locked : (t : ℕ) (p : Panel) → is_locked (fire t p).door.stat ≡ is_locked p.door.stat
unfolding fire
fire-is_locked t p = ground arith

pub fire-is_unlocked :
    (t : ℕ) (p : Panel) → is_unlocked (fire t p).door.stat ≡ is_unlocked p.door.stat
unfolding fire
fire-is_unlocked t p = ground arith

pub fires-is_locked :
    (ts : List ℕ) (p : Panel) → is_locked (fires ts p).door.stat ≡ is_locked p.door.stat
unfolding fires
fires-is_locked [] p = refl
fires-is_locked (t ∷ ts) p = fires-is_locked ts (fire t p) ∙ fire-is_locked t p

pub fires-is_unlocked :
    (ts : List ℕ) (p : Panel) → is_unlocked (fires ts p).door.stat ≡ is_unlocked p.door.stat
unfolding fires
fires-is_unlocked [] p = refl
fires-is_unlocked (t ∷ ts) p = fires-is_unlocked ts (fire t p) ∙ fire-is_unlocked t p

pub fires-append : (xs ys : List ℕ) (p : Panel) → fires (xs ++ ys) p ≡ fires ys (fires xs p)
unfolding fires
fires-append [] ys p = refl
fires-append (t ∷ xs) ys p = fires-append xs ys (fire t p)

-- The interrupts `ts` came from `w` to `v`, and nothing else.
pub record Came (w : Preempted) (ts : List ℕ) (v : Preempted) : Type 0 where
  pub order : all_of w.upcoming ≡ ts ++ all_of v.upcoming
  pub panel : v.panel ≡ fires ts w.panel

abbrev pub first_of : List (List ℕ) → List ℕ
first_of [] = []
first_of (ts ∷ rest) = ts

pub Came-arrive_from :
    (slots : List (List ℕ)) (p : Panel)
    → Came (record { panel = p; upcoming = slots }) (first_of slots) (arrive_from slots p)
unfolding arrive_from
Came-arrive_from [] p = record { order = refl; panel = refl }
Came-arrive_from (ts ∷ rest) p = record { order = refl; panel = refl }

pub Came-arrive : (w : Preempted) → Came w (first_of w.upcoming) (arrive w)
unfolding arrive
Came-arrive w = Came-arrive_from w.upcoming w.panel

pub Came-trans :
    {u v w : Preempted} {xs ys : List ℕ} → Came u xs v → Came v ys w → Came u (xs ++ ys) w
Came-trans {u} {w} {xs} {ys} a b = record {
  order = a.order ∙ ap (λ l. xs ++ l) b.order ∙ sym (append_assoc xs ys (all_of w.upcoming));
  panel = b.panel ∙ ap (fires ys) a.panel ∙ sym (fires-append xs ys u.panel);
}

pub Came-is_locked :
    {w v : Preempted} {ts : List ℕ} → Came w ts v → is_locked (status v) ≡ is_locked (status w)
Came-is_locked {w} {ts} c = ap (λ p. is_locked p.door.stat) c.panel ∙ fires-is_locked ts w.panel

pub Came-is_unlocked :
    {w v : Preempted} {ts : List ℕ} → Came w ts v → is_unlocked (status v) ≡ is_unlocked (status w)
Came-is_unlocked {w} {ts} c =
    ap (λ p. is_unlocked p.door.stat) c.panel ∙ fires-is_unlocked ts w.panel
