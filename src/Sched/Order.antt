-- ===== src/Sched/Order.antt =====
-- Service order of the waiter list of src/osched.c: by rank, then by arrival.
use omniserve_native.Prelude.{
  ℕ, ◌+◌, ◌≤◌, ◌<◌, ◌≡◌, ◌⊎◌, inl, inr, true, false, List, [], ◌∷◌, arith, All, All-map, Bool-cases,
  sum_by, ◌==◌,
}
use omniserve_native.Sched.{Waiter, precedes, insert_waiter, unlink_waiter, reinsert}

-- `w` may stand before `v`.
abbrev pub Ahead : Waiter → Waiter → Type 0
Ahead w v = (w.prio < v.prio) ⊎ ((w.prio ≡ v.prio) × (w.seq ≤ v.seq))

abbrev pub IsOrdered : List Waiter → Type 0
IsOrdered [] = Unit
IsOrdered (w ∷ ws) = All (Ahead w) ws × IsOrdered ws

Ahead-trans : (u v w : Waiter) → Ahead u v → Ahead v w → Ahead u w
Ahead-trans u v w p q = ground arith

pub All-insert_waiter {κ} :
    (P : Waiter → Type κ) (ws : List Waiter) (me : Waiter)
    → All P ws
    → P me
    → All P (insert_waiter ws me)
unfolding insert_waiter
All-insert_waiter P [] me h p = (p, tt)
All-insert_waiter P (w ∷ ws) me (h, hs) p = elim (Bool-cases (precedes w me)) [
  | inl e ↦ rw e (h, All-insert_waiter P ws me hs p)
  | inr e ↦ rw e (p, (h, hs))
]

precedes-Ahead : (w me : Waiter) → precedes w me ≡ true → Ahead w me
precedes-Ahead w me h = ground arith

not-precedes-Ahead : (w me : Waiter) → precedes w me ≡ false → Ahead me w
not-precedes-Ahead w me h = ground arith

pub insert_waiter-IsOrdered :
    (ws : List Waiter) (me : Waiter) → IsOrdered ws → IsOrdered (insert_waiter ws me)
unfolding insert_waiter
insert_waiter-IsOrdered [] me h = (tt, tt)
insert_waiter-IsOrdered (w ∷ ws) me (h, hs) = elim (Bool-cases (precedes w me)) [
  | inl e ↦ rw e (
    All-insert_waiter (Ahead w) ws me h (precedes-Ahead w me e),
    insert_waiter-IsOrdered ws me hs,
  )
  | inr e ↦
      let first = not-precedes-Ahead w me e in
      rw e ((first, All-map (Ahead w) (Ahead me) (λ v a. Ahead-trans me w v first a) ws h), (h, hs))
]

-- Inserting adds one entry and drops none, whatever is counted.
pub sum_by-insert_waiter :
    (f : Waiter → ℕ) (ws : List Waiter) (me : Waiter)
    → sum_by f (insert_waiter ws me) ≡ f me + sum_by f ws
unfolding insert_waiter
sum_by-insert_waiter f [] me = omega arith
sum_by-insert_waiter f (w ∷ ws) me = ground (arith, sum_by-insert_waiter f ws me)

pub reinsert-IsOrdered : (ws aged : List Waiter) → IsOrdered ws → IsOrdered (reinsert ws aged)
unfolding reinsert
reinsert-IsOrdered ws [] h = h
reinsert-IsOrdered ws (w ∷ aged) h =
    reinsert-IsOrdered (insert_waiter ws w) aged (insert_waiter-IsOrdered ws w h)

pub All-reinsert {κ} :
    (P : Waiter → Type κ) (ws aged : List Waiter) → All P ws → All P aged → All P (reinsert ws aged)
unfolding reinsert
All-reinsert P ws [] h hs = h
All-reinsert P ws (w ∷ aged) h (p, hs) =
    All-reinsert P (insert_waiter ws w) aged (All-insert_waiter P ws w h p) hs

pub sum_by-reinsert :
    (f : Waiter → ℕ) (ws aged : List Waiter)
    → sum_by f (reinsert ws aged) ≡ sum_by f ws + sum_by f aged
unfolding reinsert
sum_by-reinsert f ws [] = omega arith
sum_by-reinsert f ws (w ∷ aged) =
    omega (arith, sum_by-reinsert f (insert_waiter ws w) aged, sum_by-insert_waiter f ws w)

pub All-unlink_waiter {κ} :
    (P : Waiter → Type κ) (ws : List Waiter) (me : ℕ) → All P ws → All P (unlink_waiter ws me)
unfolding unlink_waiter
All-unlink_waiter P [] me h = tt
All-unlink_waiter P (w ∷ ws) me (h, hs) = elim (Bool-cases (w.seq == me)) [
  | inl e ↦ rw e hs
  | inr e ↦ rw e (h, All-unlink_waiter P ws me hs)
]

pub unlink_waiter-IsOrdered :
    (ws : List Waiter) (me : ℕ) → IsOrdered ws → IsOrdered (unlink_waiter ws me)
unfolding unlink_waiter
unlink_waiter-IsOrdered [] me h = tt
unlink_waiter-IsOrdered (w ∷ ws) me (h, hs) = elim (Bool-cases (w.seq == me)) [
  | inl e ↦ rw e hs
  | inr e ↦ rw e (All-unlink_waiter (Ahead w) ws me h, unlink_waiter-IsOrdered ws me hs)
]
