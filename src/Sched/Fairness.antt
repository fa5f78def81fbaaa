-- ===== src/Sched/Fairness.antt =====
-- Who comes before whom in src/osched.c: arrivals, and requests beside background work.
use omniserve_native.Prelude.{
  ℕ, ◌+◌, ◌≤◌, ◌<◌, ◌≡◌, refl, ap, inl, inr, Bool, true, false, List, [], ◌∷◌, ◌++◌, arith, All,
  Bool-cases,
}
use omniserve_native.Floats.{DoubleOps}
use omniserve_native.Sched.{
  Waiter, Sched, Arrival, admitted, precedes, insert_waiter, acquire, refuses, fits_locked, admit,
  is_empty, tier_background,
}
use omniserve_native.Sched.Order.{IsOrdered, Ahead}
use omniserve_native.Sched.Door.{acquire_at_once}

-- Where `me` goes in: behind `front`, before `back`.
pub record Placed (ws : List Waiter) (me : Waiter) : Type 0 where
  pub front : List Waiter
  pub back : List Waiter
  pub before : ws ≡ front ++ back
  pub after : insert_waiter ws me ≡ front ++ me ∷ back
  pub front_ranks : All (λ w. w.prio ≤ me.prio) front
  pub back_ranks : All (λ w. me.prio < w.prio) back

later_rank :
    (w me : Waiter) (ws : List Waiter)
    → me.prio < w.prio
    → All (Ahead w) ws
    → All (λ v. me.prio < v.prio) ws
later_rank w me [] h hs = tt
later_rank w me (v ∷ ws) h (a, hs) = (ground arith, later_rank w me ws h hs)

-- In an ordered list, a waiter that arrives after all of those in it is put behind every waiter of
-- its own rank or a better one, and before every waiter of a worse rank.
pub insert_waiter-Placed :
    (ws : List Waiter) (me : Waiter) → IsOrdered ws → All (λ w. w.seq < me.seq) ws → Placed ws me
unfolding insert_waiter
insert_waiter-Placed [] me o h = record {
  front = [];
  back = [];
  before = refl;
  after = refl;
  front_ranks = tt;
  back_ranks = tt;
}
insert_waiter-Placed (w ∷ ws) me (o, os) (h, hs) = elim (Bool-cases (precedes w me)) [
  | inl e ↦
      let p = insert_waiter-Placed ws me os hs in
      record {
        front = w ∷ p.front;
        back = p.back;
        before = ap (◌∷◌ w) p.before;
        after = rw e (ap (◌∷◌ w) p.after);
        front_ranks = (ground arith, p.front_ranks);
        back_ranks = p.back_ranks;
      }
  | inr e ↦
      let worse : me.prio < w.prio = ground arith in
      record {
        front = [];
        back = w ∷ ws;
        before = refl;
        after = rw e;
        front_ranks = tt;
        back_ranks = (worse, later_rank w me ws worse o);
      }
]

module _ (F : DoubleOps) where
  -- Background work that asks for the whole device gets an idle one, but does not keep it: while it
  -- runs, a request of another tier that fits beside its permits is admitted at once.
  pub acquire-beside_background :
      (s : Sched F) (permits tier others : ℕ) (shared : Bool) (a b : Arrival F)
      → s.active ≡ 0
      → s.used_slots ≡ 0
      → s.waiters ≡ []
      → 0 < permits
      → 0 < others
      → tier < tier_background
      → permits + others ≤ s.slots
      → (t : Sched F) × (u : Sched F) × (acquire F s tier_background permits false a ≡ admitted t)
        × (acquire F t tier others shared b ≡ admitted u)
        × (u.active ≡ 2)
  unfolding refuses fits_locked admit
  acquire-beside_background s permits tier others shared a b ha hu hw hp ho ht hs =
      let t = admit F s tier_background permits in
      let empty : is_empty F s.waiters ≡ true = rw hw in
      (
        t,
        admit F t tier others,
        acquire_at_once F s tier_background permits false a (ground arith) empty (ground arith),
        acquire_at_once F t tier others shared b (ground arith) empty (ground arith),
        omega arith,
      )
