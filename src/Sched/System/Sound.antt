-- ===== src/Sched/System/Sound.antt =====
-- Every critical section of src/osched.c keeps the accounting invariant.
use omniserve_native.Prelude.{
  ℕ, suc, ◌+◌, ◌≤◌, ◌<◌, ◌≡◌, refl, ap, inl, inr, Bool, false, ◌&&◌, List, ◌∷◌, ◌++◌, arith, All,
  All-append, All-append_left, All-append_right, Bool-cases, sum_by, sum_by-append, length,
  length-append, if◌then◌else◌, ◌==◌, subst,
}
use omniserve_native.Prelude.Int.{ℤ}
use omniserve_native.Floats.{DoubleOps}
use omniserve_native.Sched.{
  Waiter, Timespec, admitted, Arrival, acquire, try_acquire_n, give_up, resume, release_n,
  set_background, create, fits_locked, refuses, enqueue, admit, is_empty,
}
use omniserve_native.Sched.Order.{unlink_waiter-IsOrdered, All-unlink_waiter}
use omniserve_native.Sched.Promote.{HasSize, permits_of}
use omniserve_native.Sched.System.{
  System, Step, arrives, tries, times_out, resumes, releases, configures, Reach, here, next, start,
  entered, tried, promoted,
}
use omniserve_native.Sched.System.Ledger.{
  self, IsPositive, Sound, fits-busy, promoted-Sound, admit-Sound, enqueue-Sound, refuses-HasSize,
  out-pos,
}

module _ (F : DoubleOps) where
  acquire-Sound :
      (x : System F) (tier permits : ℕ) (shared : Bool) (a : Arrival F)
      → Sound F x
      → Sound F (entered F x permits (acquire F x.sched tier permits shared a))
  unfolding acquire
  acquire-Sound x tier permits shared a v = elim (Bool-cases (refuses F x.sched tier permits)) [
    | inl e ↦ rw e v
    | inr e ↦ rw e (go (refuses-HasSize F x.sched tier permits e))
  ]
    where
      go :
          (0 < permits) × (permits ≤ x.sched.slots)
          → Sound F (
              entered F x permits (
                if is_empty F x.sched.waiters && fits_locked F x.sched tier permits shared
                then admitted (admit F x.sched tier permits)
                else enqueue F x.sched tier permits shared a))
      go size = elim (Bool-cases (is_empty F x.sched.waiters)) [
        | inl empty ↦ elim (Bool-cases (fits_locked F x.sched tier permits shared)) [
          | inl fits ↦ rw (empty, fits) (admit-Sound F x tier permits shared v size fits)
          | inr full ↦
              rw (empty, full)
                (enqueue-Sound F x tier permits shared a v size
                  (out-pos F x v.ledger (fits-busy F x.sched tier permits shared size.1 full)))
        ]
        | inr queue ↦ rw queue (enqueue-Sound F x tier permits shared a v size (v.busy queue))
      ]

  try_acquire_n-Sound :
      (x : System F) (tier permits : ℕ)
      → Sound F x
      → Sound F (tried F x permits (try_acquire_n F x.sched tier permits))
  unfolding try_acquire_n
  try_acquire_n-Sound x tier permits v = elim (Bool-cases (refuses F x.sched tier permits)) [
    | inl e ↦ rw e v
    | inr e ↦ elim (Bool-cases (is_empty F x.sched.waiters)) [
      | inr queue ↦ rw (e, queue) v
      | inl empty ↦ elim (Bool-cases (fits_locked F x.sched tier permits false)) [
        | inr full ↦ rw (e, empty, full) v
        | inl fits ↦
            rw (e, empty, fits)
              (admit-Sound F x tier permits false v (refuses-HasSize F x.sched tier permits e) fits)
      ]
    ]
  ]

  give_up-Sound :
      (x : System F) (w : Waiter) (now : Timespec)
      → Sound F x
      → Sound F (promoted F x x.held (give_up F x.sched w now))
  unfolding give_up
  give_up-Sound x w now v =
      let l = v.ledger in
      promoted-Sound F x _ x.held now
        (record {
          room = l.room;
          ordered = unlink_waiter-IsOrdered x.sched.waiters w.seq l.ordered;
          sized = All-unlink_waiter (HasSize F x.sched.slots) x.sched.waiters w.seq l.sized;
          stamped = All-unlink_waiter (λ u. u.seq ≤ x.sched.seq) x.sched.waiters w.seq l.stamped;
          charged = l.charged;
          counted = l.counted;
          within = l.within;
        })
        v.pending_sized v.held_sized

  resume-Sound :
      (x : System F) (xs ys : List Waiter) (w : Waiter) (at : Timespec)
      → x.pending ≡ xs ++ w ∷ ys
      → Sound F x
      → Sound F
          (record { sched = resume F x.sched w at; pending = xs ++ ys; held = w.permits ∷ x.held })
  unfolding resume
  resume-Sound x xs ys w at e v =
      let l = v.ledger in
      let sized = subst (All (λ u. 0 < u.permits)) e v.pending_sized in
      let rest = All-append_right (λ u. 0 < u.permits) xs (w ∷ ys) sized in
      record {
        ledger = record {
          room = l.room;
          ordered = l.ordered;
          sized = l.sized;
          stamped = l.stamped;
          charged = omega (
            arith,
            l.charged,
            ap (sum_by permits_of) e,
            sum_by-append permits_of xs (w ∷ ys),
            sum_by-append permits_of xs ys,
          );
          counted =
              omega (arith, l.counted, ap length e, length-append xs (w ∷ ys), length-append xs ys);
          within = l.within;
        };
        busy = λ b. omega arith;
        pending_sized =
            All-append (λ u. 0 < u.permits) xs ys
              (All-append_left (λ u. 0 < u.permits) xs (w ∷ ys) sized) rest.1;
        held_sized = (rest.0, v.held_sized);
      }

  release_n-Sound :
      (x : System F) (xs ys : List ℕ) (permits : ℕ) (now : Timespec)
      → x.held ≡ xs ++ permits ∷ ys
      → Sound F x
      → Sound F (promoted F x (xs ++ ys) (release_n F x.sched permits now))
  unfolding release_n
  release_n-Sound x xs ys permits now e v =
      let l = v.ledger in
      let sized = subst (All IsPositive) e v.held_sized in
      let rest = All-append_right IsPositive xs (permits ∷ ys) sized in
      let total : sum_by self x.held ≡ permits + sum_by self (xs ++ ys) = omega (
        arith,
        ap (sum_by self) e,
        sum_by-append self xs (permits ∷ ys),
        sum_by-append self xs ys,
      ) in
      let number : length x.held ≡ suc (length (xs ++ ys)) =
        omega (arith, ap length e, length-append xs (permits ∷ ys), length-append xs ys) in
      let some_permits : (permits == 0) ≡ false = ground arith in
      rw some_permits (
        promoted-Sound F x _ (xs ++ ys) now
          (record {
            room = l.room;
            ordered = l.ordered;
            sized = l.sized;
            stamped = l.stamped;
            charged = ground (arith, l.charged, total);
            counted = ground (arith, l.counted, number);
            within = ground (arith, l.within);
          })
          v.pending_sized
          (All-append IsPositive xs ys (All-append_left IsPositive xs (permits ∷ ys) sized) rest.1))

  set_background-Sound :
      (x : System F) (timeout_s max_wait_s : F.Double)
      → Sound F x
      → Sound F (record x { sched = set_background F x.sched timeout_s max_wait_s })
  unfolding set_background
  set_background-Sound x timeout_s max_wait_s v =
      let l = v.ledger in
      record {
        ledger = record {
          room = l.room;
          ordered = l.ordered;
          sized = l.sized;
          stamped = l.stamped;
          charged = l.charged;
          counted = l.counted;
          within = l.within;
        };
        busy = v.busy;
        pending_sized = v.pending_sized;
        held_sized = v.held_sized;
      }

  -- Every critical section keeps the system sound.
  pub Step-Sound : {x y : System F} → Step F x y → Sound F x → Sound F y
  Step-Sound {x} (arrives tier permits shared a) v = acquire-Sound x tier permits shared a v
  Step-Sound {x} (tries tier permits) v = try_acquire_n-Sound x tier permits v
  Step-Sound {x} (times_out xs ys w now e) v = give_up-Sound x w now v
  Step-Sound {x} (resumes xs ys w at e) v = resume-Sound x xs ys w at e v
  Step-Sound {x} (releases xs ys permits now e) v = release_n-Sound x xs ys permits now e v
  Step-Sound {x} (configures timeout_s max_wait_s) v = set_background-Sound x timeout_s max_wait_s v

  start-Sound : (slots : ℤ) (timeout_s : F.Double) → Sound F (start F slots timeout_s)
  unfolding start create
  start-Sound slots timeout_s = record {
    ledger = record {
      room = ground arith;
      ordered = tt;
      sized = tt;
      stamped = tt;
      charged = refl;
      counted = refl;
      within = omega arith;
    };
    busy = λ b. cc;
    pending_sized = tt;
    held_sized = tt;
  }

  Reach-Sound_from : {x y : System F} → Sound F x → Reach F x y → Sound F y
  Reach-Sound_from v here = v
  Reach-Sound_from v (next r st) = Step-Sound st (Reach-Sound_from v r)

  -- From a fresh scheduler, whatever requests arrive, time out, resume and release, in whatever
  -- order: the slots in use are the permits of the requests admitted and not released, and never
  -- more than the slots there are; `active` is the number of those requests; the waiters are in
  -- service order, each with a permit count that fits an empty device; and while anyone waits some
  -- admitted request has yet to release.
  pub Reach-Sound :
      (slots : ℤ) (timeout_s : F.Double) (x : System F)
      → Reach F (start F slots timeout_s) x
      → Sound F x
  Reach-Sound slots timeout_s x r = Reach-Sound_from (start-Sound slots timeout_s) r
