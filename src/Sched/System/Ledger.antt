-- ===== src/Sched/System/Ledger.antt =====
-- The accounting invariant of src/osched.c, kept by every critical section.
use omniserve_native.Prelude.{
  ℕ, suc, ◌+◌, ◌≤◌, ◌<◌, ◌≡◌, ◌⊎◌, inl, inr, Bool, true, false, List, [], ◌∷◌, arith, All,
  All-append, All-map, Bool-cases, sum_by, sum_by-append, length, length-append,
}
use omniserve_native.Floats.{DoubleOps}
use omniserve_native.Sched.{
  Waiter, Timespec, Sched, Arrival, promote_locked, fits_locked, refuses, enqueue, admit, is_empty,
  link_waiter, new_waiter,
}
use omniserve_native.Sched.Order.{IsOrdered, insert_waiter-IsOrdered, All-insert_waiter}
use omniserve_native.Sched.Aging.{age_locked-IsOrdered, All-age_locked}
use omniserve_native.Sched.Fits.{RoomFor, fits_locked-RoomFor}
use omniserve_native.Sched.Promote.{
  IsBlocked, HasSize, permits_of, promote_locked-Promoted, promote_locked-le,
  promote_locked-IsOrdered, promote_locked-All,
}
use omniserve_native.Sched.System.{System, entered, promoted}

abbrev pub self : ℕ → ℕ
self n = n

abbrev pub IsPositive : ℕ → Type 0
IsPositive n = 0 < n

module _ (F : DoubleOps) where
  -- The scheduler's own books, where it has admitted `count` requests of `permits` in all.
  pub record Ledger (s : Sched F) (permits count : ℕ) : Type 0 where
    pub room : 0 < s.slots
    pub ordered : IsOrdered s.waiters
    pub sized : All (HasSize F s.slots) s.waiters
    pub stamped : All (λ w. w.seq ≤ s.seq) s.waiters
    pub charged : s.used_slots ≡ permits
    pub counted : s.active ≡ count
    pub within : s.used_slots ≤ s.slots

  abbrev pub permits_out : System F → ℕ
  permits_out x = sum_by permits_of x.pending + sum_by self x.held

  abbrev pub requests_out : System F → ℕ
  requests_out x = length x.pending + length x.held

  pub record Sound (x : System F) : Type 0 where
    pub ledger : Ledger x.sched (permits_out x) (requests_out x)
    -- Nobody waits for a release that cannot come.
    pub busy : is_empty F x.sched.waiters ≡ false → 0 < requests_out x
    pub pending_sized : All (λ w. 0 < w.permits) x.pending
    pub held_sized : All IsPositive x.held

  held-pos : (ps : List ℕ) → 0 < sum_by self ps → 0 < length ps
  held-pos [] h = h
  held-pos (p ∷ ps) h = omega arith

  pending-pos : (ws : List Waiter) → 0 < sum_by permits_of ws → 0 < length ws
  pending-pos [] h = h
  pending-pos (w ∷ ws) h = omega arith

  -- Permits are out only where a request holds them.
  requests_out-pos : (x : System F) → 0 < permits_out x → 0 < requests_out x
  requests_out-pos x h = elim (sum_cases (sum_by permits_of x.pending) (sum_by self x.held) h) [
    | inl p ↦ omega (arith, pending-pos x.pending p)
    | inr p ↦ omega (arith, held-pos x.held p)
  ]
    where
      sum_cases : (a b : ℕ) → 0 < a + b → (0 < a) ⊎ (0 < b)
      sum_cases a b h = omega arith

  -- A request that fits an empty device and does not fit now finds permits or requests out.
  pub fits-busy :
      (s : Sched F) (tier permits : ℕ) (shared : Bool)
      → permits ≤ s.slots
      → fits_locked F s tier permits shared ≡ false
      → 0 < s.active + s.used_slots
  unfolding fits_locked
  fits-busy s tier permits shared h e = ground arith

  busy :
      (s : Sched F) (tier permits : ℕ) (shared : Bool)
      → permits ≤ s.slots
      → ¬ RoomFor s.slots s.active s.used_slots tier permits shared
      → 0 < s.active + s.used_slots
  busy s tier permits shared h full = elim (Bool-cases (fits_locked F s tier permits shared)) [
    | inl e ↦ absurd (full (fits_locked-RoomFor F s tier permits shared e))
    | inr e ↦ fits-busy s tier permits shared h e
  ]

  blocked-busy :
      (s : Sched F)
      → All (HasSize F s.slots) s.waiters
      → IsBlocked F s s.waiters
      → is_empty F s.waiters ≡ false
      → 0 < s.active + s.used_slots
  blocked-busy s sized b e = go s.waiters sized b e
    where
      go :
          (ws : List Waiter)
          → All (HasSize F s.slots) ws
          → IsBlocked F s ws
          → is_empty F ws ≡ false
          → 0 < s.active + s.used_slots
      go [] h b e = cc
      go (w ∷ ws) h b e = busy s w.tier w.permits w.shared h.0.1 b

  pub out-pos :
      (x : System F)
      → Ledger x.sched (permits_out x) (requests_out x)
      → 0 < x.sched.active + x.sched.used_slots
      → 0 < requests_out x
  out-pos x v h = by_parts (requests_out-pos x) v.charged v.counted h
    where
      by_parts : {a u p c : ℕ} → (0 < p → 0 < c) → u ≡ p → a ≡ c → 0 < a + u → 0 < c
      by_parts f d e h = ground arith

  promote_locked-Ledger :
      (s : Sched F) (now : Timespec) (permits count : ℕ)
      → Ledger s permits count
      → Ledger
          (promote_locked F s now).0
          (permits + sum_by permits_of (promote_locked F s now).1)
          (count + length (promote_locked F s now).1)
  promote_locked-Ledger s now permits count v =
      let p = promote_locked-Promoted F s now in
      record {
        room = omega (arith, p.same_slots, v.room);
        ordered = promote_locked-IsOrdered F s now v.ordered;
        sized =
            rw p.same_slots (promote_locked-All F (HasSize F s.slots) (λ w p h. h) s now v.sized).1;
        stamped =
            rw p.same_seq
              (promote_locked-All F (λ w. w.seq ≤ s.seq) (λ w p h. h) s now v.stamped).1;
        charged = omega (arith, p.charged, v.charged);
        counted = omega (arith, p.counted, v.counted);
        within = omega (arith, p.same_slots, promote_locked-le F s now v.sized v.within);
      }

  -- A step that promotes from a scheduler whose books are right, with these permits and requests
  -- out, leaves a sound system.
  pub promoted-Sound :
      (x : System F) (s : Sched F) (held : List ℕ) (now : Timespec)
      → Ledger s (sum_by permits_of x.pending + sum_by self held) (length x.pending + length held)
      → All (λ w. 0 < w.permits) x.pending
      → All IsPositive held
      → Sound (promoted F x held (promote_locked F s now))
  promoted-Sound x s held now v pp hp =
      let s' = (promote_locked F s now).0 in
      let granted = (promote_locked F s now).1 in
      let y = promoted F x held (promote_locked F s now) in
      let l = promote_locked-Ledger s now _ _ v in
      let e : permits_out y
          ≡ sum_by permits_of x.pending + sum_by self held + sum_by permits_of granted =
        omega (arith, sum_by-append permits_of x.pending granted) in
      let c : requests_out y ≡ length x.pending + length held + length granted =
        omega (arith, length-append x.pending granted) in
      let ledger : Ledger y.sched (permits_out y) (requests_out y) = rw (e, c) l in
      record {
        ledger = ledger;
        busy = λ b.
            out-pos y ledger
              (blocked-busy s' ledger.sized (promote_locked-Promoted F s now).blocked b);
        pending_sized =
            All-append (λ w. 0 < w.permits) x.pending granted pp
              (All-map (HasSize F s.slots) (λ w. 0 < w.permits) (λ w h. h.0) granted
                (promote_locked-All F (HasSize F s.slots) (λ w p h. h) s now v.sized).0);
        held_sized = hp;
      }

  admit-Ledger :
      (s : Sched F) (tier permits out count : ℕ)
      → Ledger s out count
      → s.used_slots + permits ≤ s.slots
      → Ledger (admit F s tier permits) (permits + out) (suc count)
  unfolding admit
  admit-Ledger s tier permits out count v h = record {
    room = v.room;
    ordered = v.ordered;
    sized = v.sized;
    stamped = v.stamped;
    charged = omega (arith, v.charged);
    counted = omega (arith, v.counted);
    within = h;
  }

  -- A request that fits finds room for its permits.
  fits-le :
      (s : Sched F) (tier permits : ℕ) (shared : Bool)
      → permits ≤ s.slots
      → fits_locked F s tier permits shared ≡ true
      → s.used_slots + permits ≤ s.slots
  unfolding fits_locked
  fits-le s tier permits shared h e = ground arith

  link_waiter-Ledger :
      (s : Sched F) (me : Waiter) (now : Timespec) (out count : ℕ)
      → Ledger s out count
      → HasSize F s.slots me
      → me.seq ≤ s.seq
      → Ledger (link_waiter F s me now) out count
  unfolding link_waiter
  link_waiter-Ledger s me now out count v size stamp = record {
    room = v.room;
    ordered = insert_waiter-IsOrdered _ me (age_locked-IsOrdered F s now v.ordered);
    sized =
        All-insert_waiter (HasSize F s.slots) _ me
          (All-age_locked F s now (HasSize F s.slots) (λ w p h. h) v.sized) size;
    stamped =
        All-insert_waiter (λ w. w.seq ≤ s.seq) _ me
          (All-age_locked F s now (λ w. w.seq ≤ s.seq) (λ w p h. h) v.stamped) stamp;
    charged = v.charged;
    counted = v.counted;
    within = v.within;
  }

  -- The next sequence number is taken, whether or not it is used.
  counted-Ledger :
      (s : Sched F) (out count : ℕ)
      → Ledger s out count
      → Ledger (record s { seq = s.seq + 1 }) out count
  counted-Ledger s out count v = record {
    room = v.room;
    ordered = v.ordered;
    sized = v.sized;
    stamped =
        All-map (λ w. w.seq ≤ s.seq) (λ w. w.seq ≤ s.seq + 1) (λ w h. omega arith) s.waiters
          v.stamped;
    charged = v.charged;
    counted = v.counted;
    within = v.within;
  }

  pub refuses-HasSize :
      (s : Sched F) (tier permits : ℕ)
      → refuses F s tier permits ≡ false
      → (0 < permits) × (permits ≤ s.slots)
  unfolding refuses
  refuses-HasSize s tier permits e = ground arith

  pub enqueue-Sound :
      (x : System F) (tier permits : ℕ) (shared : Bool) (a : Arrival F)
      → Sound x
      → (0 < permits) × (permits ≤ x.sched.slots)
      → 0 < requests_out x
      → Sound (entered F x permits (enqueue F x.sched tier permits shared a))
  unfolding enqueue new_waiter
  enqueue-Sound x tier permits shared a v size busy = elim (Bool-cases a.cond_ok) [
    | inl e ↦ rw e (record {
      ledger =
          link_waiter-Ledger _ _ a.age_read _ _ (counted-Ledger x.sched _ _ v.ledger) size
            (omega arith);
      busy = λ _. busy;
      pending_sized = v.pending_sized;
      held_sized = v.held_sized;
    })
    | inr e ↦ rw e (record {
      ledger = counted-Ledger x.sched _ _ v.ledger;
      busy = v.busy;
      pending_sized = v.pending_sized;
      held_sized = v.held_sized;
    })
  ]

  pub admit-Sound :
      (x : System F) (tier permits : ℕ) (shared : Bool)
      → Sound x
      → (0 < permits) × (permits ≤ x.sched.slots)
      → fits_locked F x.sched tier permits shared ≡ true
      → Sound (record x { sched = admit F x.sched tier permits; held = permits ∷ x.held })
  admit-Sound x tier permits shared v size e =
      let l =
        admit-Ledger x.sched tier permits _ _ v.ledger
          (fits-le x.sched tier permits shared size.1 e) in
      let p : sum_by permits_of x.pending + (permits + sum_by self x.held)
          ≡ permits + permits_out x =
        omega arith in
      let c : length x.pending + suc (length x.held) ≡ suc (requests_out x) = omega arith in
      record {
        ledger = rw (p, c) l;
        busy = λ _. omega arith;
        pending_sized = v.pending_sized;
        held_sized = (size.0, v.held_sized);
      }
