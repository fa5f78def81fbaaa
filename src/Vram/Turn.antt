-- ===== src/Vram/Turn.antt =====
-- Who comes first among the waiting calls of src/ovram.c, and how a wait ends.
use omniserve_native.Prelude.{
  ℕ, zero, suc, ◌+◌, ◌≤◌, ◌≡◌, refl, ap, ◌∙◌, inl, inr, Bool, true, false, not, ◌&&◌, ◌||◌, List,
  [], ◌∷◌, Option, none, some, arith, Bool-cases, if◌then◌else◌, get_elem?, set, Option-cases, ◌==◌,
}
use mathlib.Core.Option.{some-injective}
use omniserve_native.Prelude.Int.{pos, ◌-ℤ◌}
use omniserve_native.Floats.{DoubleOps}
use omniserve_native.Vram.{Vram, Waiter, modify}
use omniserve_native.Vram.Tables.{expire_locked, on_owner}
use omniserve_native.Vram.Queue.{ahead_from, waiter_ahead_locked, goes_first, holds_back}
use omniserve_native.Vram.Grant.{grant_locked, grant_at}
use omniserve_native.Vram.Wait.{
  Call, returned, wait_round, attempt, slot_since, finish, unregister, vacate,
}
use omniserve_native.Vram.Book.Granted.{grant_locked-Ends}
use omniserve_native.Vram.Room.{granted_of}

module _ (F : DoubleOps) where
  open F use {Double, sub, mul, dec, le}

  ahead_from-some :
      (v : Vram F) (tier : ℕ) (self : Option ℕ) (since now : Double) (free : Option ℕ)
      (ws : List (Waiter F)) (at i : ℕ) (w : Waiter F)
      → get_elem? ws i ≡ some w
      → goes_first F v tier self since (at + i) w ≡ true
      → holds_back F v now free w ≡ true
      → ahead_from F v tier self since now free ws at ≡ true
  unfolding ahead_from
  ahead_from-some v tier self since now free [] at i w e first back = cc
  ahead_from-some v tier self since now free (x ∷ ws) at zero w e first back =
      let same = some-injective x w e in
      let here : goes_first F v tier self since at x ≡ true =
        ap (λ n. goes_first F v tier self since n x) (omega arith)
        ∙ ap (goes_first F v tier self since (at + 0)) same
        ∙ first in
      let held : holds_back F v now free x ≡ true = ap (holds_back F v now free) same ∙ back in
      rw (here, held) refl
  ahead_from-some v tier self since now free (x ∷ ws) at (suc i) w e first back =
      let rest =
        ahead_from-some v tier self since now free ws (at + 1) i w e
          (ap (λ n. goes_first F v tier self since n w) (omega arith) ∙ first) back in
      rw rest (or_true (goes_first F v tier self since at x && holds_back F v now free x))
    where
      or_true : (b : Bool) → (b || true) ≡ true
      or_true true = refl
      or_true false = refl

  -- A call that has not queued gets nothing in a round while a waiter of its own tier or of a higher
  -- one waits, as long as that waiter has not blocked for too long and its need can be met once the
  -- leases end.
  pub wait_round_behind :
      (v : Vram F) (c : Call F) (now : Double) (free : Option ℕ) (i : ℕ) (w : Waiter F)
      → c.registered ≡ false
      → get_elem? (expire_locked F v now).0.waiters i ≡ some w
      → w.used ≡ true
      → w.tier ≤ c.tier
      → holds_back F (expire_locked F v now).0 now free w ≡ true
      → granted_of F (wait_round F v c now free) ≡ 0
  unfolding wait_round attempt waiter_ahead_locked goes_first
  wait_round_behind v c now free i w new at used tier back =
      let x = (expire_locked F v now).0 in
      let first : goes_first F x c.tier none (slot_since F x now c.wslot) (0 + i) w ≡ true =
        ground (arith, used, tier) in
      let ahead =
        ahead_from-some x c.tier none (slot_since F x now c.wslot) now free x.waiters 0 i w at first
          back in
      let none_given : (attempt F x c now free).granted ≡ 0 = rw (new, ahead, attempt) refl in
      elim (Bool-cases (not ((attempt F x c now free).granted == 0) || le c.deadline now)) [
        | inl e ↦ rw (e, wait_round) none_given
        | inr e ↦ rw (e, wait_round) refl
      ]

  grant_locked-waiting :
      (v : Vram F) (owner : List ℕ) (pid mb min_mb tier : ℕ) (ttl_s now_s : Double)
      (free : Option ℕ) (force : Bool)
      → (grant_locked F v owner pid mb min_mb tier ttl_s now_s free force).broker.waiting
        ≡ v.waiting
  unfolding grant_at on_owner
  grant_locked-waiting v owner pid mb min_mb tier ttl_s now_s free force =
      elim (grant_locked-Ends F v owner pid mb min_mb tier ttl_s now_s free force) [
        | inl e ↦ ap (λ a. a.broker.waiting) e
        | inr (slot, x, at, off, some_mb, least, e) ↦ ap (λ a. a.broker.waiting) e
      ]

  attempt-waiting :
      (v : Vram F) (c : Call F) (now : Double) (free : Option ℕ)
      → (attempt F v c now free).broker.waiting ≡ v.waiting
  unfolding attempt
  attempt-waiting v c now free =
      elim (Bool-cases (
        waiter_ahead_locked F v c.tier (if c.registered then c.wslot else none)
          (slot_since F v now c.wslot) now free)) [
            | inl e ↦ rw (e, attempt) refl
            | inr e ↦
                rw (e, attempt)
                  (grant_locked-waiting v c.name c.pid c.mb c.min_mb c.tier c.ttl_s now free false)
          ]

  finish-waiting :
      (v : Vram F) (c : Call F) (granted : ℕ) (now : Double) (t : ℕ)
      → (finish F v c granted now).waiting t
        ≡ (if c.registered && c.tier == t then v.waiting t -ℤ pos 1 else v.waiting t)
  unfolding finish on_owner unregister
  finish-waiting v c granted now t = elim (Bool-cases c.registered) [
    | inr e ↦ rw (e, unregister) refl
    | inl e ↦ elim (Bool-cases (c.tier == t)) [
      | inr other ↦ rw (e, other, unregister) refl
      | inl mine ↦
          let same : c.tier ≡ t = ground arith in
          rw (e, mine, unregister) (ap (λ n. v.waiting n -ℤ pos 1) same)
    ]
  ]

  grant_locked-waiters :
      (v : Vram F) (owner : List ℕ) (pid mb min_mb tier : ℕ) (ttl_s now_s : Double)
      (free : Option ℕ) (force : Bool)
      → (grant_locked F v owner pid mb min_mb tier ttl_s now_s free force).broker.waiters
        ≡ v.waiters
  unfolding grant_at on_owner
  grant_locked-waiters v owner pid mb min_mb tier ttl_s now_s free force =
      elim (grant_locked-Ends F v owner pid mb min_mb tier ttl_s now_s free force) [
        | inl e ↦ ap (λ a. a.broker.waiters) e
        | inr (slot, x, at, off, some_mb, least, e) ↦ ap (λ a. a.broker.waiters) e
      ]

  attempt-waiters :
      (v : Vram F) (c : Call F) (now : Double) (free : Option ℕ)
      → (attempt F v c now free).broker.waiters ≡ v.waiters
  unfolding attempt
  attempt-waiters v c now free =
      elim (Bool-cases (
        waiter_ahead_locked F v c.tier (if c.registered then c.wslot else none)
          (slot_since F v now c.wslot) now free)) [
            | inl e ↦ rw (e, attempt) refl
            | inr e ↦
                rw (e, attempt)
                  (grant_locked-waiters v c.name c.pid c.mb c.min_mb c.tier c.ttl_s now free false)
          ]

  -- The entry of the waiting table is free.
  abbrev pub freed : Option (Waiter F) → Option (Waiter F)
  freed none = none
  freed (some w) = some (record w { used = false })

  abbrev pub is_slot : Option ℕ → ℕ → Bool
  is_slot none i = false
  is_slot (some s) i = s == i

  eq_of : (s i : ℕ) → (s == i) ≡ true → i ≡ s
  eq_of s i e = ground arith

  get_elem?-set_at :
      (ws : List (Waiter F)) (s i : ℕ) (w x : Waiter F)
      → get_elem? ws s ≡ some w
      → get_elem? (set ws s x) i ≡ (if s == i then some x else get_elem? ws i)
  get_elem?-set_at [] s i w x e = cc
  get_elem?-set_at (y ∷ ws) zero zero w x e = refl
  get_elem?-set_at (y ∷ ws) zero (suc i) w x e = ground arith
  get_elem?-set_at (y ∷ ws) (suc s) zero w x e = ground arith
  get_elem?-set_at (y ∷ ws) (suc s) (suc i) w x e =
      let rest = get_elem?-set_at ws s i w x e in ground arith

  get_elem?-modify :
      (ws : List (Waiter F)) (s i : ℕ)
      → get_elem? (modify ws s (λ w. record w { used = false })) i
        ≡ (if s == i then freed (get_elem? ws i) else get_elem? ws i)
  get_elem?-modify ws s i = elim (Option-cases (get_elem? ws s)) [
    | inl out ↦ elim (Bool-cases (s == i)) [
      | inl same ↦
          let here : get_elem? ws i ≡ none = ap (get_elem? ws) (eq_of s i same) ∙ out in
          rw (out, modify, same, here) refl
      | inr other ↦ rw (out, modify, other) refl
    ]
    | inr (w, at) ↦ elim (Bool-cases (s == i)) [
      | inl same ↦
          let here : get_elem? ws i ≡ some w = ap (get_elem? ws) (eq_of s i same) ∙ at in
          let put = get_elem?-set_at ws s i w (record w { used = false }) at in
          rw (at, modify, same, here) (rw same at put)
      | inr other ↦
          let put = get_elem?-set_at ws s i w (record w { used = false }) at in
          rw (at, modify, other) (rw other at put)
    ]
  ]

  vacate-freed :
      (ws : List (Waiter F)) (slot : Option ℕ) (i : ℕ)
      → get_elem? (vacate F ws slot) i
        ≡ (if is_slot slot i then freed (get_elem? ws i) else get_elem? ws i)
  vacate-freed ws none i = refl
  vacate-freed ws (some s) i = get_elem?-modify ws s i

  finish-waiters :
      (v : Vram F) (c : Call F) (granted : ℕ) (now : Double) (i : ℕ)
      → get_elem? (finish F v c granted now).waiters i ≡ (
          if c.registered && is_slot c.wslot i
          then freed (get_elem? v.waiters i)
          else get_elem? v.waiters i)
  unfolding finish on_owner unregister
  finish-waiters v c granted now i = elim (Bool-cases c.registered) [
    | inr e ↦ rw (e, unregister) refl
    | inl e ↦ rw (e, unregister) (vacate-freed v.waiters c.wslot i)
  ]

  -- The caller has left the queue: it is no longer counted, its entry of the waiting table is free, and
  -- the other entries are as they were.
  abbrev pub HasLeft : Vram F → Call F → Vram F → Type 0
  HasLeft v c w =
      ((t : ℕ)
        → w.waiting t ≡ (if c.registered && c.tier == t then v.waiting t -ℤ pos 1 else v.waiting t))
      × ((i : ℕ)
          → get_elem? w.waiters i ≡ (
              if c.registered && is_slot c.wslot i
              then freed (get_elem? v.waiters i)
              else get_elem? v.waiters i))

  -- A round at the deadline or after it returns, and the caller has left the queue: it is no longer
  -- counted as waiting, its entry of the waiting table is free, and the other entries are as they
  -- were.
  pub wait_round_ends :
      (v : Vram F) (c : Call F) (now : Double) (free : Option ℕ)
      → le c.deadline now ≡ true
      → (granted : ℕ) × (id : List ℕ) × (w : Vram F) × (wait_round F v c now free
          ≡ returned granted id (mul (sub now c.started) (dec 10000 1)) w)
        × HasLeft v c w
  unfolding wait_round expire_locked
  wait_round_ends v c now free late =
      let x = (expire_locked F v now).0 in
      let a = attempt F x c now free in
      (
        a.granted,
        a.id,
        finish F a.broker c a.granted now,
        elim (Bool-cases (a.granted == 0)) [
          | inl e ↦ rw (e, late, wait_round) refl
          | inr e ↦ rw (e, wait_round) refl
        ],
        (
          (λ t.
              finish-waiting a.broker c a.granted now t
              ∙ ap (λ f. if c.registered && c.tier == t then f t -ℤ pos 1 else f t)
                  (attempt-waiting x c now free)),
          (λ i.
              finish-waiters a.broker c a.granted now i
              ∙ ap
                  (λ ws.
                    if c.registered && is_slot c.wslot i
                    then freed (get_elem? ws i)
                    else get_elem? ws i)
                  (attempt-waiters x c now free)),
        ),
      )
