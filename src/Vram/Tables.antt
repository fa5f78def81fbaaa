-- ===== src/Vram/Tables.antt =====
-- The tables of src/ovram.c besides the leases, and `expire_locked`.
use omniserve_native.Prelude.{
  ℕ, ◌+◌, Bool, true, false, not, ◌&&◌, List, [], ◌∷◌, Option, none, some, ltb, ◌==◌, if◌then◌else◌,
  set, map,
}
use omniserve_native.Prelude.Int.{ℤ, pos, pos_part, ltb_ℤ}
use omniserve_native.Floats.{DoubleOps}
use omniserve_native.Json.Lookup.{same_bytes}
use omniserve_native.Vram.{
  Reservation, Proc, Lease, Owner, Vram, owner_name, is_none, or_else, modify,
}
use omniserve_native.Vram.Setup.{no_owner}

module _ (F : DoubleOps) where
  open F use {Double, dec, lt, le}

  abbrev find_proc : List Proc → ℕ → Option ℕ
  find_proc [] pid = none
  find_proc (p ∷ ps) pid = if p.pid == pid then some p.used_mb else find_proc ps pid

  -- The pid's memory on the device; a table without the pid means that it holds none.
  unfoldable pub proc_used_locked : Vram F → ℕ → Option ℕ
  proc_used_locked v pid = if pid == 0 then none else elim (find_proc v.procs pid) [
    | some used_mb ↦ some used_mb
    | none ↦ if v.procs_valid then some 0 else none
  ]

  -- Whether the name was found, and the slot.
  unfoldable pub owner_scan : List (Owner F) → ℕ → List ℕ → Option ℕ → ℕ → Double → Bool × ℕ
  owner_scan [] i name free_slot oldest last = (false, or_else free_slot oldest)
  owner_scan (o ∷ os) i name free_slot oldest last =
      let rest =
        owner_scan os (i + 1) name (if not o.used && is_none free_slot then some i else free_slot)
          (if lt o.last_active_s last then i else oldest)
          (if lt o.last_active_s last then o.last_active_s else last) in
      if o.used && same_bytes o.name name then (true, i) else rest

  abbrev first_active : List (Owner F) → Double
  first_active [] = dec 0 0
  first_active (o ∷ os) = o.last_active_s

  -- The owners, and the index of the one to be used.
  unfoldable pub owner_locked : List (Owner F) → List ℕ → ℕ → List (Owner F) × ℕ
  owner_locked owners name pid =
      let (known, i) = owner_scan owners 0 name none 0 (first_active owners) in
      if known
      then (modify owners i (λ o. record o { pid = if ltb 0 pid then pid else o.pid }), i)
      else (
        set owners i (record (no_owner F) { name = owner_name name; pid = pid; used = true }),
        i,
      )

  -- `owner_locked` and the writes through the pointer that it returns.
  unfoldable pub on_owner : Vram F → List ℕ → ℕ → (Owner F → Owner F) → Vram F
  on_owner v name pid change =
      let (owners, i) = owner_locked v.owners name pid in
      record v { owners = modify owners i change }

  -- Whether `expire_locked` gives this lease back.
  abbrev pub is_over : Double → Lease F → Bool
  is_over now_s l = l.active && not (lt now_s l.expires_s)

  abbrev pub expire_lease : Double → Lease F → Lease F
  expire_lease now_s l = record l { active = if is_over now_s l then false else l.active }

  abbrev pub count_over : Double → List (Lease F) → ℕ
  count_over now_s [] = 0
  count_over now_s (l ∷ ls) = (if is_over now_s l then 1 else 0) + count_over now_s ls

  -- The broker, and how many leases were given back.
  unfoldable pub expire_locked : Vram F → Double → Vram F × ℕ
  expire_locked v now_s = (
    record v {
      now = now_s;
      leases = map (expire_lease now_s) v.leases;
      expirations = v.expirations + count_over now_s v.leases;
    },
    count_over now_s v.leases,
  )

  abbrev pub active_mb : Reservation → ℕ
  active_mb r = if r.active then r.mb else 0

  unfoldable pub reserved_from : List Reservation → ℕ
  reserved_from [] = 0
  reserved_from (r ∷ rs) = active_mb r + reserved_from rs

  unfoldable pub reserved_mb_locked : Vram F → ℕ
  reserved_mb_locked v = reserved_from v.reservations

  unfoldable pub reserve_scan : List Reservation → ℕ → List ℕ → Option ℕ → Option ℕ
  reserve_scan [] i owner slot = slot
  reserve_scan (r ∷ rs) i owner slot =
      let rest =
        reserve_scan rs (i + 1) owner (if is_none slot && not r.active then some i else slot) in
      if r.active && same_bytes r.owner owner then some i else rest

  unfoldable pub reserve : Vram F → List ℕ → ℤ → Bool × Vram F
  reserve v [] mb = (false, v)
  reserve v (c ∷ cs) mb =
      if ltb_ℤ mb (pos 0) then (false, v) else elim (reserve_scan v.reservations 0 (c ∷ cs) none) [
        | none ↦ (false, v)
        | some slot ↦ (
          true,
          record v {
            reservations = set v.reservations slot (record {
              owner = owner_name (c ∷ cs);
              mb = pos_part mb;
              active = ltb_ℤ (pos 0) mb;
            });
          },
        )
      ]
