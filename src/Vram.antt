-- ===== src/Vram.antt =====
-- src/ovram.c: which tenant of the device may use how much of its memory, and for how long. The
-- fixed arrays are lists of their length; a C string is the list of its bytes, and `snprintf` into
-- an array keeps what fits. Megabytes that the broker keeps are never negative; -1 for "unknown" is
-- `none`, and a pid that is not positive is 0. Sums of `int` and 64-bit counters do not wrap. The
-- driver's figures and the clock are arguments; NULL arguments, the mutex and the condition variable
-- are not modelled: each critical section is one step.
pub mod Setup
pub mod Tables
pub mod Charges
pub mod Queue
pub mod Grant
pub mod Ops
pub mod Wait
pub mod Book
pub mod Room
pub mod Id
pub mod Declare
pub mod Turn
mod Tests
use omniserve_native.Prelude.{
  ℕ, ◌+◌, ◌*◌, ◌/◌, Bool, true, false, not, ◌&&◌, List, [], ◌∷◌, Option, none, some, ltb, ◌==◌,
  if◌then◌else◌, get_elem?, set, take, replicate, map, length,
}
use omniserve_native.Prelude.Int.{ℤ, pos, pos_part, ltb_ℤ, leb_ℤ}
use omniserve_native.Floats.{DoubleOps}
use omniserve_native.Json.Lookup.{same_bytes}

abbrev pub max_leases : ℕ
max_leases = 64

abbrev pub max_reservations : ℕ
max_reservations = 8

abbrev pub max_owners : ℕ
max_owners = 32

abbrev pub max_procs : ℕ
max_procs = 64

abbrev pub max_waiters : ℕ
max_waiters = 64

-- What `char owner[OVRAM_OWNER_CAP]` holds of a name.
abbrev pub owner_name : List ℕ → List ℕ
owner_name name = take 31 name

abbrev pub is_none {ℓ} : {A : Type ℓ} → Option A → Bool
is_none none = true
is_none (some a) = false

abbrev pub or_else {ℓ} : {A : Type ℓ} → Option A → A → A
or_else none d = d
or_else (some a) d = a

-- One cell of a table is changed in place.
abbrev pub modify {ℓ} : {A : Type ℓ} → List A → ℕ → (A → A) → List A
modify xs i f = elim (get_elem? xs i) [ none ↦ xs | some x ↦ set xs i (f x) ]

-- A name that is missing or empty.
abbrev pub or_anon : List ℕ → List ℕ
or_anon [] = 97 ∷ 110 ∷ 111 ∷ 110 ∷ []
or_anon (c ∷ cs) = c ∷ cs

unfoldable pub floor_for_tier : ℕ → ℕ → ℕ
floor_for_tier keep_free_mb tier =
    if tier == 0
    then keep_free_mb / 4
    else if tier == 1
    then keep_free_mb / 2
    else if tier == 2
    then keep_free_mb * 3 / 4
    else keep_free_mb

pub record Reservation : Type 0 where
  pub owner : List ℕ
  pub mb : ℕ
  pub active : Bool

pub record Proc : Type 0 where
  pub pid : ℕ
  pub used_mb : ℕ

module _ (F : DoubleOps) where
  open F use {Double, dec, lt, le}

  pub record Lease : Type 0 where
    pub owner : List ℕ
    pub mb : ℕ
    pub expires_s : Double
    pub granted_s : Double
    pub id : List ℕ
    pub tier : ℕ
    pub pid : ℕ
    pub base_mb : Option ℕ
    pub active : Bool

  pub record Owner : Type 0 where
    pub name : List ℕ
    pub pid : ℕ
    pub last_active_s : Double
    pub peak_mb : ℕ
    pub grants : ℕ
    pub denials : ℕ
    pub waits : ℕ
    pub timeouts : ℕ
    pub wait_ms_total : Double
    pub wait_ms_max : Double
    pub used : Bool

  pub record Waiter : Type 0 where
    pub used : Bool
    pub tier : ℕ
    pub need : ℕ
    pub since : Double

  -- `procs` are the first `nprocs` ones; `has_hook` says that the pressure hook is set.
  pub record Vram : Type 0 where
    pub keep_free_mb : ℕ
    pub default_ttl_s : Double
    pub leases : List Lease
    pub reservations : List Reservation
    pub owners : List Owner
    pub procs : List Proc
    pub procs_valid : Bool
    pub waiting : ℕ → ℤ
    pub waiters : List Waiter
    pub block_max_s : Double
    pub job_lease_s : Double
    pub now : Double
    pub has_hook : Bool
    pub pressure_after_ms : ℤ
    pub next_id : ℕ
    pub grants : ℕ
    pub partial_grants : ℕ
    pub denials : ℕ
    pub releases : ℕ
    pub expirations : ℕ
    pub waits : ℕ
    pub wait_timeouts : ℕ
    pub forced : ℕ
    pub pressure_calls : ℕ
    pub pressure_freed_mb : ℕ
