-- ===== src/Frontier.antt =====
-- src/ofrontier.c: whether a request runs on the local device or goes to a remote one. The policy
-- file is a JSON text; its status and what was read of it are arguments, and so are the clock and
-- `strtod`. NULL arguments, memory that runs out and the log are not modelled.

pub mod Decision
pub mod Load
mod Tests
use omniserve_native.Prelude.{
  ℕ, zero, suc, ◌+◌, ◌/◌, Bool, true, false, not, ◌&&◌, ◌||◌, List, [], ◌∷◌, Option, none, some,
  ltb, leb, ◌==◌, if◌then◌else◌, get_elem?, update, codes, take, length,
}
use omniserve_native.Prelude.Int.{ℤ, pos, pos_part, ltb_ℤ, leb_ℤ}
use omniserve_native.Floats.{DoubleOps}
use omniserve_native.Sched.Snapshot.{SchedStats}
use omniserve_native.Json.{
  Kind, object, string, Tok, Outcome, parsed, invalid, out_of_fuel, parse, same_kind,
}
use omniserve_native.Json.Lookup.{obj_get, str_eq, bool_of}
use omniserve_native.Json.Number.{number}

pub data FrontierPolicy : Type 0 where
  overflow local_only fastest deadline background : FrontierPolicy

pub data Choice : Type 0 where
  local remote : Choice

abbrev pub max_file : ℕ
max_file = 1048576

abbrev pub max_toks : ℕ
max_toks = 8192

pub policy_name : FrontierPolicy → List ℕ
policy_name local_only = codes "local_only"
policy_name fastest = codes "fastest"
policy_name deadline = codes "cheapest_within_deadline"
policy_name background = codes "background"
policy_name overflow = codes "overflow_on_busy"

unfoldable pub parse_policy : List ℕ → Tok → FrontierPolicy
parse_policy js t =
    if str_eq js t (codes "local_only") || str_eq js t (codes "local")
    then local_only
    else if str_eq js t (codes "fastest")
    then fastest
    else if str_eq js t (codes "cheapest_within_deadline")
    then deadline
    else if str_eq js t (codes "background")
    then background
    else overflow

-- The keys of the tiers, by their numbers.
abbrev pub tier_key : ℕ → List ℕ
tier_key zero = codes "paid"
tier_key (suc zero) = codes "sub"
tier_key (suc (suc zero)) = codes "free"
tier_key (suc (suc (suc n))) = codes "background"

-- A lookup in what an earlier one has found.
abbrev pub get_in : List ℕ → List Tok → Option ℕ → List ℕ → Option ℕ
get_in js toks none key = none
get_in js toks (some obj) key = obj_get js toks obj key

-- The token that a lookup has found.
abbrev pub token_at : List Tok → Option ℕ → Option Tok
token_at toks none = none
token_at toks (some i) = get_elem? toks i

abbrev pub is_object : List Tok → Option ℕ → Bool
is_object toks at = elim (token_at toks at) [ none ↦ false | some t ↦ same_kind t.kind object ]

module _ (F : DoubleOps) where
  open F use {Double, dec, of_int, add, sub, mul, div, lt, le}

  pub record Table : Type 0 where
    pub loaded : Bool
    pub local_p50_ms : Double
    pub remote_p50_ms : Double
    pub policy : ℕ → FrontierPolicy
    pub deadline_ms : ℕ → Double
    pub allow_overflow : ℕ → Bool

  unfoldable pub table_default : Table
  table_default = record {
    loaded = false;
    local_p50_ms = dec 0 0;
    remote_p50_ms = dec 0 0;
    policy = λ _. overflow;
    deadline_ms = λ _. dec 0 0;
    allow_overflow = λ _. false;
  }

  module _ (strtod : List ℕ → F.Double × ℕ) where
    unfoldable pub number_at : List ℕ → List Tok → Option ℕ → Double
    number_at js toks at = elim (token_at toks at) [
      | none ↦ dec 0 0
      | some t ↦ number F strtod js t (dec 0 0)
    ]

    abbrev new_policy : List ℕ → Option Tok → FrontierPolicy → FrontierPolicy
    new_policy js none p = p
    new_policy js (some t) p = if same_kind t.kind string then parse_policy js t else p

    abbrev new_allow : List ℕ → Option Tok → Bool → Bool
    new_allow js none b = b
    new_allow js (some t) b = bool_of js t false

    -- A round of the loop over the tiers.
    unfoldable pub with_tier : List ℕ → List Tok → Option ℕ → ℕ → Table → Table
    with_tier js toks tiers i out =
        let tier = get_in js toks tiers (tier_key i) in
        let d = get_in js toks tier (codes "deadline_ms") in
        if not (is_object toks tier) then out else record out {
          policy =
              update out.policy i (
                new_policy js (token_at toks (get_in js toks tier (codes "policy")))
                  (out.policy i));
          deadline_ms = update out.deadline_ms i (elim (token_at toks d) [
            | none ↦ out.deadline_ms i
            | some t ↦ number F strtod js t (dec 0 0)
          ]);
          allow_overflow = update out.allow_overflow i (
              new_allow js (token_at toks (get_in js toks tier (codes "allow_overflow")))
                (out.allow_overflow i));
        }

    -- From the gateway's object on.
    unfoldable pub gateway_table : List ℕ → List Tok → Option ℕ → Bool × Table
    gateway_table js toks gw =
        let lp = number_at js toks (get_in js toks gw (codes "local_p50_ms")) in
        let rp = number_at js toks (get_in js toks gw (codes "remote_p50_ms")) in
        let tiers = get_in js toks gw (codes "tiers") in
        let start = record table_default { local_p50_ms = lp; remote_p50_ms = rp } in
        let filled = with_tier js toks tiers 3 (
          with_tier js toks tiers 2
            (with_tier js toks tiers 1 (with_tier js toks tiers 0 start))) in
        if not (lt (dec 0 0) lp) || not (lt (dec 0 0) rp)
        then (false, table_default)
        else (true, record filled { loaded = true })

    unfoldable pub table_of : List ℕ → List ℕ → List Tok → Bool × Table
    table_of js workload toks =
        let workloads = obj_get js toks 0 (codes "workloads") in
        let w = get_in js toks workloads workload in
        let gw = get_in js toks w (codes "gateway") in
        if is_object toks (some 0) && is_object toks gw
        then gateway_table js toks gw
        else (false, table_default)

    -- Whether a table was read, and the table.
    unfoldable pub parse_table : List ℕ → List ℕ → Bool × Table
    parse_table [] workload = (false, table_default)
    parse_table (c ∷ cs) workload = elim (parse (c ∷ cs) max_toks) [
      | parsed toks ↦ table_of (c ∷ cs) workload toks
      | invalid ↦ (false, table_default)
      | out_of_fuel ↦ (false, table_default)
    ]

  abbrev waiting_to : SchedStats F → ℕ → ℕ
  waiting_to st zero = st.waiting 0
  waiting_to st (suc n) = waiting_to st n + st.waiting (suc n)

  unfoldable pub local_wait_ms : SchedStats F → ℕ → ℤ → Double → Double
  local_wait_ms st tier permits local_p50_ms =
      let each = if ltb_ℤ permits (pos 1) then 1 else pos_part permits in
      let ahead = waiting_to st (if ltb 3 tier then 3 else tier) in
      let slots = if ltb 0 st.slots then st.slots else 1 in
      let lanes = if ltb (slots / each) 1 then 1 else slots / each in
      let running = st.used_slots / each in
      if le local_p50_ms (dec 0 0)
      then dec 0 0
      else mul (div (of_int (pos (ahead + running))) (of_int (pos lanes))) local_p50_ms

  abbrev pub faster : Double → Double → Choice
  faster local_eta remote_eta = if lt remote_eta local_eta then remote else local

  -- The choice by the policy.
  unfoldable pub choose : FrontierPolicy → Bool → Double → Double → Double → Choice
  choose local_only allow deadline_ms local_eta remote_eta = local
  choose fastest allow deadline_ms local_eta remote_eta = faster local_eta remote_eta
  choose deadline allow deadline_ms local_eta remote_eta =
      if lt (dec 0 0) deadline_ms && le local_eta deadline_ms
      then local
      else if lt (dec 0 0) deadline_ms && le remote_eta deadline_ms
      then remote
      else faster local_eta remote_eta
  choose background allow deadline_ms local_eta remote_eta =
      if allow
      then faster local_eta remote_eta
      else if lt (dec 0 0) deadline_ms && (lt deadline_ms local_eta && le remote_eta deadline_ms)
      then remote
      else local
  choose overflow allow deadline_ms local_eta remote_eta = remote

  -- The deadline that counts: the request's, or the table's.
  abbrev pub deadline_of : Table → ℕ → Double → Double
  deadline_of t tier deadline_ms =
      if not (lt (dec 0 0) deadline_ms) then t.deadline_ms tier else deadline_ms

  unfoldable pub decide : Table → ℕ → Double → Double → Choice
  decide t tier local_wait deadline_ms =
      if not t.loaded || ltb 3 tier
      then remote
      else choose (t.policy tier) (t.allow_overflow tier) (deadline_of t tier deadline_ms)
          (add local_wait t.local_p50_ms) t.remote_p50_ms

  -- `stat` of the policy file.
  pub record FileStat : Type 0 where
    pub mtime : ℤ
    pub mtime_ns : ℤ
    pub size : ℤ

  pub record Frontier : Type 0 where
    pub policy_path : List ℕ
    pub workload : List ℕ
    pub table : Table
    pub mtime : ℤ
    pub mtime_ns : ℤ
    pub size : ℤ
    pub checked_at : Double

  abbrev pub is_empty : List ℕ → Bool
  is_empty [] = true
  is_empty (c ∷ cs) = false

  abbrev or_image : List ℕ → List ℕ
  or_image [] = codes "image"
  or_image (c ∷ cs) = c ∷ cs

  unfoldable pub open_frontier : List ℕ → List ℕ → List ℕ → Option Frontier
  open_frontier policy_path workload log_path =
      if is_empty policy_path && is_empty log_path
      then none
      else some (record {
        policy_path = take 511 policy_path;
        workload = take 63 (or_image workload);
        table = table_default;
        mtime = pos 0;
        mtime_ns = pos 0;
        size = pos 0;
        checked_at = sub (dec 0 0) (dec 1000000000 0);
      })

  abbrev pub same_ℤ : ℤ → ℤ → Bool
  same_ℤ a b = leb_ℤ a b && leb_ℤ b a

  abbrev pub unchanged : Frontier → FileStat → Bool
  unchanged f sb =
      f.table.loaded
      && (same_ℤ sb.mtime f.mtime && (same_ℤ sb.mtime_ns f.mtime_ns && same_ℤ sb.size f.size))

  module _ (strtod : List ℕ → F.Double × ℕ) where
    -- The file as it was read: a table is taken only if all of it was.
    unfoldable pub take_table : Frontier → FileStat → List ℕ → Frontier
    take_table f sb buf =
        let (ok, next) = parse_table strtod buf f.workload in
        if same_ℤ (pos (length buf)) sb.size && ok
        then record f { table = next; mtime = sb.mtime; mtime_ns = sb.mtime_ns; size = sb.size }
        else f

    -- `none` for a file that is not there, and for one that cannot be read.
    unfoldable pub reload_locked : Frontier → Option FileStat → Option (List ℕ) → Frontier
    reload_locked f none buf = record f { table = table_default; mtime = pos 0 }
    reload_locked f (some sb) buf =
        if is_empty f.policy_path
        then record f { table = table_default; mtime = pos 0 }
        else if unchanged f sb || (leb_ℤ sb.size (pos 0) || ltb_ℤ (pos max_file) sb.size)
        then f
        else elim buf [ none ↦ f | some text ↦ take_table f sb text ]

    -- Whether there is a table, the table, and the state.
    unfoldable pub snapshot :
        Frontier → Double → Option FileStat → Option (List ℕ) → Bool × Table × Frontier
    snapshot f now sb buf =
        let g =
          if le (dec 10 1) (sub now f.checked_at)
          then reload_locked (record f { checked_at = now }) sb buf
          else f in
        (g.table.loaded, g.table, g)
