-- ===== src/Residency/Broker/Promote.antt =====
-- What `ores_report_at` of src/oresidency.c tells a claimant: when its weights may go on the device.
use omniserve_native.Prelude.{
  ℕ, ◌≡◌, refl, ◌⊎◌, inl, inr, true, false, Bool-cases, Option-cases, get_elem?, set,
}
use omniserve_native.Prelude.Int.{ℤ, pos, ltb_ℤ, leb_ℤ}
use omniserve_native.Floats.{DoubleOps}
use omniserve_native.Residency.{Claim, Ores, Report, find_claim}
use omniserve_native.Residency.Broker.{decide, free_now, report_at, reported, admit_all, is_nil}

module _ (F : DoubleOps) where
  open F use {Double, lt}

  -- Told to be resident, a claim is admitted on a device that answers, and was resident already, or
  -- fits what the device has free beside what is kept free and the stream reserve.
  decide-IsSafe :
      (r : Ores F) (at : ℕ) (c : Claim F) (now : Double) (free : ℤ)
      → (decide F r at c now free).1.resident ≡ true
      → (ltb_ℤ free (pos 0) ≡ false)
        × (c.admitted ≡ true)
        × ((c.resident ≡ true) ⊎ (leb_ℤ (pos c.resident_mb) (free_now F r now free) ≡ true))
  unfolding decide
  decide-IsSafe r at c now free e = elim (Bool-cases (ltb_ℤ free (pos 0))) [
    | inl blind ↦ let e' = rw (blind, decide) at e in cc
    | inr seen ↦ elim (Bool-cases c.admitted) [
      | inr out ↦ let e' = rw (seen, out, decide) at e in cc
      | inl admitted ↦ elim (Bool-cases c.resident) [
        | inl resident ↦ (seen, admitted, inl resident)
        | inr streamed ↦ elim (Bool-cases (leb_ℤ (pos c.resident_mb) (free_now F r now free))) [
          | inl room ↦ (seen, admitted, inr room)
          | inr full ↦ let e' = rw (seen, admitted, streamed, full, decide) at e in cc
        ]
      ]
    ]
  ]

  decide_blind :
      (r : Ores F) (at : ℕ) (c : Claim F) (now : Double) (free : ℤ)
      → ltb_ℤ free (pos 0) ≡ true
      → (decide F r at c now free).1.resident ≡ false
  unfolding decide
  decide_blind r at c now free blind = rw (blind, decide) refl

  -- Without the device's figure every report is answered with streamed weights.
  pub report_at_blind :
      (exp2 : Double → Double) (r : Ores F) (report : Report F) (now : Double) (free : ℤ)
      → ltb_ℤ free (pos 0) ≡ true
      → (report_at F exp2 r report now free).1.resident ≡ false
  unfolding report_at
  report_at_blind exp2 r report now free blind = elim (Bool-cases (is_nil F report.owner)) [
    | inl nobody ↦ rw (nobody, report_at) refl
    | inr named ↦ elim (Option-cases (find_claim F r.cfg r.claims report.owner now).1) [
      | inl full ↦ rw (named, full, report_at) refl
      | inr (at, e) ↦
          elim (Option-cases (get_elem? (find_claim F r.cfg r.claims report.owner now).0 at)) [
            | inl out ↦ rw (named, e, out, report_at) refl
            | inr (c, f) ↦
                let after =
                  admit_all F exp2
                    (record r {
                      claims =
                          set (find_claim F r.cfg r.claims report.owner now).0 at
                            (reported F exp2 r.cfg report now c);
                    })
                    now free in
                elim (Option-cases (get_elem? after.claims at)) [
                  | inl gone ↦ rw (named, e, f, gone, report_at) refl
                  | inr (d, g) ↦
                      rw (named, e, f, g, report_at) (decide_blind after at d now free blind)
                ]
          ]
    ]
  ]
