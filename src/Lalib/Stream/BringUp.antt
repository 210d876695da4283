-- ===== src/Lalib/Stream/BringUp.antt =====
-- How `rfnm_la9310_stream` (kernel_driver/la9310rfnm/rfnm_lalib.c) brings the modem to a plan.

use la9310_driver.Base.{
  ℕ, ◌≡◌, ◌⊎◌, inl, inr, refl, sym, ap, ◌∙◌, Bool, true, false, not, ◌||◌, if-intro, if◌then◌else◌,
  ◌==◌, ltb, List, ◌∷◌, ℤ, pos, is_zero, failure, success, arith,
}
use la9310_driver.Vspa.Registry.{running_has}
use la9310_driver.Lalib.Plan.{DcsPlan, dcs_max, dcs_min}
use la9310_driver.Lalib.Reset.{Platform, Drv, hard_reset, kernel_swap}
use la9310_driver.Lalib.Reset.Effect.{hard_reset-ResetAt, kernel_swap-Still}
use la9310_driver.Lalib.Stream.{select, reclock, change_kernel, bring_up}

module _ {W : Type 0} (pf : Platform W) where
  -- The modem is at the clock of a plan if the result is 0, and it was reprobed at that clock or not
  -- at all.
  pub record BroughtUp (p : DcsPlan) (d : Drv W) (r : ℤ × Drv W) : Type 0 where
    pub selected : r.0 ≡ pos 0 → r.1.selected_dcs_freq ≡ p.dcs_freq
    pub reprobed :
        (r.1.reprobed ≡ d.reprobed)
        ⊎ ((r.1.reprobed ≡ p.dcs_freq ∷ d.reprobed)
            × ((pf.dcs_freq_supported p.dcs_freq ≡ true) ⊎ (p.dcs_freq ≡ d.selected_dcs_freq)))

  reclock-BroughtUp : (p : DcsPlan) (d : Drv W) → BroughtUp p d (reclock pf p d)
  unfolding reclock
  reclock-BroughtUp p d =
      if-intro (BroughtUp p d) (ltb p.dcs_freq dcs_min || ltb dcs_max p.dcs_freq) _ _
        (λ _. record { selected = λ e. absurd (cc); reprobed = inl refl })
        λ _.
          if-intro (BroughtUp p d) (not (pf.dcs_freq_supported p.dcs_freq)) _ _
            (λ _. record { selected = λ e. absurd (cc); reprobed = inl refl })
            λ ok.
              let s = select pf p.caps d in
              if-intro (BroughtUp p d) (not (is_zero s.0)) _ _
                (λ bad. record { selected = λ e. absurd (failure s.0 bad e); reprobed = inl refl })
                λ _.
                  let r = hard_reset pf p.dcs_freq s.1 in
                  let f = hard_reset-ResetAt pf p.dcs_freq s.1 in
                  let at : (r.1.reprobed ≡ d.reprobed)
                      ⊎ ((r.1.reprobed ≡ p.dcs_freq ∷ d.reprobed)
                          × ((pf.dcs_freq_supported p.dcs_freq ≡ true)
                              ⊎ (p.dcs_freq ≡ d.selected_dcs_freq))) =
                    elim (f.reprobed) [
                      | inl e ↦ inl e
                      | inr e ↦ inr (e, inl (supported (pf.dcs_freq_supported p.dcs_freq) ok))
                    ] in
                  if-intro (BroughtUp p d) (not (is_zero r.0)) _ _
                    (λ bad. record { selected = λ e. absurd (failure r.0 bad e); reprobed = at })
                    λ _. record { selected = λ _. refl; reprobed = at }
    where
      supported : (b : Bool) → not b ≡ false → b ≡ true
      supported b h = ground arith

  change_kernel-BroughtUp :
      (p : DcsPlan) (d : Drv W)
      → p.dcs_freq ≡ d.selected_dcs_freq
      → BroughtUp p d (change_kernel pf p d)
  unfolding change_kernel
  change_kernel-BroughtUp p d same =
      let k = kernel_swap pf p.caps d in
      let kept = kernel_swap-Still pf p.caps d in
      let s = select pf p.caps k.1 in
      let r = hard_reset pf p.dcs_freq s.1 in
      let f = hard_reset-ResetAt pf p.dcs_freq s.1 in
      let back =
        if-intro (BroughtUp p d) (not (is_zero s.0)) s r
          (λ bad. record {
            selected = λ e. absurd (failure s.0 bad e);
            reprobed = inl (kept.reprobed);
          })
          (λ _. record {
            selected = λ _. f.selected ∙ kept.selected ∙ sym same;
            reprobed = elim (f.reprobed) [
              | inl e ↦ inl (e ∙ kept.reprobed)
              | inr e ↦ inr (e ∙ ap (λ (l : List ℕ). p.dcs_freq ∷ l) (kept.reprobed), inr same)
            ];
          }) in
      let swapped : ℤ × Drv W =
        if not (is_zero k.0) then (if not (is_zero s.0) then s else r) else k in
      let i =
        if-intro (BroughtUp p d) (not (is_zero k.0)) (if not (is_zero s.0) then s else r) k
          (λ _. back)
          (λ _. record {
            selected = λ _. kept.selected ∙ sym same;
            reprobed = inl (kept.reprobed);
          }) in
      if-intro (BroughtUp p d) (not (is_zero swapped.0)) _ _
        (λ _. record { selected = i.selected; reprobed = i.reprobed })
        λ ok. record { selected = λ _. i.selected (success swapped.0 ok); reprobed = i.reprobed }

  pub bring_up-BroughtUp : (p : DcsPlan) (d : Drv W) → BroughtUp p d (bring_up pf p d)
  unfolding bring_up
  bring_up-BroughtUp p d =
      if-intro (BroughtUp p d) (not (p.dcs_freq == d.selected_dcs_freq)) _ _
        (λ _. reclock-BroughtUp p d)
        λ h.
          let same : p.dcs_freq ≡ d.selected_dcs_freq = ground arith in
          if-intro (BroughtUp p d) (not (running_has d.registry p.caps)) _ _
            (λ _. change_kernel-BroughtUp p d same)
            λ _. record { selected = λ _. sym same; reprobed = inl refl }
