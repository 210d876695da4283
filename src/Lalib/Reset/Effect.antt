-- ===== src/Lalib/Reset/Effect.antt =====
-- What a reset of the modem and a swap of its kernel leave alone
-- (kernel_driver/la9310rfnm/la9310_rfnm.c).
use la9310_driver.Base.{
  ℕ, ◌≡◌, ◌⊎◌, inl, inr, refl, ◌∙◌, true, not, if-intro, if◌then◌else◌, ◌∷◌, ◌==◌, ℤ, is_zero,
}
use la9310_driver.Vspa.Registry.{select_for}
use la9310_driver.Lalib.Reset.{
  Platform, Drv, outside, quiesced, stopped, reprobe, hard_reset, swap_image, kernel_swap,
}

module _ {W : Type 0} (pf : Platform W) where
  -- The published state is the same, and the modem was reprobed at `f` or not at all.
  pub record ResetAt (f : ℕ) (d d' : Drv W) : Type 0 where
    pub selected : d'.selected_dcs_freq ≡ d.selected_dcs_freq
    pub reprobed : (d'.reprobed ≡ d.reprobed) ⊎ (d'.reprobed ≡ f ∷ d.reprobed)

  -- The published state is the same, and the modem was not reprobed.
  pub record Still (d d' : Drv W) : Type 0 where
    pub selected : d'.selected_dcs_freq ≡ d.selected_dcs_freq
    pub reprobed : d'.reprobed ≡ d.reprobed

  abbrev pub ResetAtAfter : ℕ → Drv W → ℤ × Drv W → Type 0
  ResetAtAfter f d r = ResetAt f d r.1

  abbrev pub StillAfter : Drv W → ℤ × Drv W → Type 0
  StillAfter d r = Still d r.1

  abbrev untouched : (d : Drv W) → Still d d
  untouched d = record { selected = refl; reprobed = refl }

  reprobe-ResetAt : (f : ℕ) (d : Drv W) → ResetAtAfter f d (reprobe pf f d)
  unfolding reprobe
  reprobe-ResetAt f d =
      if-intro (ResetAtAfter f d)
        (not (is_zero (pf.hard_reprobe f d.registry (pf.reset_stream_io_state d.sys.world)).0)) _ _
        (λ _. record { selected = refl; reprobed = inr refl })
        λ _. record { selected = refl; reprobed = inr refl }

  pub hard_reset-ResetAt : (f : ℕ) (d : Drv W) → ResetAtAfter f d (hard_reset pf f d)
  unfolding hard_reset
  hard_reset-ResetAt f d =
      let s = stopped pf (quiesced pf (record d { commanded_reset = true })) in
      let tried = reprobe-ResetAt f s.1 in
      let inner =
        if-intro (ResetAtAfter f d) (not (is_zero s.0)) s (reprobe pf f s.1)
          (λ _. record { selected = refl; reprobed = inl refl })
          (λ _. record { selected = tried.selected; reprobed = tried.reprobed }) in
      if-intro (ResetAtAfter f d) (f == 0) _ _
        (λ _. record { selected = refl; reprobed = inl refl })
        λ _. record { selected = inner.selected; reprobed = inner.reprobed }

  swap_image-Still : (caps : ℕ) (d : Drv W) → StillAfter d (swap_image pf caps d)
  unfolding swap_image
  swap_image-Still caps d =
      if-intro (StillAfter d) (not (is_zero (select_for pf.hweight32 caps d.registry).0)) _ _
        (λ _. record { selected = refl; reprobed = refl })
        λ _. record { selected = refl; reprobed = refl }

  pub kernel_swap-Still : (caps : ℕ) (d : Drv W) → StillAfter d (kernel_swap pf caps d)
  unfolding kernel_swap
  kernel_swap-Still caps d =
      let d₁ : Drv W =
        if pf.vspa_core_busy d.sys.world then outside pf pf.modem.msleep (quiesced pf d) else d in
      let first =
        if-intro (Still d) (pf.vspa_core_busy d.sys.world)
          (outside pf pf.modem.msleep (quiesced pf d)) d
          (λ _. record { selected = refl; reprobed = refl }) (λ _. untouched d) in
      let s = stopped pf d₁ in
      let swapped =
        swap_image-Still caps
          (outside pf (λ (w : W). pf.vspa_handoff true (pf.reset_stream_io_state w)) s.1) in
      if-intro (StillAfter d) (not (is_zero s.0)) _ _
        (λ _. record { selected = first.selected; reprobed = first.reprobed })
        λ _. record {
          selected = swapped.selected ∙ first.selected;
          reprobed = swapped.reprobed ∙ first.reprobed;
        }
