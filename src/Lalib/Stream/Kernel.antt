-- ===== src/Lalib/Stream/Kernel.antt =====
-- Which VSPA kernel runs when a stream starts (`rfnm_la9310_stream` of
-- kernel_driver/la9310rfnm/rfnm_lalib.c).
use mathlib.Core.Path.{subst}
use la9310_driver.Base.{
  ℕ, ◌<◌, ◌≡◌, refl, sym, ap, ◌∙◌, true, not, ◌||◌, if-intro, if◌then◌else◌, ◌==◌, ltb, ℤ, pos,
  negsuc, is_zero, some, failure, success, arith,
}
use la9310_driver.Vspa.Bus.{Bus, Sys}
use la9310_driver.Vspa.Boot.{boot_selected, probe_boot}
use la9310_driver.Vspa.Boot.Outcome.{booted_reg}
use la9310_driver.Vspa.Boot.Done.{boot_selected_done, probe_boot_done}
use la9310_driver.Vspa.Registry.{Registry, provides, running_has}
use la9310_driver.Vspa.Registry.Select.{select_for_lem}
use la9310_driver.Lalib.Plan.{Lanes, DcsPlan, PlanResult, planned, refused, plan, dcs_max, dcs_min}
use la9310_driver.Lalib.Word.{stream_word}
use la9310_driver.Lalib.Reset.{
  Platform, Drv, outside, quiesced, stopped, reprobe, hard_reset, swap_image, kernel_swap,
}
use la9310_driver.Lalib.Stream.Outcome.{publish-Published, apply_word-Sends}
use la9310_driver.Lalib.Stream.{select, reclock, change_kernel, bring_up, publish, run_plan, stream}

-- The images of `r'` are those of `r`, and the image that `r` selects runs.
pub record Boots (r r' : Registry) : Type 0 where
  pub entries : r'.entries ≡ r.entries
  pub cnt : r'.cnt ≡ r.cnt
  pub running : r'.running ≡ r.selected

-- A boot that gives 0 is a run of the registry's boot of the selected image with that code. A
-- reprobe that gives 0, where the selection is the index of an image, has made such a run of the
-- registry's boot at probe time. Nothing else that they do changes the registry.
pub record RunsBoots (b : Bus) {W : Type 0} (pf : Platform W) : Type 0 where
  pub by_reprobe :
      (f : ℕ) (r : Registry) (w : W) (i : ℕ)
      → r.selected ≡ pos i
      → i < r.cnt
      → (pf.hard_reprobe f r w).0 ≡ pos 0
      → (s : Sys b) × (t : Sys b) × (s.reg ≡ r)
        × (probe_boot pf.hweight32 s ≡ some (pos 0, t))
        × (t.reg ≡ (pf.hard_reprobe f r w).1)
  pub by_boot :
      (r : Registry) (w : W)
      → (pf.boot_selected r w).0 ≡ pos 0
      → (s : Sys b) × (t : Sys b) × (s.reg ≡ r)
        × (boot_selected true s ≡ some (pos 0, t))
        × (t.reg ≡ (pf.boot_selected r w).1)

-- A boot that gives 0 leaves the selected image running; so does a reprobe where the selection is
-- the index of an image. (Without one, a reprobe selects an image itself.)
record BootsSelection {W : Type 0} (pf : Platform W) : Type 0 where
  pub by_reprobe :
      (f : ℕ) (r : Registry) (w : W) (i : ℕ)
      → r.selected ≡ pos i
      → i < r.cnt
      → (pf.hard_reprobe f r w).0 ≡ pos 0
      → Boots r (pf.hard_reprobe f r w).1
  pub by_boot :
      (r : Registry) (w : W) → (pf.boot_selected r w).0 ≡ pos 0 → Boots r (pf.boot_selected r w).1

booted-Boots : (i : ℕ) (r r' : Registry) → r.selected ≡ pos i → r' ≡ booted_reg i r → Boots r r'
booted-Boots i r r' h e = rw e (record { entries = refl; cnt = refl; running = sym h })

probed-Boots :
    (i : ℕ) (r r' : Registry)
    → r.selected ≡ pos i
    → r' ≡ booted_reg i (record r { running = negsuc 0; selected = pos i })
    → Boots r r'
probed-Boots i r r' h e = rw e (record { entries = refl; cnt = refl; running = sym h })

RunsBoots-BootsSelection :
    (b : Bus) {W : Type 0} (pf : Platform W) → RunsBoots b pf → BootsSelection pf
RunsBoots-BootsSelection b pf runs = record {
  by_reprobe = λ f r w i selected inside e.
      let (s, t, same, run, out) = runs.by_reprobe f r w i selected inside e in
      let done =
        probe_boot_done pf.hweight32 s t i (ap (λ (x : Registry). x.selected) same ∙ selected)
          (rw same inside) run in
      probed-Boots i r _ selected (
        sym out
        ∙ done
        ∙ ap (λ (x : Registry). booted_reg i (record x { running = negsuc 0; selected = pos i }))
            same);
  by_boot = λ r w e.
      let (s, t, same, run, out) = runs.by_boot r w e in
      let (i, selected, done) = boot_selected_done s t run in
      booted-Boots i r _ (sym (ap (λ (x : Registry). x.selected) same) ∙ selected)
        (sym out ∙ done ∙ ap (booted_reg i) same);
}

same_images :
    (r r' : Registry) (z : ℤ) (caps : ℕ)
    → r'.entries ≡ r.entries
    → r'.cnt ≡ r.cnt
    → provides r' z caps ≡ provides r z caps
unfolding provides
same_images r r' (negsuc n) caps e c = refl
same_images r r' (pos i) caps e c = cc

provides-inside :
    (r : Registry) (z : ℤ) (caps : ℕ)
    → provides r z caps ≡ true
    → (i : ℕ) × (z ≡ pos i) × (i < r.cnt)
unfolding provides
provides-inside r (negsuc n) caps h = absurd (cc h)
provides-inside r (pos i) caps h = (i, refl, ground (arith, h))

Boots-running_has :
    (r r' : Registry) (caps : ℕ)
    → Boots r r'
    → provides r r.selected caps ≡ true
    → running_has r' caps ≡ true
unfolding running_has
Boots-running_has r r' caps b h =
    same_images r r' r'.running caps b.entries b.cnt
    ∙ ap (λ (z : ℤ). provides r z caps) b.running
    ∙ h

module _ {W : Type 0} (pf : Platform W) (boots : BootsSelection pf) where
  -- If the result is 0, the running image provides `caps`.
  abbrev Runs : ℕ → ℤ × Drv W → Type 0
  Runs caps r = r.0 ≡ pos 0 → running_has r.1.registry caps ≡ true

  abbrev Selected : ℕ → Drv W → Type 0
  Selected caps d = provides d.registry d.registry.selected caps ≡ true

  select-Selected :
      (caps : ℕ) (d : Drv W) → (select pf caps d).0 ≡ pos 0 → Selected caps (select pf caps d).1
  select-Selected caps d e =
      let (_, _, s, _, _, _) = select_for_lem pf.hweight32 caps d.registry in s e

  reprobe-Runs : (f caps : ℕ) (d : Drv W) → Selected caps d → Runs caps (reprobe pf f d)
  unfolding reprobe
  reprobe-Runs f caps d h =
      let w = pf.reset_stream_io_state d.sys.world in
      let r = pf.hard_reprobe f d.registry w in
      if-intro (Runs caps) (not (is_zero r.0)) _ _ (λ bad e. absurd (failure r.0 bad e))
        λ _ e.
          let (i, selected, inside) = provides-inside d.registry d.registry.selected caps h in
          Boots-running_has d.registry r.1 caps
            (boots.by_reprobe f d.registry w i selected inside e) h

  hard_reset-Runs : (f caps : ℕ) (d : Drv W) → Selected caps d → Runs caps (hard_reset pf f d)
  unfolding hard_reset
  hard_reset-Runs f caps d h =
      let s = stopped pf (quiesced pf (record d { commanded_reset = true })) in
      let inner =
        if-intro (Runs caps) (not (is_zero s.0)) s (reprobe pf f s.1)
          (λ bad e. absurd (failure s.0 bad e)) (λ _. reprobe-Runs f caps s.1 h) in
      if-intro (Runs caps) (f == 0) _ _ (λ _ e. absurd (cc)) λ _ e. inner e

  swap_image-Runs : (caps : ℕ) (d : Drv W) → Runs caps (swap_image pf caps d)
  unfolding swap_image
  swap_image-Runs caps d =
      let s = select pf caps d in
      if-intro (Runs caps) (not (is_zero s.0)) _ _ (λ bad e. absurd (failure s.0 bad e))
        λ ok e.
          Boots-running_has s.1.registry (pf.boot_selected s.1.registry d.sys.world).1 caps
            (boots.by_boot s.1.registry d.sys.world e) (select-Selected caps d (success s.0 ok))

  kernel_swap-Runs : (caps : ℕ) (d : Drv W) → Runs caps (kernel_swap pf caps d)
  unfolding kernel_swap
  kernel_swap-Runs caps d =
      let d₁ : Drv W =
        if pf.vspa_core_busy d.sys.world then outside pf pf.modem.msleep (quiesced pf d) else d in
      let s = stopped pf d₁ in
      if-intro (Runs caps) (not (is_zero s.0)) _ _ (λ bad e. absurd (failure s.0 bad e))
        λ _ e.
          swap_image-Runs caps
            (outside pf (λ (w : W). pf.vspa_handoff true (pf.reset_stream_io_state w)) s.1) e

  reclock-Runs : (p : DcsPlan) (d : Drv W) → Runs p.caps (reclock pf p d)
  unfolding reclock
  reclock-Runs p d =
      if-intro (Runs p.caps) (ltb p.dcs_freq dcs_min || ltb dcs_max p.dcs_freq) _ _
        (λ _ e. absurd (cc))
        λ _.
          if-intro (Runs p.caps) (not (pf.dcs_freq_supported p.dcs_freq)) _ _ (λ _ e. absurd (cc))
            λ _.
              let s = select pf p.caps d in
              let r = hard_reset pf p.dcs_freq s.1 in
              if-intro (Runs p.caps) (not (is_zero s.0)) _ _ (λ bad e. absurd (failure s.0 bad e))
                λ ok.
                  if-intro (Runs p.caps) (not (is_zero r.0)) _ _
                    (λ bad e. absurd (failure r.0 bad e))
                    λ went e.
                      hard_reset-Runs p.dcs_freq p.caps s.1
                        (select-Selected p.caps d (success s.0 ok)) (success r.0 went)

  change_kernel-Runs : (p : DcsPlan) (d : Drv W) → Runs p.caps (change_kernel pf p d)
  unfolding change_kernel
  change_kernel-Runs p d =
      let k = kernel_swap pf p.caps d in
      let s = select pf p.caps k.1 in
      let r = hard_reset pf p.dcs_freq s.1 in
      let tried : ℤ × Drv W =
        if not (is_zero k.0) then (if not (is_zero s.0) then s else r) else k in
      let i =
        if-intro (Runs p.caps) (not (is_zero k.0)) (if not (is_zero s.0) then s else r) k
          (λ _.
            if-intro (Runs p.caps) (not (is_zero s.0)) s r (λ bad e. absurd (failure s.0 bad e))
              (λ ok.
                hard_reset-Runs p.dcs_freq p.caps s.1
                  (select-Selected p.caps k.1 (success s.0 ok))))
          (λ _. kernel_swap-Runs p.caps d) in
      if-intro (Runs p.caps) (not (is_zero tried.0)) _ _ (λ bad e. absurd (failure tried.0 bad e))
        λ ok e. i (success tried.0 ok)

  bring_up-Runs : (p : DcsPlan) (d : Drv W) → Runs p.caps (bring_up pf p d)
  unfolding bring_up
  bring_up-Runs p d =
      if-intro (Runs p.caps) (not (p.dcs_freq == d.selected_dcs_freq)) _ _ (λ _. reclock-Runs p d)
        λ _.
          if-intro (Runs p.caps) (not (running_has d.registry p.caps)) _ _
            (λ _. change_kernel-Runs p d) λ has e. ground arith

  run_plan-Runs :
      (rate tx : ℕ) (rx : Lanes) (p : DcsPlan) (d : Drv W)
      → Runs p.caps (run_plan pf rate tx rx p d)
  unfolding run_plan
  run_plan-Runs rate tx rx p d =
      let b = bring_up pf p d in
      let t = stream_word tx rx p in
      let out = publish-Published pf rate tx rx p b.1 in
      let sends = apply_word-Sends pf t (publish pf rate tx rx p b.1) in
      if-intro (Runs p.caps) (not (is_zero b.0)) _ _ (λ bad e. absurd (failure b.0 bad e))
        λ ok _.
          let same = ap (λ (x : Drv W). x.registry) sends.same ∙ out.registry in
          ap (λ (r : Registry). running_has r p.caps) same ∙ bring_up-Runs p d (success b.0 ok)

  stream-Runs :
      (rate tx : ℕ) (rx : Lanes) (d : Drv W) (p : DcsPlan)
      → plan d.registry rate tx rx ≡ planned p
      → (stream pf rate tx rx d).0 ≡ pos 0
      → running_has (stream pf rate tx rx d).1.registry p.caps ≡ true
  unfolding stream
  stream-Runs rate tx rx d p h =
      let d₁ : Drv W = record d { selected_dcs_freq = pf.get_dcs_freq d.sys.world } in
      let P : PlanResult → Type 0 = λ (q : PlanResult).
        Runs p.caps (elim q [ planned p ↦ run_plan pf rate tx rx p d₁ | refused e ↦ (e, d₁) ]) in
      subst P (sym h) (run_plan-Runs rate tx rx p d₁)

-- Where a boot of the outside that gives 0 is a run of the registry's boot of the selected image,
-- and a reprobe that gives 0 with an image selected is one of its boot at probe time, a request for
-- a rate that gives 0 ends with a running VSPA kernel that provides every capability of the plan.
pub stream_runs :
    (b : Bus) {W : Type 0} (pf : Platform W)
    → RunsBoots b pf
    → (rate tx : ℕ) (rx : Lanes) (d : Drv W) (p : DcsPlan) → plan d.registry rate tx rx ≡ planned p
    → (stream pf rate tx rx d).0 ≡ pos 0
    → running_has (stream pf rate tx rx d).1.registry p.caps ≡ true
stream_runs b pf runs = stream-Runs pf (RunsBoots-BootsSelection b pf runs)
