-- ===== src/Board/Rate.antt =====
-- The client's sample rate (`rfnm_set_samp_rate_user` of
-- kernel_driver/la9310rfnm/rfnm_daughterboard.c), with the check of its plan by Lalib.Plan.
use la9310_driver.Base.{
  ℕ, ◌≤◌, ◌≡◌, ◌≢◌, ◌⊎◌, inl, inr, refl, Bool, true, false, not, ◌||◌, if◌then◌else◌, if-intro, ltb,
  ℤ, pos, neg, arith, or-false, ltb-false,
}
use la9310_driver.Vspa.Registry.{Registry}
use la9310_driver.Lalib.Plan.{DcsPlan, PlanResult, planned, refused, plan, samp_rate_ok}
use la9310_driver.Board.{Codes, Rej, rej_none, rej_rate, rej_boot}

-- The bounds of the rate in rfnm_populate_dev_hwinfo.
abbrev pub samp_rate_min : ℕ
samp_rate_min = 195375

abbrev pub samp_rate_max : ℕ
samp_rate_max = 160000000

-- `rfnm_user_samp_rate_hz`, and the rate's entries in the result.
pub record RateState : Type 0 where
  pub user_samp_rate_hz : ℕ
  pub cc_samp_rate : ℕ
  pub samp_rate_ecode : ℤ
  pub samp_rate_rej : Rej

module _ (c : Codes) (dcs_freq_supported : ℕ → Bool) (reg : Registry) where
  abbrev pub is_bad : ℕ → Bool
  is_bad freq =
      (ltb freq samp_rate_min || ltb samp_rate_max freq)
      || not (samp_rate_ok dcs_freq_supported reg freq)

  unfoldable pub set_samp_rate_user : Bool → Bool → ℕ → ℕ → RateState → ℤ × RateState
  set_samp_rate_user bringup_complete session_ok freq cc s =
      if not bringup_complete
      then (
        neg 11,
        record s { cc_samp_rate = cc; samp_rate_ecode = c.probe_fail; samp_rate_rej = rej_boot },
      )
      else if not session_ok
      then (neg 19, s)
      else if is_bad freq
      then (
        neg 22,
        record s { cc_samp_rate = cc; samp_rate_ecode = c.not_supported; samp_rate_rej = rej_rate },
      )
      else (
        pos 0,
        record {
          user_samp_rate_hz = freq;
          cc_samp_rate = cc;
          samp_rate_ecode = pos 0;
          samp_rate_rej = rej_none;
        },
      )

  -- The rate is in range, and there is a plan for it with a clock that can be made.
  abbrev pub IsServed : ℕ → Type 0
  IsServed freq =
      (samp_rate_min ≤ freq)
      × (freq ≤ samp_rate_max)
      × (p : DcsPlan) × (plan reg freq 0 (record { rx0 = 1; rx1 = 0; rx2 = 0; rx3 = 0 })
          ≡ planned p)
      × (dcs_freq_supported p.dcs_freq ≡ true)

  -- The three ways in which a request ends: served, ignored or refused.
  abbrev pub IsAnswered : Bool → Bool → ℕ → ℕ → RateState → ℤ × RateState → Type 0
  IsAnswered bringup_complete session_ok freq cc s t =
      ((t.0 ≡ pos 0)
        × (bringup_complete ≡ true)
        × (session_ok ≡ true)
        × IsServed freq
        × (t.1.user_samp_rate_hz ≡ freq)
        × (t.1.cc_samp_rate ≡ cc)
        × (t.1.samp_rate_ecode ≡ pos 0)
        × (t.1.samp_rate_rej ≡ rej_none))
      ⊎ (((t.0 ≡ neg 19) × (bringup_complete ≡ true) × (session_ok ≡ false) × (t.1 ≡ s))
          ⊎ ((t.0 ≢ pos 0)
              × ((bringup_complete ≡ false) ⊎ ((session_ok ≡ true) × ¬ IsServed freq))
              × (t.1.user_samp_rate_hz ≡ s.user_samp_rate_hz)
              × (t.1.cc_samp_rate ≡ cc)
              × (t.1.samp_rate_ecode ≢ pos 0)
              × (t.1.samp_rate_rej ≢ rej_none)))

  planned-ok :
      (freq : ℕ) (o : PlanResult)
      → elim o [ planned p ↦ dcs_freq_supported p.dcs_freq | refused e ↦ false ] ≡ true
      → (p : DcsPlan) × (o ≡ planned p) × (dcs_freq_supported p.dcs_freq ≡ true)
  planned-ok freq (planned p) h = (p, refl, h)
  planned-ok freq (refused e) h = absurd (cc h)

  ok-planned :
      (p : DcsPlan) (o : PlanResult)
      → o ≡ planned p
      → dcs_freq_supported p.dcs_freq ≡ true
      → elim o [ planned p ↦ dcs_freq_supported p.dcs_freq | refused e ↦ false ] ≡ true
  ok-planned p (planned q) e made = ground arith
  ok-planned p (refused r) e made = absurd (cc e)

  served : (freq : ℕ) → is_bad freq ≡ false → IsServed freq
  unfolding samp_rate_ok
  served freq h =
      let (range, ok) = or-false _ _ h in
      let (low, high) = or-false _ _ range in
      let (p, e, made) =
        planned-ok freq (plan reg freq 0 (record { rx0 = 1; rx1 = 0; rx2 = 0; rx3 = 0 }))
          (ground arith) in
      (ltb-false _ _ low, ltb-false _ _ high, p, e, made)

  unserved : (freq : ℕ) → is_bad freq ≡ true → ¬ IsServed freq
  unfolding samp_rate_ok
  unserved freq bad (low, high, p, e, made) =
      let ok : samp_rate_ok dcs_freq_supported reg freq ≡ true =
        ok-planned p (plan reg freq 0 (record { rx0 = 1; rx1 = 0; rx2 = 0; rx3 = 0 })) e made in
      let under : ltb freq samp_rate_min ≡ false = ground arith in
      let over : ltb samp_rate_max freq ≡ false = ground arith in
      let good : is_bad freq ≡ false = rw (under, over, ok) refl in cc (bad, good)

  -- A request ends in one of three ways. With code 0: the bring-up is complete and the session is
  -- live, and the rate is in range and has a plan with a clock that can be made; this is the rate from
  -- then on, and the report carries the client's counter with no error. With -ENODEV in a session of a
  -- dead generation after the bring-up: nothing changes. Else the bring-up is not complete, or the
  -- session is live and the rate is not such a one: the rate is as before, and the report carries the
  -- counter with an error and a reason, if the API's codes are not 0.
  pub set_samp_rate_user_lem :
      (bringup_complete session_ok : Bool) (freq cc : ℕ) (s : RateState)
      → c.probe_fail ≢ pos 0
      → c.not_supported ≢ pos 0
      → IsAnswered bringup_complete session_ok freq cc s
          (set_samp_rate_user bringup_complete session_ok freq cc s)
  unfolding set_samp_rate_user
  set_samp_rate_user_lem false session_ok freq n s fails refuses =
      inr (inr (λ e. cc e, inl refl, refl, refl, fails, λ e. cc e))
  set_samp_rate_user_lem true false freq n s fails refuses = inr (inl (refl, refl, refl, refl))
  set_samp_rate_user_lem true true freq n s fails refuses =
      if-intro (IsAnswered true true freq n s) (is_bad freq) _ _
        (λ bad.
          inr (inr (λ e. cc e, inr (refl, unserved freq bad), refl, refl, refuses, λ e. cc e)))
        (λ good. inl (refl, refl, refl, served freq good, refl, refl, refl, refl))
