-- ===== src/Lalib/Plan/Window.antt =====
-- The bounds on every plan, whatever the mode (`rfnm_la9310_plan` of
-- kernel_driver/la9310rfnm/rfnm_lalib.c).
use mathlib.Core.Path.{subst}
use la9310_driver.Base.{
  ℕ, zero, suc, ◌≤◌, ◌≡◌, inl, inr, refl, Bool, true, ◌&&◌, ◌||◌, Bool-cases, if-intro, Option,
  none, some, arith, ltb, ◌==◌,
}
use la9310_driver.Vspa.Registry.{Registry, registry_has}
use la9310_driver.Lalib.Plan.{
  Rung, Lanes, DcsPlan, PlanResult, planned, refused, shl64, dcs_max, dcs_min, tx_plan, rx_plan,
  plan, any_rx, duplex_plan, cap_fdx_concurrent, dcs_ceiling, tx_ladder, rx_ladder, einval,
}
use la9310_driver.Lalib.Plan.Receive.{IsDeepest}
use la9310_driver.Lalib.Plan.Range.{RxOutcome, IsRxPlan, plan_receive}
use la9310_driver.Lalib.Plan.Transmit.{TxOutcome, plan_transmit}

-- The clock is in the window and every knob fits its field of the stream word.
pub record InWindow (p : DcsPlan) : Type 0 where
  pub low : dcs_min ≤ p.dcs_freq
  pub high : p.dcs_freq ≤ dcs_max
  pub rx_div : p.rx_dcs ≤ 1
  pub tx_div : p.tx_dcs ≤ 1
  pub rx_stages : p.rx_decimation ≤ 8
  pub tx_stages : p.tx_upsampling ≤ 8

abbrev pub AllPlanned : (DcsPlan → Type 0) → PlanResult → Type 0
AllPlanned P (planned p) = P p
AllPlanned P (refused e) = Unit

ceiling_max : (pass k : ℕ) → dcs_ceiling pass k ≤ dcs_max
ceiling_max pass k = ground arith

deepest-InWindow :
    (rate pass : ℕ) (p : DcsPlan)
    → IsRxPlan rate p
    → IsDeepest pass rate 8 (record { freq = p.dcs_freq; dcs = p.rx_dcs; stages = p.rx_decimation })
    → InWindow p
deepest-InWindow rate pass p i d =
    let (t, u) = i.silent in
    let s = d.serves in
    record {
      low = omega (arith, d.freq, s.low);
      high = omega (arith, d.freq, s.high, ceiling_max pass (p.rx_decimation));
      rx_div = elim (s.shape) [ inl (e, h) ↦ omega (arith, e) | inr (e, h) ↦ omega (arith, e) ];
      tx_div = omega (arith, t);
      rx_stages = d.bound;
      tx_stages = omega (arith, u);
    }

rx-InWindow : (rate : ℕ) (r : PlanResult) → RxOutcome rate r → AllPlanned InWindow r
rx-InWindow rate (refused e) o = tt
rx-InWindow rate (planned p) o = elim (o.choice) [
  | inl d ↦ deepest-InWindow rate 0 p o d
  | inr (h, d) ↦ deepest-InWindow rate 1 p o d
]

tx-InWindow : (rate : ℕ) (r : PlanResult) → TxOutcome rate r → AllPlanned InWindow r
tx-InWindow rate (refused e) o = tt
tx-InWindow rate (planned p) o =
    let (t, u) = o.silent in
    elim (o.shape) [
      | inl l ↦
          let (a, b) = l.reaches in
          record {
            low = omega (arith, l.freq, a);
            high = omega (arith, l.freq, b);
            rx_div = omega (arith, t);
            tx_div = omega (arith, l.halved);
            rx_stages = omega (arith, u);
            tx_stages = omega (arith, l.upper);
          }
      | inr (no_rung, a, b, c, d, e) ↦ record {
        low = omega (arith, a, c);
        high = omega (arith, b, c);
        rx_div = omega (arith, t);
        tx_div = omega (arith, d);
        rx_stages = omega (arith, u);
        tx_stages = omega (arith, e);
      }
    ]

duplex-InWindow : (reg : Registry) (rate : ℕ) → AllPlanned InWindow (duplex_plan reg rate)
unfolding duplex_plan
duplex-InWindow reg rate =
    if-intro (AllPlanned InWindow)
      (registry_has reg cap_fdx_concurrent
        && ((shl64 rate 2 == 100000000) || (shl64 rate 2 == 122880000)))
      _ _
      (λ h.
        let (l, u) = blessed (registry_has reg cap_fdx_concurrent) h in
        record {
          low = l;
          high = u;
          rx_div = omega arith;
          tx_div = omega arith;
          rx_stages = omega arith;
          tx_stages = omega arith;
        })
      (λ _.
        if-intro (AllPlanned InWindow) (ltb (shl64 rate 1) dcs_min || ltb dcs_max (shl64 rate 1)) _
          _ (λ _. tt)
          (λ h. record {
            low = ground arith;
            high = ground arith;
            rx_div = omega arith;
            tx_div = omega arith;
            rx_stages = omega arith;
            tx_stages = omega arith;
          }))
  where
    blessed :
        (b : Bool)
        → (b && ((shl64 rate 2 == 100000000) || (shl64 rate 2 == 122880000))) ≡ true
        → (dcs_min ≤ shl64 rate 2) × (shl64 rate 2 ≤ dcs_max)
    blessed b e = (ground arith, ground arith)

all-InWindow :
    (reg : Registry) (rate tx : ℕ) (rx : Lanes) → AllPlanned InWindow (plan reg rate tx rx)
unfolding plan
all-InWindow reg rate zero rx = rx-InWindow rate (plan reg rate 0 rx) (plan_receive reg rate rx)
all-InWindow reg rate (suc n) rx = elim (Bool-cases (any_rx rx)) [
  | inl on ↦
      let e : plan reg rate (suc n) rx ≡ duplex_plan reg rate = ground arith in
      rw e (duplex-InWindow reg rate)
  | inr off ↦
      tx-InWindow rate (plan reg rate (suc n) rx)
        (plan_transmit reg rate (suc n) rx (omega arith) off)
]

-- Every plan, whatever the rate and the mode, has a clock of 100 to 200 MHz, dividers of 0 or 1 and
-- at most 8 stages each way.
pub plan-InWindow :
    (reg : Registry) (rate tx : ℕ) (rx : Lanes) (p : DcsPlan)
    → plan reg rate tx rx ≡ planned p
    → InWindow p
plan-InWindow reg rate tx rx p h = subst (AllPlanned InWindow) h (all-InWindow reg rate tx rx)

-- A refusal carries -EINVAL.
abbrev pub Refused : PlanResult → Type 0
Refused (planned p) = Unit
Refused (refused e) = e ≡ einval

pub plan-Refused : (reg : Registry) (rate tx : ℕ) (rx : Lanes) → Refused (plan reg rate tx rx)
unfolding plan duplex_plan
plan-Refused reg rate tx rx =
    if-intro Refused (tx == 0) _ _ (λ _. rx_refused (rx_ladder rate))
      λ _.
        if-intro Refused (any_rx rx) _ _
          (λ _.
            if-intro Refused
              (registry_has reg cap_fdx_concurrent
                && ((shl64 rate 2 == 100000000) || (shl64 rate 2 == 122880000)))
              _ _ (λ _. tt)
              λ _.
                if-intro Refused (ltb (shl64 rate 1) dcs_min || ltb dcs_max (shl64 rate 1)) _ _
                  (λ _. refl) λ _. tt)
          λ _. tx_refused (tx_ladder rate)
  where
    rx_refused : (o : Option Rung) → Refused (rx_plan o)
    rx_refused none = refl
    rx_refused (some r) = tt

    tx_refused : (o : Option Rung) → Refused (tx_plan o)
    tx_refused none = refl
    tx_refused (some r) = tt
