-- ===== src/Lalib/Plan/Transmit.antt =====
-- Which transmit plans the planner makes, and which plans for both directions
-- (`rfnm_la9310_plan` of kernel_driver/la9310rfnm/rfnm_lalib.c).
use mathlib.Core.Path.{subst}
use la9310_driver.Base.{
  ℕ, zero, suc, ◌+◌, ◌≤◌, ◌<◌, ◌≡◌, ◌≢◌, ◌⊎◌, inl, inr, refl, Bool, true, false, Bool-cases, Option,
  none, some, arith, bool_tests, leb, ltb, if◌then◌else◌,
}
use la9310_driver.Vspa.Registry.{Registry, cap_streaming_base}
use la9310_driver.Lalib.Plan.{
  Rung, Lanes, DcsPlan, PlanResult, planned, refused, shl64, dcs_max, dcs_min, tx_rungs, tx_ladder,
  tx_plan, or_else, plan, einval, any_rx, within,
}

-- The clock of `u` stages of upsampling lies in the window.
abbrev pub Reaches : ℕ → ℕ → Type 0
Reaches rate u = (dcs_min ≤ shl64 rate (u + 1)) × (shl64 rate (u + 1) ≤ dcs_max)

-- The first of the rungs from `u` up to `u + n` that reaches the window.
pub record IsLowest (rate u n : ℕ) (r : Rung) : Type 0 where
  pub lower : u ≤ r.stages
  pub upper : r.stages < u + n
  pub halved : r.dcs ≡ 1
  pub freq : r.freq ≡ shl64 rate (r.stages + 1)
  pub reaches : Reaches rate (r.stages)
  pub lowest : (v : ℕ) → u ≤ v → v < r.stages → ¬ Reaches rate v

Reaches-within : (rate u : ℕ) → within dcs_max (shl64 rate (u + 1)) ≡ false → ¬ Reaches rate u
Reaches-within rate u h (a, b) = ground arith

Lowest : (rate u n : ℕ) → Option Rung → Type 0
Lowest rate u n none = (v : ℕ) → u ≤ v → v < u + n → ¬ Reaches rate v
Lowest rate u n (some r) = IsLowest rate u n r

-- One rung, and what the rungs above it give.
step :
    (rate u n : ℕ) (o : Option Rung)
    → ¬ Reaches rate u
    → Lowest rate (u + 1) n o
    → Lowest rate u (suc n) o
unfolding Lowest
step rate u n none out h = λ v low high. elim (Bool-cases (leb v u)) [
  | inl le ↦ subst (λ (x : ℕ). ¬ Reaches rate x) (omega bool_tests) out
  | inr gt ↦ h v (omega bool_tests) (omega arith)
]
step rate u n (some r) out h = record {
  lower = omega (arith, h.lower);
  upper = omega (arith, h.upper);
  halved = h.halved;
  freq = h.freq;
  reaches = h.reaches;
  lowest = λ v low high. elim (Bool-cases (leb v u)) [
    | inl le ↦ subst (λ (x : ℕ). ¬ Reaches rate x) (omega bool_tests) out
    | inr gt ↦ h.lowest v (omega bool_tests) high
  ];
}

Lowest-if :
    (rate u n : ℕ) (c : Bool) (x y : Option Rung)
    → (c ≡ true → Lowest rate u n x)
    → (c ≡ false → Lowest rate u n y)
    → Lowest rate u n (if c then x else y)
Lowest-if rate u n true x y f g = f refl
Lowest-if rate u n false x y f g = g refl

rungs-Lowest : (rate u n : ℕ) → Lowest rate u n (tx_rungs rate u n)
unfolding tx_rungs Lowest
rungs-Lowest rate u zero = λ v h k. omega arith
rungs-Lowest rate u (suc n) =
    Lowest-if rate u (suc n) (within dcs_max (shl64 rate (u + 1))) _ _
      (λ yes_it. record {
        lower = omega arith;
        upper = omega arith;
        halved = refl;
        freq = refl;
        reaches = (ground arith, ground arith);
        lowest = λ v a b. omega arith;
      })
      (λ no_it.
        step rate u n (tx_rungs rate (u + 1) n) (Reaches-within rate u no_it)
          (rungs-Lowest rate (u + 1) n))

abbrev pub tx_rung_of : DcsPlan → Rung
tx_rung_of p = record { freq = p.dcs_freq; dcs = p.tx_dcs; stages = p.tx_upsampling }

-- What a plan for transmission alone is.
pub record IsTxPlan (rate : ℕ) (p : DcsPlan) : Type 0 where
  pub shape :
      IsLowest rate 0 9 (tx_rung_of p)
      ⊎ (((u : ℕ) → u ≤ 8 → ¬ Reaches rate u)
          × (dcs_min ≤ rate)
          × (rate ≤ dcs_max)
          × (p.dcs_freq ≡ rate)
          × (p.tx_dcs ≡ 0)
          × (p.tx_upsampling ≡ 0))
  pub silent : (p.rx_dcs ≡ 0) × (p.rx_decimation ≡ 0)
  pub base : p.caps ≡ cap_streaming_base

abbrev pub TxOutcome : ℕ → PlanResult → Type 0
TxOutcome rate (planned p) = IsTxPlan rate p
TxOutcome rate (refused e) =
    (e ≡ einval) × ((u : ℕ) → u ≤ 8 → ¬ Reaches rate u) × (rate < dcs_min ⊎ dcs_max < rate)

abbrev base_rung : ℕ → Option Rung
base_rung rate =
    if within dcs_max rate then some (record { freq = rate; dcs = 0; stages = 0 }) else none

outcome :
    (rate : ℕ) (a : Option Rung)
    → Lowest rate 0 9 a
    → TxOutcome rate (tx_plan (or_else a (base_rung rate)))
unfolding Lowest
outcome rate (some r) h = record { shape = inl h; silent = (refl, refl); base = refl }
outcome rate none h = choose (within dcs_max rate) refl
  where
    choose :
        (c : Bool)
        → c ≡ within dcs_max rate
        → TxOutcome rate
            (tx_plan (if c then some (record { freq = rate; dcs = 0; stages = 0 }) else none))
    choose true e = record {
      shape =
          inr
            (λ u le. h u (omega arith) (omega arith), ground arith, ground arith, refl, refl, refl);
      silent = (refl, refl);
      base = refl;
    }
    choose false e = (
      refl,
      λ u le. h u (omega arith) (omega arith),
      elim (Bool-cases (ltb rate dcs_min)) [
        | inl l ↦ inl (omega bool_tests)
        | inr g ↦ inr (ground arith)
      ],
    )

-- For transmission alone the planner takes the fewest stages of upsampling, from 0 to 8, at which
-- the rate times 2^(stages + 1) lies between 100 and 200 MHz, with the divide-by-2 on; where there
-- are none, the rate itself as the clock if it lies there; and it refuses with -EINVAL only a rate
-- that neither serves. The receive side of the plan is off and it asks for the base capability.
pub plan_transmit :
    (reg : Registry) (rate tx : ℕ) (rx : Lanes)
    → tx ≢ 0
    → any_rx rx ≡ false
    → TxOutcome rate (plan reg rate tx rx)
unfolding plan tx_ladder
plan_transmit reg rate tx rx h none_on =
    let e : plan reg rate tx rx ≡ tx_plan (or_else (tx_rungs rate 0 9) (base_rung rate)) =
      ground arith in
    rw e (outcome rate (tx_rungs rate 0 9) (rungs-Lowest rate 0 9))
