-- ===== src/Lalib/Plan/Range.antt =====
-- Which sample rates the planner accepts for reception, and with which plan
-- (`rfnm_la9310_plan` of kernel_driver/la9310rfnm/rfnm_lalib.c).

use native.Mathlib.Nat.{one-le-pow, pow-le-pow_right, mul-le-mul_left}
use la9310_driver.Base.{
  ℕ, ◌+◌, ◌*◌, ◌^◌, ◌≤◌, ◌<◌, ◌≡◌, ◌⊎◌, ◌↔◌, inl, inr, refl, Bool-cases, Option, none, some, arith,
  bool_tests, leb,
}
use la9310_driver.Vspa.Registry.{Registry, cap_streaming_base}
use la9310_driver.Lalib.Plan.{
  Rung, Lanes, DcsPlan, PlanResult, planned, refused, shl64, dcs_max, dcs_min, rx_pass, rx_ladder,
  rx_plan, or_else, plan, einval,
}
use la9310_driver.Lalib.Plan.Receive.{Serves, IsDeepest, pass-none, pass-IsDeepest}

-- The rung that a receive plan takes: the deepest of the first pass that admits one.
abbrev pub IsChoice : ℕ → Rung → Type 0
IsChoice rate r =
    IsDeepest 0 rate 8 r ⊎ (((k d : ℕ) → k ≤ 8 → ¬ Serves 0 rate k d) × IsDeepest 1 rate 8 r)

abbrev pub rung_of : DcsPlan → Rung
rung_of p = record { freq = p.dcs_freq; dcs = p.rx_dcs; stages = p.rx_decimation }

pub record IsRxPlan (rate : ℕ) (p : DcsPlan) : Type 0 where
  pub choice : IsChoice rate (rung_of p)
  pub silent : (p.tx_dcs ≡ 0) × (p.tx_upsampling ≡ 0)
  pub base : p.caps ≡ cap_streaming_base

-- A plan, or the error code with nothing that even the second pass admits.
abbrev pub RxOutcome : ℕ → PlanResult → Type 0
RxOutcome rate (planned p) = IsRxPlan rate p
RxOutcome rate (refused e) = (e ≡ einval) × ((k d : ℕ) → k ≤ 8 → ¬ Serves 1 rate k d)

outcome :
    (rate : ℕ) (a b : Option Rung)
    → rx_pass 0 rate 8 ≡ a
    → rx_pass 1 rate 8 ≡ b
    → RxOutcome rate (rx_plan (or_else a b))
outcome rate (some r) b e _ = record {
  choice = inl (pass-IsDeepest 0 rate 8 r e);
  silent = (refl, refl);
  base = refl;
}
outcome rate none (some r) e f = record {
  choice = inr (λ k d le. pass-none 0 rate 8 k d e le, pass-IsDeepest 1 rate 8 r f);
  silent = (refl, refl);
  base = refl;
}
outcome rate none none e f = (refl, λ k d le. pass-none 1 rate 8 k d f le)

-- Without transmission the planner gives the rung that the ladder prefers: the greatest depth up
-- to 8 at which a clock of 100 to 200 MHz serves the rate, divided by 2 if both shapes serve, under
-- the ceilings of the first pass, and under those of the second only where the first admits no
-- rung at all. The transmit side of such a plan is off and it asks for the base capability alone.
-- It refuses, with -EINVAL, only where the second pass admits no rung.
pub plan_receive : (reg : Registry) (rate : ℕ) (rx : Lanes) → RxOutcome rate (plan reg rate 0 rx)
unfolding plan rx_ladder
plan_receive reg rate rx = outcome rate _ _ refl refl

abbrev pub IsPlanned : PlanResult → Type 0
IsPlanned (planned p) = Unit
IsPlanned (refused e) = ⊥

no_overflow :
    (rate s : ℕ)
    → rate < 2 ^ 55
    → s ≤ 9
    → (shl64 rate s ≡ rate * 2 ^ s) × (rate ≤ rate * 2 ^ s) × (rate * 2 ^ s ≤ rate * 512)
no_overflow rate s small few =
    let least : 1 ≤ 2 ^ s = one-le-pow s 2 (omega arith) in
    let most : 2 ^ s ≤ 512 = pow-le-pow_right (omega arith) few in
    let above : rate * 1 ≤ rate * 2 ^ s = mul-le-mul_left rate least in
    let below : rate * 2 ^ s ≤ rate * 512 = mul-le-mul_left rate most in
    (omega arith, omega arith, omega arith)

-- What the first pass admits, the second does.
later : (rate k d : ℕ) → Serves 0 rate k d → Serves 1 rate k d
later rate k d s = record { low = s.low; high = ground (arith, s.high); shape = s.shape }

Serves-range :
    (rate k d : ℕ)
    → rate < 2 ^ 55
    → k ≤ 8
    → Serves 1 rate k d
    → (195313 ≤ rate) × (rate ≤ 200000000)
Serves-range rate k d small few s =
    let one : d ≤ 1 = elim (s.shape) [
      | inl (e, h) ↦ omega (arith, e)
      | inr (e, h) ↦ omega (arith, e)
    ] in
    let top : shl64 rate (k + d) ≤ dcs_max = ground (arith, s.high) in
    let (e, f, g) = no_overflow rate (k + d) small (omega arith) in
    (omega (arith, s.low), omega (arith, s.low))

abbrev Servable : ℕ → Type 0
Servable rate = (k : ℕ) × (d : ℕ) × (k ≤ 8) × Serves 1 rate k d

plain :
    (rate k : ℕ)
    → k ≤ 3
    → dcs_min ≤ shl64 rate (k + 0)
    → shl64 rate (k + 0) ≤ dcs_max
    → Servable rate
plain rate k h low high =
    (k, 0, omega arith, record { low = low; high = ground arith; shape = inr (refl, h) })

halved :
    (rate k : ℕ)
    → 3 ≤ k
    → k ≤ 8
    → dcs_min ≤ shl64 rate (k + 1)
    → shl64 rate (k + 1) ≤ dcs_max
    → Servable rate
halved rate k h h8 low high =
    (k, 1, h8, record { low = low; high = ground arith; shape = inl (refl, h) })

-- The window spans an octave, so that a shift reaches it.
range-Servable : (rate : ℕ) → 195313 ≤ rate → rate ≤ 200000000 → Servable rate
range-Servable rate low high = elim (Bool-cases (leb 100000000 rate)) [
  | inl a ↦ plain rate 0 (omega arith) (omega bool_tests) (omega bool_tests)
  | inr a ↦ elim (Bool-cases (leb 50000000 rate)) [
    | inl b ↦ plain rate 1 (omega arith) (omega bool_tests) (omega bool_tests)
    | inr b ↦ elim (Bool-cases (leb 25000000 rate)) [
      | inl c ↦ plain rate 2 (omega arith) (omega bool_tests) (omega bool_tests)
      | inr c ↦ elim (Bool-cases (leb 12500000 rate)) [
        | inl d ↦ plain rate 3 (omega arith) (omega bool_tests) (omega bool_tests)
        | inr d ↦ elim (Bool-cases (leb 6250000 rate)) [
          | inl e ↦ halved rate 3 (omega arith) (omega arith) (omega bool_tests) (omega bool_tests)
          | inr e ↦ deep rate low (omega bool_tests)
        ]
      ]
    ]
  ]
]
  where
    deep : (rate : ℕ) → 195313 ≤ rate → rate < 6250000 → Servable rate
    deep rate low high = elim (Bool-cases (leb 3125000 rate)) [
      | inl a ↦ halved rate 4 (omega arith) (omega arith) (omega bool_tests) (omega bool_tests)
      | inr a ↦ elim (Bool-cases (leb 1562500 rate)) [
        | inl b ↦ halved rate 5 (omega arith) (omega arith) (omega bool_tests) (omega bool_tests)
        | inr b ↦ elim (Bool-cases (leb 781250 rate)) [
          | inl c ↦ halved rate 6 (omega arith) (omega arith) (omega bool_tests) (omega bool_tests)
          | inr c ↦ elim (Bool-cases (leb 390625 rate)) [
            | inl d ↦
                halved rate 7 (omega arith) (omega arith) (omega bool_tests) (omega bool_tests)
            | inr d ↦
                halved rate 8 (omega arith) (omega arith) (omega bool_tests) (omega bool_tests)
          ]
        ]
      ]
    ]

-- Below 2^55 Hz the planner has a receive plan exactly for the rates of 195313 Hz to 200 MHz.
pub plan_range :
    (reg : Registry) (rate : ℕ) (rx : Lanes)
    → rate < 2 ^ 55
    → IsPlanned (plan reg rate 0 rx) ↔ ((195313 ≤ rate) × (rate ≤ 200000000))
plan_range reg rate rx small = go (plan reg rate 0 rx) (plan_receive reg rate rx)
  where
    go : (r : PlanResult) → RxOutcome rate r → IsPlanned r ↔ ((195313 ≤ rate) × (rate ≤ 200000000))
    go (planned p) o = (
      λ _. elim (o.choice) [
        | inl i ↦
            Serves-range rate (p.rx_decimation) (p.rx_dcs) small (i.bound)
              (later rate (p.rx_decimation) (p.rx_dcs) (i.serves))
        | inr (_, i) ↦ Serves-range rate (p.rx_decimation) (p.rx_dcs) small (i.bound) (i.serves)
      ],
      λ _. tt,
    )
    go (refused e) (_, o) = (
      λ h. absurd h,
      λ (low, high). let (k, d, le, s) = range-Servable rate low high in o k d le s,
    )
