-- ===== src/Lalib/Plan/Duplex.antt =====
-- Which plans the planner makes for both directions at once (`rfnm_la9310_plan` of
-- kernel_driver/la9310rfnm/rfnm_lalib.c).
use la9310_driver.Base.{
  ℕ, ◌*◌, ◌^◌, ◌≤◌, ◌<◌, ◌≡◌, ◌≢◌, ◌⊎◌, inl, inr, Bool, true, false, ◌&&◌, ◌||◌, Bool-cases, arith,
  leb, ◌==◌,
}
use la9310_driver.Vspa.Registry.{Registry, registry_has}
use la9310_driver.Lalib.Plan.{
  Lanes, DcsPlan, PlanResult, planned, refused, shl64, plan, einval, any_rx, duplex_plan,
  cap_fdx_concurrent,
}

-- A registered image transmits and receives, and the rate is a quarter of a clock it is known on.
abbrev pub IsBlessed : Registry → ℕ → Type 0
IsBlessed reg rate =
    (registry_has reg cap_fdx_concurrent ≡ true) × ((rate ≡ 25000000) ⊎ (rate ≡ 30720000))

abbrev pub full_duplex : ℕ → DcsPlan
full_duplex rate = record {
  dcs_freq = 4 * rate;
  rx_dcs = 1;
  rx_decimation = 1;
  tx_dcs = 1;
  tx_upsampling = 1;
  caps = 5;
}

abbrev pub half_clock : ℕ → DcsPlan
half_clock rate = record {
  dcs_freq = 2 * rate;
  rx_dcs = 1;
  rx_decimation = 0;
  tx_dcs = 1;
  tx_upsampling = 0;
  caps = 1;
}

abbrev pub DuplexOutcome : Registry → ℕ → PlanResult → Type 0
DuplexOutcome reg rate r =
    (IsBlessed reg rate × (r ≡ planned (full_duplex rate)))
    ⊎ ((¬ IsBlessed reg rate
          × (50000000 ≤ rate)
          × (rate ≤ 100000000)
          × (r ≡ planned (half_clock rate)))
        ⊎ (¬ IsBlessed reg rate × (rate < 50000000 ⊎ 100000000 < rate) × (r ≡ refused einval)))

-- The test of the full-duplex rung.
abbrev fdx_test : Registry → ℕ → Bool
fdx_test reg rate =
    registry_has reg cap_fdx_concurrent
    && ((shl64 rate 2 == 100000000) || (shl64 rate 2 == 122880000))

fdx_on : (reg : Registry) (rate : ℕ) → rate < 2 ^ 62 → fdx_test reg rate ≡ true → IsBlessed reg rate
fdx_on reg rate small h = (ground arith, blessed (registry_has reg cap_fdx_concurrent) h)
  where
    blessed :
        (b : Bool)
        → (b && ((shl64 rate 2 == 100000000) || (shl64 rate 2 == 122880000))) ≡ true
        → (rate ≡ 25000000) ⊎ (rate ≡ 30720000)
    blessed b e = ground arith

fdx_off :
    (reg : Registry) (rate : ℕ) → rate < 2 ^ 62 → fdx_test reg rate ≡ false → ¬ IsBlessed reg rate
fdx_off reg rate small h (has, inl e) = ground arith
fdx_off reg rate small h (has, inr e) = ground arith

fdx_lem :
    (reg : Registry) (rate : ℕ)
    → rate < 2 ^ 62
    → fdx_test reg rate ≡ true
    → duplex_plan reg rate ≡ planned (full_duplex rate)
unfolding duplex_plan
fdx_lem reg rate small h = let f : shl64 rate 2 ≡ 4 * rate = omega arith in ground arith

half_lem :
    (reg : Registry) (rate : ℕ)
    → rate < 2 ^ 62
    → fdx_test reg rate ≡ false
    → 50000000 ≤ rate
    → rate ≤ 100000000
    → duplex_plan reg rate ≡ planned (half_clock rate)
unfolding duplex_plan
half_lem reg rate small h low high = let g : shl64 rate 1 ≡ 2 * rate = omega arith in ground arith

refused_lem :
    (reg : Registry) (rate : ℕ)
    → rate < 2 ^ 62
    → fdx_test reg rate ≡ false
    → (rate < 50000000 ⊎ 100000000 < rate)
    → duplex_plan reg rate ≡ refused einval
unfolding duplex_plan
refused_lem reg rate small h out = ground arith

-- Below 2^62 Hz, for both directions at once: where a registered image offers full duplex, 25 and
-- 30.72 MHz run on a clock of four times the rate with one stage each way; any other rate of 50 to
-- 100 MHz runs on a clock of twice the rate with no stages; and all else is refused with -EINVAL.
pub plan_duplex :
    (reg : Registry) (rate tx : ℕ) (rx : Lanes)
    → rate < 2 ^ 62
    → tx ≢ 0
    → any_rx rx ≡ true
    → DuplexOutcome reg rate (plan reg rate tx rx)
unfolding plan
plan_duplex reg rate tx rx small h on =
    let e : plan reg rate tx rx ≡ duplex_plan reg rate = ground arith in
    rw e (elim (Bool-cases (fdx_test reg rate)) [
      | inl t ↦ inl (fdx_on reg rate small t, fdx_lem reg rate small t)
      | inr t ↦ elim (Bool-cases (leb 50000000 rate && leb rate 100000000)) [
        | inl w ↦ inr (
            inl (
              fdx_off reg rate small t,
              ground arith,
              ground arith,
              half_lem reg rate small t (ground arith) (ground arith),
            ))
        | inr w ↦
            let out : (rate < 50000000) ⊎ (100000000 < rate) = ground arith in
            inr (inr (fdx_off reg rate small t, out, refused_lem reg rate small t out))
      ]
    ])
