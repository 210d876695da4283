-- ===== src/Rfnm/Clock/Tests.antt =====
-- Runs of the absolute time at concrete values.
use la9310_driver.Base.{◌+◌, ◌*◌, ◌^◌, ◌≡◌, refl, false, true, some, [], ◌∷◌, arith}
use la9310_driver.Rfnm.Clock.{PhyTime, initial, phytimer_now64, phy64_timer_fn}
use la9310_driver.Rfnm.Clock.Extend.{sample, now64_lem, late_sample_lem}

-- The counter wraps between the second sample and the read.
now64_run :
    phytimer_now64 (some 5) (sample (4294000000 ∷ 4294900000 ∷ []) false initial) ≡ 2 ^ 32 + 5
unfolding phytimer_now64 sample phy64_timer_fn
now64_run = refl

now64_lem_example :
    (phytimer_now64 (some 5) (sample (4294000000 ∷ 4294900000 ∷ []) false initial) ≡ 2 ^ 32 + 5)
    × ((sample (4294000000 ∷ 4294900000 ∷ []) false initial).phy_gen ≡ 1)
now64_lem_example =
    now64_lem 4294000000 (4294900000 ∷ []) (2 ^ 32 + 5) false initial refl refl (omega arith)
      (omega arith) (omega arith) (omega arith)

abbrev sampled : PhyTime
sampled = record initial { valid = true; last_lo = 4294000000 }

-- A sample nine seconds later, after the counter went round.
late_sample_lem_example :
    ((phy64_timer_fn (some 551992704) true sampled).0.phy_gen ≡ 2)
    × ((phy64_timer_fn (some 551992704) true sampled).1 ≡ true)
late_sample_lem_example =
    late_sample_lem 4294000000 (4294000000 + 9 * 61440000) true sampled refl refl (omega arith)
      (omega arith)
