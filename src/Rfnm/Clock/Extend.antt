-- ===== src/Rfnm/Clock/Extend.antt =====
-- The extended time follows the time of the hardware (`rfnm_phy64_timer_fn` and
-- `rfnm_phytimer_now64` of kernel_driver/la9310rfnm/la9310_rfnm.c).
use la9310_driver.Base.{
  ℕ, ◌+◌, ◌-◌, ◌*◌, ◌/◌, ◌%◌, ◌^◌, ◌≤◌, ◌<◌, ◌≡◌, Bool, true, false, some, ltb, List, [], ◌∷◌,
  arith, ◌&&◌, if◌then◌else◌, next32,
}
use la9310_driver.Rfnm.Clock.{PhyTime, phytimer_now64, phy64_timer_fn, phy_gen_bump, max_step}

-- The 32 bits that the counter shows at time `x`, and the windings of the counter until then.
abbrev pub low32 : ℕ → ℕ
low32 x = x % 2 ^ 32

abbrev pub windings : ℕ → ℕ
windings x = x / 2 ^ 32

-- Times of samples, none more than 8 s after the one before, which was at `x`.
abbrev pub Close : ℕ → List ℕ → Type 0
Close x [] = Unit
Close x (y ∷ ys) = (x ≤ y) × (y ≤ x + max_step) × Close y ys

-- The last of the samples.
abbrev pub final : ℕ → List ℕ → ℕ
final x [] = x
final x (y ∷ ys) = final y ys

-- The 1 Hz timer at each of the times.
unfoldable pub sample : List ℕ → Bool → PhyTime → PhyTime
sample [] notify t = t
sample (y ∷ ys) notify t = sample ys notify (phy64_timer_fn (some (low32 y)) notify t).0

-- The time was last sampled at `x`, and `base` windings came before the first sample.
record Tracks (base x gen : ℕ) (t : PhyTime) : Type 0 where
  valid : t.valid ≡ true
  last_lo : t.last_lo ≡ low32 x
  above : base ≤ windings x
  wraps : t.wraps ≡ (windings x - base) % 2 ^ 32
  same_gen : t.phy_gen ≡ gen

timer_first :
    (x : ℕ) (notify : Bool) (t : PhyTime)
    → t.valid ≡ false
    → t.wraps ≡ 0
    → Tracks (windings x) x t.phy_gen (phy64_timer_fn (some (low32 x)) notify t).0
unfolding phy64_timer_fn
timer_first x notify t off none_yet = ground arith

timer_step :
    (base x y gen : ℕ) (notify : Bool) (t : PhyTime)
    → Tracks base x gen t
    → x ≤ y
    → y ≤ x + max_step
    → Tracks base y gen (phy64_timer_fn (some (low32 y)) notify t).0
unfolding phy64_timer_fn
timer_step base x y gen notify t k later soon = ground arith

sample-Tracks :
    (base x gen : ℕ) (ys : List ℕ) (notify : Bool) (t : PhyTime)
    → Tracks base x gen t
    → Close x ys
    → Tracks base (final x ys) gen (sample ys notify t)
unfolding sample
sample-Tracks base x gen [] notify t k h = k
sample-Tracks base x gen (y ∷ ys) notify t k h =
    sample-Tracks base y gen ys notify _ (timer_step base x y gen notify t k h.0 h.1) h.2

now64_tracked :
    (base x y gen : ℕ) (t : PhyTime)
    → Tracks base x gen t
    → x ≤ y
    → y < x + 2 ^ 32
    → windings y < base + 2 ^ 32
    → phytimer_now64 (some (low32 y)) t ≡ y - base * 2 ^ 32
unfolding phytimer_now64
now64_tracked base x y gen t k later soon fits = ground arith

-- From an invalid clock, after a first sample at `x` and samples that follow one another by at most
-- 8 s, a read at `y`, less than one winding after the last of them, gives the time of the hardware
-- from the start of the winding of `x` on. No restart was detected: the generation is as before.
pub now64_lem :
    (x : ℕ) (ys : List ℕ) (y : ℕ) (notify : Bool) (t : PhyTime)
    → t.valid ≡ false
    → t.wraps ≡ 0
    → Close x ys
    → final x ys ≤ y
    → y < final x ys + 2 ^ 32
    → windings y < windings x + 2 ^ 32
    → (phytimer_now64 (some (low32 y)) (sample (x ∷ ys) notify t) ≡ y - windings x * 2 ^ 32)
      × ((sample (x ∷ ys) notify t).phy_gen ≡ t.phy_gen)
unfolding sample
now64_lem x ys y notify t off none_yet close later soon fits =
    let k =
      sample-Tracks (windings x) x t.phy_gen ys notify _ (timer_first x notify t off none_yet)
        close in
    (now64_tracked (windings x) (final x ys) y t.phy_gen _ k later soon fits, k.same_gen)

-- The counter went round between `x` and `y`, which are more than 8 s apart.
abbrev pub went_round : ℕ → ℕ → Bool
went_round x y = ltb (windings x) (windings y) && ltb (x + max_step) y

-- A sample that comes less than one winding after the one before starts a new generation exactly if
-- the counter went round in between and more than 8 s passed. A restart is reported exactly then, if
-- it can be, although the counter never restarted.
pub late_sample_lem :
    (x y : ℕ) (notify : Bool) (t : PhyTime)
    → t.valid ≡ true
    → t.last_lo ≡ low32 x
    → x ≤ y
    → y < x + 2 ^ 32
    → ((phy64_timer_fn (some (low32 y)) notify t).0.phy_gen
        ≡ (if went_round x y then next32 t.phy_gen else t.phy_gen))
      × ((phy64_timer_fn (some (low32 y)) notify t).1 ≡ (went_round x y && notify))
unfolding phy64_timer_fn phy_gen_bump
late_sample_lem x y notify t on lo later soon = ground arith
