-- ===== src/Rfnm/Clock.antt =====
-- The absolute time of kernel_driver/la9310rfnm/la9310_rfnm.c: the phy timer's 32 bits, extended by
-- the wraps that a timer of 1 Hz counts, and the generations of time.
pub mod Extend
mod Tests
use la9310_driver.Base.{
  ℕ, ◌+◌, ◌*◌, ◌%◌, ◌^◌, Bool, true, false, not, ◌&&◌, Option, none, some, ltb, ◌==◌, if◌then◌else◌,
  sub32, next32,
}

-- RFNM_PHY64_MAX_STEP: 8 seconds of ticks.
abbrev pub max_step : ℕ
max_step = 8 * 61440000

-- The variables `rfnm_phy64_*`, the generations and the state of the session.
pub record PhyTime : Type 0 where
  pub wraps : ℕ
  pub last_lo : ℕ
  pub valid : Bool
  pub stat_phy_wraps : ℕ
  pub phy_gen : ℕ
  pub session_phy_gen : ℕ
  pub session_dead : Bool
  pub session_faults : ℕ

abbrev pub initial : PhyTime
initial = record {
  wraps = 0;
  last_lo = 0;
  valid = false;
  stat_phy_wraps = 0;
  phy_gen = 1;
  session_phy_gen = 1;
  session_dead = false;
  session_faults = 0;
}

-- rfnm_phytimer_now64, where the callback gives `lo`. The callback is NULL at `none`.
unfoldable pub phytimer_now64 : Option ℕ → PhyTime → ℕ
phytimer_now64 none t = 0
phytimer_now64 (some lo) t =
    (if t.valid && ltb lo t.last_lo then next32 t.wraps else t.wraps) * 2 ^ 32 + lo

-- rfnm_session_fault
unfoldable pub session_fault : PhyTime → PhyTime
session_fault t =
    if t.session_dead
    then t
    else record t { session_dead = true; session_faults = next32 t.session_faults }

-- rfnm_phy_gen_session_ok
unfoldable pub phy_gen_session_ok : PhyTime → Bool
phy_gen_session_ok t = not t.session_dead && (t.session_phy_gen == t.phy_gen)

-- rfnm_phy_gen_bump
unfoldable pub phy_gen_bump : PhyTime → PhyTime
phy_gen_bump t = record t { wraps = 0; valid = false; phy_gen = next32 t.phy_gen }

-- What a reopen does (rfnm_restart_sm): the session is of the live generation.
unfoldable pub reopen : PhyTime → PhyTime
reopen t = record t { session_phy_gen = t.phy_gen; session_dead = false }

-- rfnm_phy64_timer_fn, with whether the restart is reported to the stream library: there is a
-- callback for it, and no commanded reset is under way.
unfoldable pub phy64_timer_fn : Option ℕ → Bool → PhyTime → PhyTime × Bool
unfolding phy_gen_bump
phy64_timer_fn none notify t = (t, false)
phy64_timer_fn (some lo) notify t =
    if not t.valid
    then (record t { last_lo = lo; valid = true }, false)
    else if ltb lo t.last_lo
    then (if ltb max_step (sub32 lo t.last_lo) then (phy_gen_bump t, notify) else (
      record t { wraps = next32 t.wraps; stat_phy_wraps = next32 t.stat_phy_wraps; last_lo = lo },
      false,
    ))
    else (record t { last_lo = lo }, false)
