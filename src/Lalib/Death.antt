-- ===== src/Lalib/Death.antt =====
-- The detector of stuck read channels (`rfnm_la9310_arm_death_check` of
-- kernel_driver/la9310rfnm/rfnm_lalib.c). A mask is the function of its bits, and the counters are a
-- function of the channel. The registers that are read for messages alone are left out.
pub mod Streak
mod Tests
use la9310_driver.Base.{
  ℕ, ◌+◌, ◌-◌, ◌%◌, Bool, true, false, not, ◌&&◌, ◌||◌, List, [], ◌∷◌, ltb, leb, ◌==◌,
  if◌then◌else◌,
}
use la9310_driver.Lalib.Word.{bit}

-- RFNM_ARM_DEATH_POLLS
abbrev pub arm_death_polls : ℕ
arm_death_polls = 40

-- What one poll sees: whether the registers can be read, the live stream word, and FIFO_STAT and
-- XRUN.
pub record Poll : Type 0 where
  pub reachable : Bool
  pub word : ℕ
  pub fifo : ℕ
  pub xrun : ℕ

-- The channels of the session: 1 to 4 for the lanes of reception, 11 for transmission.
unfoldable pub watched : ℕ → ℕ → Bool
watched word n = leb 1 n && leb n 4 && not (bit word n == 0) || (n == 11) && not (bit word 0 == 0)

unfoldable pub stuck : Poll → ℕ → Bool
stuck o n = (bit o.fifo n == 0) && (bit o.xrun n == 0) && watched o.word n

-- `++hits[n]` of a `uint8_t`.
abbrev pub counted : ℕ → ℕ
counted h = (h + 1) % 256

-- The mask of the dead channels, and the counters.
unfoldable pub arm_death_check : Poll → (ℕ → ℕ) → (ℕ → Bool) × (ℕ → ℕ)
arm_death_check o hits = if not o.reachable then (λ (n : ℕ). false, hits) else (
  λ (n : ℕ). ltb n 16 && stuck o n && leb arm_death_polls (counted (hits n)),
  λ (n : ℕ).
      if not (ltb n 16)
      then hits n
      else (if stuck o n
          then (if leb arm_death_polls (counted (hits n)) then 0 else counted (hits n))
          else 0),
)

-- The counters after some polls, the last one first.
unfoldable pub hits_after : List Poll → ℕ → ℕ
hits_after [] n = 0
hits_after (o ∷ os) n = (arm_death_check o (hits_after os)).1 n
