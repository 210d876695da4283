-- ===== src/Rfnm/Consumer/Lead.antt =====
-- How the consumer reads a stamp of 32 bits (kernel_driver/la9310rfnm/la9310_rfnm.c).
use la9310_driver.Base.{
  ℕ, ◌-◌, ◌%◌, ◌^◌, ◌<◌, ◌≡◌, ◌≢◌, ltb, if◌then◌else◌, pos, negsuc, sub32, arith,
}
use la9310_driver.Rfnm.Consumer.{stamp64, lead}

-- The lead of a stamp over the clock, below 2^63, is the distance of the two on the circle of 2^32
-- ticks, forward where that is the shorter way, and backward, as a negative number, where that is.
-- Only at a distance of 2^31 are both as long.
pub lead_lem :
    (now stamp : ℕ)
    → now < 2 ^ 63
    → stamp < 2 ^ 32
    → sub32 stamp (now % 2 ^ 32) ≢ 2 ^ 31
    → lead now stamp ≡ (
        if ltb (sub32 stamp (now % 2 ^ 32)) (2 ^ 31)
        then pos (sub32 stamp (now % 2 ^ 32))
        else negsuc (2 ^ 32 - sub32 stamp (now % 2 ^ 32) - 1))
unfolding lead stamp64
lead_lem now stamp small word apart = ground arith
