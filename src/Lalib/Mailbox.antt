-- ===== src/Lalib/Mailbox.antt =====
-- The mailbox of commands to the modem (`rf_send_swcmd` and `rf_free_cmd` of
-- kernel_driver/la9310rfnm/rfnm_lalib.c). The shared memory, the modem and the clock are an
-- interface; the codes of the status are those of a header that is not in the repository.
pub mod Outcome
mod Tests
use la9310_driver.Base.{
  ℕ, zero, suc, ◌+◌, ◌-◌, ◌/◌, ◌%◌, ◌^◌, Bool, true, false, not, ◌&&◌, ◌||◌, List, [], ◌∷◌, ltb,
  ◌==◌, if◌then◌else◌, ℤ, pos, negsuc, neg,
}

-- struct rf_sw_cmd_desc: the command and the words of its data.
pub record SwCmd : Type 0 where
  pub cmd : ℕ
  pub words : List ℕ

pub record Shared (W : Type 0) : Type 0 where
  -- RF_SW_CMD_STATUS_FREE and RF_SW_CMD_STATUS_DONE
  pub status_free : ℕ
  pub status_done : ℕ
  -- whether the link is fenced off
  pub fenced : W → Bool
  -- a read of the status and of the result in the shared descriptor, and of its data
  pub read_status : W → ℕ × W
  pub read_result : W → ℕ × W
  pub read_data : SwCmd → W → SwCmd × W
  pub write_status : ℕ → W → W
  -- the copy of the descriptor, and the interrupt to the modem
  pub copy_cmd : SwCmd → W → W
  pub raise_modem_irq : W → W
  -- how many polls 100 ms hold
  pub polls : W → ℕ

-- struct rf_host_stats with the outside. `posted` lists the commands that were copied, the last one
-- first; the code does not keep it.
pub record Host (W : Type 0) : Type 0 where
  pub desc_busy : ℕ
  pub timed_out : ℕ
  pub tx : ℕ
  pub posted : List SwCmd
  pub world : W

-- An `int` from 32 bits.
abbrev pub int32 : ℕ → ℤ
int32 n = if ltb n (2 ^ 31) then pos n else negsuc (2 ^ 32 - n - 1)

abbrev pub ebusy : ℤ
ebusy = neg 16

module _ {W : Type 0} (sh : Shared W) where
  -- iord32 and iowr32: behind the fence a read gives 0 and a write is dropped.
  unfoldable pub status : W → ℕ × W
  status w = if sh.fenced w then (0, w) else sh.read_status w

  unfoldable pub result : W → ℕ × W
  result w = if sh.fenced w then (0, w) else sh.read_result w

  abbrev pub set_status : ℕ → W → W
  set_status v w = if sh.fenced w then w else sh.write_status v w

  unfoldable pub free_cmd : W → W
  free_cmd w = set_status sh.status_free w

  -- The wait for the modem: at most so many polls, and none behind the fence.
  unfoldable pub wait_done : ℕ → W → W
  wait_done zero w = w
  wait_done (suc n) w =
      let (s, w') = status w in
      let rest = wait_done n w' in
      if sh.fenced w then w else (if s == sh.status_done then w' else rest)

  -- Neither FREE nor a DONE that came late: the status is read again for the second test.
  unfoldable pub is_busy : W → Bool × W
  is_busy w =
      let (s, w₁) = status w in
      let (s', w₂) = status w₁ in
      if s == sh.status_free then (false, w₁) else (not (s' == sh.status_done), w₂)

  -- From the copy on.
  unfoldable pub post : SwCmd → Host W → ℤ × SwCmd × Host W
  post c h =
      let w = if sh.fenced h.world then h.world else sh.copy_cmd c h.world in
      let w₁ = if sh.fenced w then w else sh.raise_modem_irq w in
      let (s, w₂) = status (wait_done (sh.polls w₁) w₁) in
      let h₁ = record h { posted = c ∷ h.posted; world = w₂ } in
      if not (s == sh.status_done)
      then (ebusy, c, record h₁ { timed_out = (h₁.timed_out + 1) % 2 ^ 32; world = free_cmd w₂ })
      else (let (r, w₃) = result w₂ in
          let (c', w₄) = sh.read_data c w₃ in
          (int32 r, c', record h₁ { tx = (h₁.tx + 1) % 2 ^ 32; world = free_cmd w₄ }))

  unfoldable pub send_swcmd : SwCmd → Host W → ℤ × SwCmd × Host W
  send_swcmd c h =
      if sh.fenced h.world
      then (ebusy, c, record h { desc_busy = (h.desc_busy + 1) % 2 ^ 32 })
      else (let (busy, w) = is_busy h.world in
          if busy
          then (ebusy, c, record h { desc_busy = (h.desc_busy + 1) % 2 ^ 32; world = w })
          else post c (record h { world = w }))
