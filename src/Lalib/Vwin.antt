-- ===== src/Lalib/Vwin.antt =====
-- The queue of windows for transmission (kernel_driver/la9310rfnm/rfnm_lalib.c): a window opens the
-- gate through the real-time ring and is sent to the VSPA when the one before it has closed. The
-- hardware, the ring and the phy timer are an interface. Counters and ticks are of 32 bits.
pub mod Pump
pub mod Queue
mod Tests
use la9310_driver.Base.{
  ℕ, zero, suc, ◌+◌, ◌-◌, ◌*◌, ◌/◌, ◌%◌, ◌^◌, Bool, true, false, not, ◌&&◌, ◌||◌, List, [], ◌∷◌,
  ltb, leb, ◌==◌, if◌then◌else◌, ℤ, pos, neg, is_zero,
}
pub use la9310_driver.Base.{sub32, next32}

-- RFNM_VWIN_QLEN, RFNM_VWIN_SETUP_MARGIN_TICKS and RFNM_VWIN_CLOSE_MARGIN_TICKS
abbrev pub qlen : ℕ
qlen = 512

abbrev pub setup_margin : ℕ
setup_margin = 6144

abbrev pub close_margin : ℕ
close_margin = 64

-- struct rfnm_vwin
pub record Window : Type 0 where
  pub open_tick : ℕ
  pub close_tick : ℕ
  pub src_slot : ℕ
  pub len_slots : ℕ

-- What the queue uses of the outside, on a state `W` of it.
pub record Air (W : Type 0) : Type 0 where
  -- the device is there and its registers are not fenced, and the status is mapped
  pub reachable : W → Bool
  pub has_status : Bool
  pub tx_state : W → ℕ
  pub tx_r_shift : W → ℕ
  pub phytimer_now : W → ℕ × W
  pub mbox_unconsumed : W → Bool × W
  -- the two mailbox words, and host_go where the parameter asks for it
  pub send_window : Window → W → W
  pub rtc_push : ℕ → ℕ → W → ℤ × W
  pub rtc_doorbell : W → W

-- A send: the window, the time, and what was waited for.
pub record Send : Type 0 where
  pub window : Window
  pub at_tick : ℕ
  pub busy_valid : Bool
  pub busy_until : ℕ

-- The queue and its pacing; the slots are a function of the index. `sends` lists the windows that
-- were sent, the last one first; the code does not keep it.
pub record Vwin (W : Type 0) : Type 0 where
  pub q : ℕ → Window
  pub prod : ℕ
  pub cons : ℕ
  pub busy_until : ℕ
  pub busy_valid : Bool
  pub next_ns : ℕ
  pub late : ℕ
  pub qfull : ℕ
  pub mbox_busy : ℕ
  pub no_latch : ℕ
  pub rtc_err : ℕ
  pub sent : ℕ
  pub sends : List Send
  pub world : W

-- `(int32_t)(a - b) > 0`
abbrev pub after : ℕ → ℕ → Bool
after a b = ltb 0 (sub32 a b) && ltb (sub32 a b) (2 ^ 31)

unfoldable pub ticks_to_ns : ℕ → ℕ
ticks_to_ns ticks = ticks * 3125 / 192

-- How many windows wait.
abbrev pub used : {W : Type 0} → Vwin W → ℕ
used v = sub32 v.prod v.cons

module _ {W : Type 0} (air : Air W) where
  -- The round at which the pump ends, or the queue to go on with.
  pub data Turn : Type 0 where
    ends goes_on : Vwin W → Turn

  -- The send slot of a window is gone.
  abbrev pub is_late : ℕ → Window → Bool
  is_late now w = after now (sub32 w.open_tick setup_margin)

  -- What is done with the window at the head at time `now`.
  unfoldable pub head_at : ℕ → Window → Vwin W → Turn
  head_at now w v =
      if v.busy_valid && after v.busy_until now
      then ends (record v { next_ns = ticks_to_ns (sub32 v.busy_until now) })
      else if is_late now w
      then goes_on (record v { late = next32 v.late; cons = next32 v.cons })
      else (let (busy, w') = air.mbox_unconsumed v.world in
          if busy
          then ends (record v { mbox_busy = next32 v.mbox_busy; next_ns = 20000; world = w' })
          else goes_on (record v {
            world = air.send_window w w';
            busy_until = (w.close_tick + close_margin) % 2 ^ 32;
            busy_valid = true;
            sent = next32 v.sent;
            cons = next32 v.cons;
            sends =
                record {
                  window = w;
                  at_tick = now;
                  busy_valid = v.busy_valid;
                  busy_until = v.busy_until;
                }
                ∷ v.sends;
          }))

  -- One round of the loop with a window waiting.
  unfoldable pub turn : Vwin W → Turn
  turn v =
      if not (air.reachable v.world)
      then ends v
      else (let (now, w) = air.phytimer_now v.world in
          head_at now (v.q (v.cons % qlen)) (record v { world = w }))

  -- `rfnm_vwin_pump`, for at most so many rounds.
  unfoldable pub pump_for : ℕ → Vwin W → Vwin W
  pump_for zero v = v
  pump_for (suc n) v =
      if v.cons == v.prod then v else elim (turn v) [ ends v' ↦ v' | goes_on v' ↦ pump_for n v' ]

  unfoldable pub pump : Vwin W → Vwin W
  pump v = pump_for (used v) v

  -- `rfnm_vwin_timer_fn` without the restart of the timer.
  unfoldable pub timer_fn : Vwin W → Vwin W
  timer_fn v = pump (record v { next_ns = 0 })

  unfoldable pub vwin_reset : Vwin W → Vwin W
  vwin_reset v = record v { cons = v.prod; busy_valid = false; next_ns = 0 }

  -- A window goes into the queue.
  unfoldable pub enqueue : Window → Vwin W → Vwin W
  enqueue w v = record v {
    q = λ (i : ℕ). if i == v.prod % qlen then w else v.q i;
    prod = next32 v.prod;
  }

  abbrev pub slot_ticks : ℕ → ℕ
  slot_ticks shift = 128 * 2 ^ shift % 2 ^ 32

  unfoldable pub tx_window : ℕ → ℕ → ℕ → Vwin W → ℤ × Vwin W
  tx_window open_tick src_slot len_slots v =
      if not (air.reachable v.world) || not air.has_status
      then (neg 19, v)
      else if air.tx_state v.world / 2 ^ 5 % 2 == 0
      then (neg 32, record v { no_latch = next32 v.no_latch })
      else (let tps = slot_ticks (air.tx_r_shift v.world) in
          let len_ticks = sub32 (len_slots * tps % 2 ^ 32) (tps / 4) in
          if leb qlen (used v)
          then (neg 28, record v { qfull = next32 v.qfull })
          else (let (ret, w) = air.rtc_push open_tick len_ticks v.world in
              if not (is_zero ret)
              then (ret, record v { rtc_err = next32 v.rtc_err; world = w })
              else (
                pos 0,
                pump
                    (record (enqueue
                      (record {
                        open_tick = open_tick;
                        close_tick = (open_tick + len_ticks) % 2 ^ 32;
                        src_slot = src_slot;
                        len_slots = len_slots;
                      })
                      (record v { world = air.rtc_doorbell w })) { next_ns = 0 }),
              )))
