-- ===== src/Lalib/Vwin/Tests.antt =====
-- Runs of the window queue on a timer that stands still.
use la9310_driver.Base.{ℕ, ◌+◌, ◌≡◌, refl, true, false, [], pos, arith}
use la9310_driver.Lalib.Vwin.{
  Window, Air, Vwin, pump, pump_for, turn, head_at, tx_window, ticks_to_ns,
}
use la9310_driver.Lalib.Vwin.Pump.{IsQueue, Pumped, pump-Pumped}
use la9310_driver.Lalib.Vwin.Queue.{WindowOutcome, wanted, tx_window_lem}

abbrev still : Air ℕ
still = record {
  reachable = λ (w : ℕ). true;
  has_status = true;
  tx_state = λ (w : ℕ). 32;
  tx_r_shift = λ (w : ℕ). 1;
  phytimer_now = λ (w : ℕ). (w, w);
  mbox_unconsumed = λ (w : ℕ). (false, w);
  send_window = λ (x : Window) (w : ℕ). w;
  rtc_push = λ (t l w : ℕ). (pos 0, w);
  rtc_doorbell = λ (w : ℕ). w;
}

-- Two windows wait at time 1000; the second opens before the first has closed.
abbrev two : Vwin ℕ
two = record {
  q = λ (i : ℕ). record {
    open_tick = 20000 + i;
    close_tick = 20960 + i;
    src_slot = i;
    len_slots = 4;
  };
  prod = 2;
  cons = 0;
  busy_until = 0;
  busy_valid = false;
  next_ns = 0;
  late = 0;
  qfull = 0;
  mbox_busy = 0;
  no_latch = 0;
  rtc_err = 0;
  sent = 0;
  sends = [];
  world = 1000;
}

two-IsQueue : IsQueue two
two-IsQueue = record {
  prod_bound = omega arith;
  cons_bound = omega arith;
  used_bound = omega arith;
}

-- The first goes out, the second waits for its close.
one_sent : (pump still two).sent ≡ 1
unfolding pump pump_for turn head_at ticks_to_ns
one_sent = refl

pump-Pumped_example : Pumped still two (pump still two)
pump-Pumped_example = pump-Pumped still two two-IsQueue

tx_window_lem_example :
    WindowOutcome still (wanted still 40000 7 4 two) two (tx_window still 40000 7 4 two)
tx_window_lem_example = tx_window_lem still 40000 7 4 two two-IsQueue
