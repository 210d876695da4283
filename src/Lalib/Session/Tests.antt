-- ===== src/Lalib/Session/Tests.antt =====
-- Runs of the session on a modem that publishes at once.
use la9310_driver.Base.{ℕ, ◌+◌, ◌≡◌, refl, Bool, true, false, none, [], length, pos}
use la9310_driver.Lalib.Session.{
  Session, StreamCmd, Modem, Sys, granule, send_with, gen_tx_init_cycle, stream_send,
  stream_send_locked, transmit, attempts, stream_cmd, wait_published, window_lifecycle, record_word,
  granule_shift,
}
use la9310_driver.Lalib.Session.Outcome.{SendOutcome, send_lem}

-- The outside: how often the epochs moved, and whether the ring is armed.
pub record Toy : Type 0 where
  pub epoch : ℕ
  pub armed : Bool

abbrev pub toy : Modem Toy
toy = record {
  send_stream = λ (c : StreamCmd) (w : Toy). (pos 0, record w { epoch = w.epoch + 1 });
  send_tdd = λ (p d : ℕ) (w : Toy). (pos 0, w);
  has_status = true;
  rx_epoch = λ (w : Toy). w.epoch;
  tx_epoch = λ (w : Toy). w.epoch;
  phy_gen_now = λ (w : Toy). 1;
  phy_gen_session_ok = λ (w : Toy). true;
  usleep = λ (w : Toy). w;
  rounds = λ (w : Toy). 3;
  msleep = λ (w : Toy). w;
  rtc_armed = λ (w : Toy). w.armed;
  rtc_arm = λ (w : Toy). record w { armed = true };
  rtc_disarm = λ (w : Toy). record w { armed = false };
  vwin_reset = λ (w : Toy). w;
}

-- Reception on the first lane, with an anchor.
abbrev live : Session
live = record {
  stream_word = 2;
  anchor_tick = 100;
  anchor_valid = true;
  tdd_period_chunks = 0;
  tdd_armed = true;
}

abbrev pub running : Session → Sys Toy
running x = record {
  session = x;
  streamed_gen = none;
  stream_send_cnt = 0;
  restart_stash = 0;
  restart_work = false;
  anchor_work = false;
  sent = [];
  world = record { epoch = 0; armed = false };
}

-- The first word with transmission of a generation: the init cycle sends two words before it.
first_tx : length (stream_send toy 1 (running (record live { stream_word = 0 }))).1.sent ≡ 3
unfolding stream_send stream_send_locked send_with gen_tx_init_cycle transmit attempts stream_cmd
    wait_published window_lifecycle record_word granule granule_shift
first_tx = refl

send_lem_example :
    SendOutcome toy (λ s. s) 3 false (running live) (send_with toy (λ s. s) 3 false (running live))
send_lem_example = send_lem toy (λ s. s) 3 false (running live)
