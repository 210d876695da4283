-- ===== src/Lalib/Mailbox/Tests.antt =====
-- Runs of the mailbox with a modem that answers at once.
use la9310_driver.Base.{ℕ, ◌≡◌, refl, false, [], ◌∷◌, pos}
use la9310_driver.Lalib.Mailbox.{
  SwCmd, Shared, Host, send_swcmd, post, is_busy, wait_done, status, result, free_cmd,
}
use la9310_driver.Lalib.Mailbox.Outcome.{SwcmdOutcome, send_swcmd_lem}

-- The status word is the state: 1 is free, 2 done, 3 busy.
abbrev prompt : Shared ℕ
prompt = record {
  status_free = 1;
  status_done = 2;
  fenced = λ (w : ℕ). false;
  read_status = λ (w : ℕ). (w, w);
  read_result = λ (w : ℕ). (0, w);
  read_data = λ (c : SwCmd) (w : ℕ). (c, w);
  write_status = λ (v w : ℕ). v;
  copy_cmd = λ (c : SwCmd) (w : ℕ). 3;
  raise_modem_irq = λ (w : ℕ). 2;
  polls = λ (w : ℕ). 5;
}

abbrev stop_tdd : SwCmd
stop_tdd = record { cmd = 7; words = 0 ∷ 0 ∷ [] }

abbrev at_status : ℕ → Host ℕ
at_status s = record { desc_busy = 0; timed_out = 0; tx = 0; posted = []; world = s }

answered : (send_swcmd prompt stop_tdd (at_status 2)).0 ≡ pos 0
unfolding send_swcmd post is_busy wait_done status result free_cmd
answered = refl

turned_away : (send_swcmd prompt stop_tdd (at_status 3)).2.desc_busy ≡ 1
unfolding send_swcmd post is_busy wait_done status result free_cmd
turned_away = refl

send_swcmd_lem_example :
    SwcmdOutcome prompt stop_tdd (at_status 1) (send_swcmd prompt stop_tdd (at_status 1))
send_swcmd_lem_example = send_swcmd_lem prompt stop_tdd (at_status 1)
