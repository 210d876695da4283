-- ===== src/Lalib/Session.antt =====
-- The session and the sender of stream words (kernel_driver/la9310rfnm/rfnm_lalib.c). The mailbox,
-- the modem's epochs, the phy generation and the real-time command ring are an interface, so that
-- what the modem does between two steps is left open. Locks and messages are left out: one sender
-- runs at a time.
pub mod Granule
pub mod Life
pub mod Outcome
pub mod Tests
use la9310_driver.Base.{
  ℕ, zero, suc, ◌+◌, ◌*◌, ◌/◌, ◌%◌, ◌^◌, Bool, true, false, not, ◌&&◌, ◌||◌, Option, none, some,
  List, [], ◌∷◌, ltb, ◌==◌, if◌then◌else◌, ℤ, pos, neg, is_zero,
}
use la9310_driver.Lalib.Word.{bit, rx_lanes, windowed}

-- struct rfnm_session
pub record Session : Type 0 where
  pub stream_word : ℕ
  pub anchor_tick : ℕ
  pub anchor_valid : Bool
  pub tdd_period_chunks : ℕ
  pub tdd_armed : Bool

-- The stream command: `addr`, and `anchor_phase` with `anchor_granule` where an anchor stands.
pub record StreamCmd : Type 0 where
  pub addr : ℕ
  pub anchor : Option (ℕ × ℕ)

-- What the sender uses of the outside, on a state `W` of it.
pub record Modem (W : Type 0) : Type 0 where
  -- rf_send_swcmd, then rf_free_cmd
  pub send_stream : StreamCmd → W → ℤ × W
  pub send_tdd : ℕ → ℕ → W → ℤ × W
  -- whether rfnm_la9310_status is mapped, and its epochs
  pub has_status : Bool
  pub rx_epoch : W → ℕ
  pub tx_epoch : W → ℕ
  pub phy_gen_now : W → ℕ
  pub phy_gen_session_ok : W → Bool
  -- one round of waiting for an epoch, and how many of them 50 ms hold
  pub usleep : W → W
  pub rounds : W → ℕ
  pub msleep : W → W
  pub rtc_armed : W → Bool
  pub rtc_arm : W → W
  pub rtc_disarm : W → W
  pub vwin_reset : W → W

-- The session, the generation that the last channel-on word ran on, the count of sends, the word
-- that a restart left to be sent again, and the outside. `sent` lists the stream commands that went
-- to the mailbox, the last one first; the code does not keep it.
pub record Sys (W : Type 0) : Type 0 where
  pub session : Session
  pub streamed_gen : Option ℕ
  pub stream_send_cnt : ℕ
  pub restart_stash : ℕ
  -- the works that are scheduled
  pub restart_work : Bool
  pub anchor_work : Bool
  pub sent : List StreamCmd
  pub world : W

abbrev pub with_word : {W : Type 0} → Sys W → ℕ → Sys W
with_word s t = record s { session = record s.session { stream_word = t } }

-- The larger enabled divider of a word, and the granule of its anchors.
unfoldable pub granule_shift : ℕ → ℕ
granule_shift t = let d = bit t 9 in if not (bit t 0 == 0) && ltb d (bit t 10) then bit t 10 else d

unfoldable pub granule : Session → ℕ → ℕ
granule s t =
    if not (s.tdd_period_chunks == 0)
    then s.tdd_period_chunks * (384 * 2 ^ bit t 9) % 2 ^ 32
    else 384 * 2 ^ granule_shift t

unfoldable pub stream_cmd : Session → ℕ → StreamCmd
stream_cmd s t = record {
  addr = t;
  anchor = if s.anchor_valid then some (s.anchor_tick, granule s t) else none;
}

module _ {W : Type 0} (m : Modem W) where
  -- Both directions that are waited for have a new epoch.
  abbrev pub published : Bool → Bool → ℕ → ℕ → W → Bool
  published wait_rx wait_tx rx_pre tx_pre w =
      (not wait_rx || not (m.rx_epoch w == rx_pre)) && (not wait_tx || not (m.tx_epoch w == tx_pre))

  -- The wait for the epochs, for at most so many rounds.
  unfoldable pub wait_published : Bool → Bool → ℕ → ℕ → ℕ → W → W
  wait_published wait_rx wait_tx rx_pre tx_pre zero w = w
  wait_published wait_rx wait_tx rx_pre tx_pre (suc n) w =
      let rest = wait_published wait_rx wait_tx rx_pre tx_pre n (m.usleep w) in
      if published wait_rx wait_tx rx_pre tx_pre w then w else rest

  abbrev pub await : Bool → Bool → ℕ → ℕ → W → Bool × W
  await wait_rx wait_tx rx_pre tx_pre w =
      if m.has_status && (wait_rx || wait_tx)
      then (let w' = wait_published wait_rx wait_tx rx_pre tx_pre (m.rounds w) w in
          (published wait_rx wait_tx rx_pre tx_pre w', w'))
      else (true, w)

  -- At most `n` attempts to have the word published: the result, and the system.
  unfoldable pub attempts : Bool → Bool → ℕ → ℕ → ℕ → ℕ → Sys W → ℤ × Sys W
  attempts wait_rx wait_tx rx_pre tx_pre t zero s = (pos 0, s)
  attempts wait_rx wait_tx rx_pre tx_pre t (suc n) s =
      let cmd = stream_cmd s.session t in
      let (ret, w) = m.send_stream cmd s.world in
      let (done, w') = await wait_rx wait_tx rx_pre tx_pre w in
      let s' = record s { sent = cmd ∷ s.sent; world = w' } in
      let again = attempts wait_rx wait_tx rx_pre tx_pre t n s' in
      if not (is_zero ret)
      then (ret, record s { sent = cmd ∷ s.sent; world = w })
      else (if done then (pos 0, s') else again)

  -- The windowed lifecycle after a word went out.
  unfoldable pub window_lifecycle : ℕ → Sys W → Sys W
  window_lifecycle t s =
      if not (bit t 16 == 0)
      then record s { world = m.rtc_arm s.world }
      else (let w = m.vwin_reset s.world in
          record s {
            world =
                if not (bit s.session.stream_word 16 == 0) || not (bit t 0 == 0)
                then m.rtc_disarm w
                else w;
          })

  -- What is kept of a word that went out.
  unfoldable pub record_word : ℕ → Sys W → Sys W
  record_word t s = record s {
    session = record s.session { stream_word = t };
    stream_send_cnt = (s.stream_send_cnt + 1) % 2 ^ 32;
    streamed_gen = if not (t % 32 == 0) then some (m.phy_gen_now s.world) else s.streamed_gen;
  }

  -- The mark that a word gets where the ring is armed.
  abbrev pub inject : Sys W → ℕ → ℕ
  inject s t = if m.rtc_armed s.world && not (bit t 0 == 0) then windowed t else t

  -- The sends of a word that is not the live one, from the epochs before it on.
  unfoldable pub transmit : ℕ → Bool → Sys W → ℤ × Sys W
  transmit t force s =
      let wait_rx = not (rx_lanes t == 0) in
      let wait_tx = not (bit t 0 == 0) && not (force && (t == s.session.stream_word)) in
      let (ret, s') = attempts wait_rx wait_tx (m.rx_epoch s.world) (m.tx_epoch s.world) t 2 s in
      if not (is_zero ret) then (ret, s') else (pos 0, record_word t (window_lifecycle t s'))

  -- No channel-on word has run on this generation.
  abbrev pub is_fresh : Sys W → Bool
  is_fresh s = elim (s.streamed_gen) [ none ↦ true | some g ↦ not (g == m.phy_gen_now s.world) ]

  -- `__rfnm_la9310_stream_send`, with what it does before the first word with transmission of a
  -- generation.
  unfoldable pub send_with : (Sys W → Sys W) → ℕ → Bool → Sys W → ℤ × Sys W
  send_with init t force s =
      let u = inject s t in
      if not force && (u == s.session.stream_word)
      then (pos 0, s)
      else transmit u force (
          if not (bit u 0 == 0) && is_fresh s && (s.session.stream_word % 32 / 2 == 0)
          then init s
          else s)

  -- `rfnm_gen_tx_init_cycle`: a receive word with the dividers of `t`, a dwell, and all off. None of
  -- its words transmits, so that no such cycle starts from within it.
  unfoldable pub gen_tx_init_cycle : ℕ → Sys W → Sys W
  gen_tx_init_cycle t s =
      let (ret, s₁) = send_with (λ u. u) (t / 2 ^ 9 % 4 * 2 ^ 9 + 2) false s in
      if not (is_zero ret)
      then s₁
      else (send_with (λ u. u) 0 false (record s₁ { world = m.msleep s₁.world })).1

  unfoldable pub stream_send_locked : ℕ → Bool → Sys W → ℤ × Sys W
  stream_send_locked t force s = send_with (gen_tx_init_cycle (inject s t)) t force s

  unfoldable pub stream_send : ℕ → Sys W → ℤ × Sys W
  stream_send t s = stream_send_locked t false s

  -- `rfnm_lalib_phy_restart_notify`, and the work that it schedules.
  unfoldable pub phy_restart_notify : Sys W → Sys W
  phy_restart_notify s =
      if not (s.session.stream_word == 0)
      then record (with_word s 0) { restart_stash = s.session.stream_word; restart_work = true }
      else s

  unfoldable pub phy_restart_work : Sys W → Sys W
  phy_restart_work s =
      let t = s.restart_stash in
      let s' = record s { restart_stash = 0; restart_work = false } in
      if not (t == 0) && not (rx_lanes t == 0) then (stream_send_locked t true s').1 else s'

  unfoldable pub stream_reapply : Sys W → Sys W
  stream_reapply s =
      let t = s.session.stream_word in
      if (t == 0) || (rx_lanes t == 0)
      then s
      else (let (ret, s') = stream_send_locked t true s in
          if not (is_zero ret) then with_word s' 0 else s')

  unfoldable pub anchor_reapply_work : Sys W → Sys W
  anchor_reapply_work s = stream_reapply (record s { anchor_work = false })

  -- `rfnm_la9310_txn`: operation, kind, tick and flags.
  unfoldable pub txn : ℕ → ℕ → ℕ → ℕ → Sys W → ℤ × Sys W
  txn op kind tick flags s =
      if not (m.phy_gen_session_ok s.world)
      then (neg 19, s)
      else (if not (op == 1) || not (kind == 4) then (neg 38, s) else (
        pos 0,
        record s {
          session = record s.session { anchor_tick = tick; anchor_valid = not (flags % 2 == 0) };
          anchor_work = true;
        },
      ))

  unfoldable pub tdd : ℕ → ℕ → Sys W → ℤ × Sys W
  tdd period_chunks duty_chunks s =
      if not (m.phy_gen_session_ok s.world)
      then (neg 19, s)
      else (let (ret, w) = m.send_tdd period_chunks duty_chunks s.world in
          let s' = record s { world = w } in
          if not (is_zero ret) then (ret, s') else (
            ret,
            stream_reapply (record s' {
              session = record s'.session {
                tdd_armed = not (period_chunks == 0) || not (duty_chunks == 0);
                tdd_period_chunks = period_chunks;
              };
            }),
          ))

  unfoldable pub pos_tx_viable : Sys W → Bool
  pos_tx_viable s = not s.session.tdd_armed

  unfoldable pub quiesce : Sys W → Sys W
  quiesce s =
      let s' = if not (s.session.stream_word == 0) then with_word (stream_send 0 s).1 0 else s in
      if s'.session.tdd_armed then (tdd 0 0 s').1 else s'
