-- ===== src/Lalib/Session/Outcome.antt =====
-- What sending a stream word does (`__rfnm_la9310_stream_send` of
-- kernel_driver/la9310rfnm/rfnm_lalib.c).
use la9310_driver.Base.{
  ℕ, zero, suc, ◌+◌, ◌/◌, ◌%◌, ◌^◌, ◌≤◌, ◌<◌, ◌≡◌, ◌≢◌, ◌⊎◌, inl, inr, refl, ap, ◌∙◌, Bool, true,
  false, not, ◌&&◌, ◌||◌, if-intro, List, ◌∷◌, ◌==◌, if◌then◌else◌, ℤ, pos, is_zero, failure, arith,
}
use la9310_driver.Lalib.Word.{bit, rx_lanes}
use la9310_driver.Lalib.Session.{
  Session, StreamCmd, Modem, Sys, stream_cmd, published, await, attempts, window_lifecycle,
  record_word, inject, transmit, is_fresh, send_with,
}

-- `k` more commands on a list.
abbrev pub logged : ℕ → StreamCmd → List StreamCmd → List StreamCmd
logged zero c l = l
logged (suc k) c l = logged k c (c ∷ l)

news : (force : Bool) (u w : ℕ) → (not force && (u == w)) ≡ false → (force ≡ true) ⊎ (u ≢ w)
news true u w h = inl refl
news false u w h = inr λ e. ground arith

module _ {W : Type 0} (m : Modem W) where
  -- Whatever is waited for is there.
  abbrev pub settled : Bool → Bool → ℕ → ℕ → W → Bool
  settled wait_rx wait_tx rx_pre tx_pre w =
      not (m.has_status && (wait_rx || wait_tx)) || published m wait_rx wait_tx rx_pre tx_pre w

  module _ (wait_rx wait_tx : Bool) (rx_pre tx_pre t : ℕ) where
    -- After at most `n` attempts from `s`, `k` commands went out and nothing is recorded yet.
    pub record Tried (n : ℕ) (s : Sys W) (r : ℤ × Sys W) : Type 0 where
      pub session : r.1.session ≡ s.session
      pub cnt : r.1.stream_send_cnt ≡ s.stream_send_cnt
      pub gen : r.1.streamed_gen ≡ s.streamed_gen
      pub k : ℕ
      pub few : k ≤ n
      pub some_sent : 0 < n → 0 < k
      pub sent : r.1.sent ≡ logged k (stream_cmd s.session t) s.sent
      pub settles : r.0 ≡ pos 0 → (k ≡ n) ⊎ (settled wait_rx wait_tx rx_pre tx_pre r.1.world ≡ true)

    await-settled :
        (w : W)
        → (await m wait_rx wait_tx rx_pre tx_pre w).0 ≡ true
        → settled wait_rx wait_tx rx_pre tx_pre (await m wait_rx wait_tx rx_pre tx_pre w).1 ≡ true
    await-settled w =
        if-intro (λ (r : Bool × W). r.0 ≡ true → settled wait_rx wait_tx rx_pre tx_pre r.1 ≡ true)
          (m.has_status && (wait_rx || wait_tx)) _ _ (λ waits done. cc (waits, done))
          (λ idle _. cc (idle))

    -- Sending tries at least once and at most `n` times, each time with the same command. If it gives
    -- 0, the epochs that were waited for have moved, unless all `n` attempts were used up. Nothing of
    -- the session changes meanwhile.
    pub attempts-Tried :
        (n : ℕ) (s : Sys W) → Tried n s (attempts m wait_rx wait_tx rx_pre tx_pre t n s)
    unfolding attempts
    attempts-Tried zero s = record {
      session = refl;
      cnt = refl;
      gen = refl;
      k = 0;
      few = omega arith;
      some_sent = λ h. h;
      sent = refl;
      settles = λ _. inl refl;
    }
    attempts-Tried (suc n) s =
        let cmd = stream_cmd s.session t in
        let sent_it = m.send_stream cmd s.world in
        let waited = await m wait_rx wait_tx rx_pre tx_pre sent_it.1 in
        let s' : Sys W = record s { sent = cmd ∷ s.sent; world = waited.1 } in
        let rest = attempts-Tried n s' in
        if-intro (Tried (suc n) s) (not (is_zero sent_it.0)) _ _
          (λ failed. record {
            session = refl;
            cnt = refl;
            gen = refl;
            k = 1;
            few = omega arith;
            some_sent = λ _. omega arith;
            sent = refl;
            settles = λ e. absurd (failure sent_it.0 failed e);
          })
          λ went.
            if-intro (Tried (suc n) s) waited.0 _ _
              (λ done. record {
                session = refl;
                cnt = refl;
                gen = refl;
                k = 1;
                few = omega arith;
                some_sent = λ _. omega arith;
                sent = refl;
                settles = λ _. inr (await-settled sent_it.1 done);
              })
              λ _. record {
                session = rest.session;
                cnt = rest.cnt;
                gen = rest.gen;
                k = suc (rest.k);
                few = omega (arith, rest.few);
                some_sent = λ _. omega arith;
                sent = rest.sent;
                settles = λ e. elim (rest.settles e) [ inl l ↦ inl (ap suc l) | inr g ↦ inr g ];
              }

  -- The parts that the windowed lifecycle leaves alone.
  record Same (s s' : Sys W) : Type 0 where
    session : s'.session ≡ s.session
    cnt : s'.stream_send_cnt ≡ s.stream_send_cnt
    sent : s'.sent ≡ s.sent

  lifecycle-Same : (t : ℕ) (s : Sys W) → Same s (window_lifecycle m t s)
  unfolding window_lifecycle
  lifecycle-Same t s =
      if-intro (Same s) (not (bit t 16 == 0)) _ _
        (λ _. record { session = refl; cnt = refl; sent = refl })
        λ _. record { session = refl; cnt = refl; sent = refl }

  -- What sending the word `u` from `s` comes to.
  pub record Sent (u : ℕ) (s : Sys W) (r : ℤ × Sys W) : Type 0 where
    pub k : ℕ
    pub some_sent : 0 < k
    pub few : k ≤ 2
    pub sent : r.1.sent ≡ logged k (stream_cmd s.session u) s.sent
    pub failed : r.0 ≢ pos 0 → (r.1.session ≡ s.session) × (r.1.stream_send_cnt ≡ s.stream_send_cnt)
    pub succeeded :
        r.0 ≡ pos 0
        → (r.1.session ≡ record s.session { stream_word = u })
          × (r.1.stream_send_cnt ≡ (s.stream_send_cnt + 1) % 2 ^ 32)

  transmit-Sent : (t : ℕ) (force : Bool) (s : Sys W) → Sent t s (transmit m t force s)
  unfolding transmit record_word
  transmit-Sent t force s =
      let wait_rx = not (rx_lanes t == 0) in
      let wait_tx = not (bit t 0 == 0) && not (force && (t == s.session.stream_word)) in
      let tried = attempts-Tried wait_rx wait_tx (m.rx_epoch s.world) (m.tx_epoch s.world) t 2 s in
      let r = attempts m wait_rx wait_tx (m.rx_epoch s.world) (m.tx_epoch s.world) t 2 s in
      let kept = lifecycle-Same t r.1 in
      if-intro (Sent t s) (not (is_zero r.0)) _ _
        (λ bad. record {
          k = tried.k;
          some_sent = tried.some_sent (omega arith);
          few = tried.few;
          sent = tried.sent;
          failed = λ _. (tried.session, tried.cnt);
          succeeded = λ e. absurd (failure r.0 bad e);
        })
        λ good. record {
          k = tried.k;
          some_sent = tried.some_sent (omega arith);
          few = tried.few;
          sent = kept.sent ∙ tried.sent;
          failed = λ e. absurd (e refl);
          succeeded = λ _. (
            ap (λ (x : Session). record x { stream_word = t }) (kept.session ∙ tried.session),
            ap (λ (x : ℕ). (x + 1) % 2 ^ 32) (kept.cnt ∙ tried.cnt),
          );
        }

  module _ (init : Sys W → Sys W) where
    -- The system that the word is sent from: the live word with no lane of reception, and a word
    -- that transmits as the first of its generation, let `init` run first.
    abbrev pub prepared : ℕ → Sys W → Sys W
    prepared u s =
        if not (bit u 0 == 0) && is_fresh m s && (s.session.stream_word % 32 / 2 == 0)
        then init s
        else s

    -- Dropped, or sent.
    abbrev pub SendOutcome : ℕ → Bool → Sys W → ℤ × Sys W → Type 0
    SendOutcome t force s r =
        ((force ≡ false) × (inject m s t ≡ s.session.stream_word) × (r ≡ (pos 0, s)))
        ⊎ (((force ≡ true) ⊎ (inject m s t ≢ s.session.stream_word))
            × Sent (inject m s t) (prepared (inject m s t) s) r)

    -- A word that is the live one already, and is not forced, is dropped: the result is 0 and nothing
    -- changes. Any other goes out once or twice, as the same command, from the system that `init`
    -- leaves if it was to run first. If the result is 0, the word is the live one and one more send
    -- is counted; if not, the session and the count are as they were before the command.
    pub send_lem :
        (t : ℕ) (force : Bool) (s : Sys W) → SendOutcome t force s (send_with m init t force s)
    unfolding send_with
    send_lem t force s =
        let u = inject m s t in
        if-intro (SendOutcome t force s) (not force && (u == s.session.stream_word)) _ _
          (λ same. inl (ground arith, ground arith, refl))
          λ new. inr (
            news force (inject m s t) s.session.stream_word new,
            transmit-Sent u force (prepared u s),
          )
