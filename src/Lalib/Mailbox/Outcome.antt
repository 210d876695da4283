-- ===== src/Lalib/Mailbox/Outcome.antt =====
-- How a command through the mailbox ends (`rf_send_swcmd` of
-- kernel_driver/la9310rfnm/rfnm_lalib.c).
use la9310_driver.Base.{
  ℕ, zero, suc, ◌≢◌, true, false, ==_iff, Bool-cases, arith, ◌+◌, ◌%◌, ◌^◌, ◌≡◌, ◌⊎◌, inl, inr,
  refl, not, if-intro, if◌then◌else◌, ◌∷◌, ◌==◌, ℤ,
}
use la9310_driver.Lalib.Mailbox.{
  SwCmd, Shared, Host, ebusy, int32, status, result, wait_done, is_busy, post, send_swcmd, free_cmd,
}

module _ {W : Type 0} (sh : Shared W) where
  -- The wait for the modem, of at most so many reads of the status: it ends with DONE, at a fence, or
  -- when no reads are left.
  pub data Waited : ℕ → W → W → Type 0 where
    spent : (w : W) → Waited 0 w w
    cut : (n : ℕ) (w : W) → sh.fenced w ≡ true → Waited (suc n) w w
    done :
        (n : ℕ) (w : W)
        → sh.fenced w ≡ false
        → (status sh w).0 ≡ sh.status_done
        → Waited (suc n) w (status sh w).1
    again :
        (n : ℕ) (w w' : W)
        → sh.fenced w ≡ false
        → (status sh w).0 ≢ sh.status_done
        → Waited n (status sh w).1 w'
        → Waited (suc n) w w'

  wait_done-Waited : (n : ℕ) (w : W) → Waited n w (wait_done sh n w)
  unfolding wait_done
  wait_done-Waited zero w = spent w
  wait_done-Waited (suc n) w =
      if-intro (Waited (suc n) w) (sh.fenced w) _ _ (λ f. cut n w f)
        λ f.
          if-intro (Waited (suc n) w) ((status sh w).0 == sh.status_done) _ _
            (λ d. done n w f ((==_iff _ _).0 d))
            λ d.
              again n w _ f (λ e. absurd (cc (d, (==_iff _ _).1 e)))
                (wait_done-Waited n (status sh w).1)

  -- The state from which the wait starts: the command is copied and the modem is interrupted, but for
  -- a fence.
  abbrev pub raised : SwCmd → W → W
  raised c w =
      let w₁ = if sh.fenced w then w else sh.copy_cmd c w in
      if sh.fenced w₁ then w₁ else sh.raise_modem_irq w₁

  -- The descriptor was not free: -EBUSY, and no command was copied. The link is fenced, or the status
  -- was read as neither FREE nor DONE.
  pub record Busy (h : Host W) (r : ℤ × SwCmd × Host W) : Type 0 where
    pub why :
        (sh.fenced h.world ≡ true)
        ⊎ (((status sh h.world).0 ≢ sh.status_free)
            × ((status sh (status sh h.world).1).0 ≢ sh.status_done))
    pub code : r.0 ≡ ebusy
    pub posted : r.2.posted ≡ h.posted
    pub busy : r.2.desc_busy ≡ (h.desc_busy + 1) % 2 ^ 32
    pub timed_out : r.2.timed_out ≡ h.timed_out
    pub tx : r.2.tx ≡ h.tx

  -- The descriptor was free in the state `w`: its status was read as FREE, or, on a second read, as
  -- DONE.
  abbrev pub IsFree : W → W → Type 0
  IsFree w₀ w =
      (sh.fenced w₀ ≡ false)
      × ((((status sh w₀).0 ≡ sh.status_free) × (w ≡ (status sh w₀).1))
          ⊎ (((status sh w₀).0 ≢ sh.status_free)
              × ((status sh (status sh w₀).1).0 ≡ sh.status_done)
              × (w ≡ (status sh (status sh w₀).1).1)))

  -- The modem did not answer in time: -EBUSY, and the command is as it was sent.
  pub record TimedOut (c : SwCmd) (h : Host W) (w : W) (r : ℤ × SwCmd × Host W) : Type 0 where
    pub waited : W
    pub waits : Waited (sh.polls (raised c w)) (raised c w) waited
    pub unanswered : (status sh waited).0 ≢ sh.status_done
    pub freed : r.2.world ≡ free_cmd sh (status sh waited).1
    pub code : r.0 ≡ ebusy
    pub same : r.1 ≡ c
    pub posted : r.2.posted ≡ c ∷ h.posted
    pub busy : r.2.desc_busy ≡ h.desc_busy
    pub timed_out : r.2.timed_out ≡ (h.timed_out + 1) % 2 ^ 32
    pub tx : r.2.tx ≡ h.tx

  -- The modem answered: the result is its own, and the command carries its data, both read from the
  -- state in which the status is DONE.
  pub record Answered (c : SwCmd) (h : Host W) (w : W) (r : ℤ × SwCmd × Host W) : Type 0 where
    pub waited : W
    pub waits : Waited (sh.polls (raised c w)) (raised c w) waited
    pub answered : (status sh waited).0 ≡ sh.status_done
    pub code : r.0 ≡ int32 (result sh (status sh waited).1).0
    pub data_read : r.1 ≡ (sh.read_data c (result sh (status sh waited).1).1).0
    pub freed : r.2.world ≡ free_cmd sh (sh.read_data c (result sh (status sh waited).1).1).1
    pub posted : r.2.posted ≡ c ∷ h.posted
    pub busy : r.2.desc_busy ≡ h.desc_busy
    pub timed_out : r.2.timed_out ≡ h.timed_out
    pub tx : r.2.tx ≡ (h.tx + 1) % 2 ^ 32

  abbrev pub Posted : SwCmd → Host W → W → ℤ × SwCmd × Host W → Type 0
  Posted c h w r = TimedOut c h w r ⊎ Answered c h w r

  abbrev pub SwcmdOutcome : SwCmd → Host W → ℤ × SwCmd × Host W → Type 0
  SwcmdOutcome c h r = Busy h r ⊎ ((w : W) × IsFree h.world w × Posted c h w r)

  post-Posted : (c : SwCmd) (h : Host W) (w : W) → Posted c h w (post sh c (record h { world = w }))
  unfolding post
  post-Posted c h w =
      let w₁ = raised c w in
      let end = wait_done sh (sh.polls w₁) w₁ in
      let s = status sh end in
      if-intro (Posted c h w) (not (s.0 == sh.status_done)) _ _
        (λ late. inl (record {
          waited = end;
          waits = wait_done-Waited (sh.polls w₁) w₁;
          unanswered = λ e. ground (arith, (==_iff _ _).1 e);
          freed = refl;
          code = refl;
          same = refl;
          posted = refl;
          busy = refl;
          timed_out = refl;
          tx = refl;
        }))
        λ answer. inr (record {
          waited = end;
          waits = wait_done-Waited (sh.polls w₁) w₁;
          answered = ground arith;
          code = refl;
          data_read = refl;
          freed = refl;
          posted = refl;
          busy = refl;
          timed_out = refl;
          tx = refl;
        })

  -- Sending a command ends in one of three ways, and is counted once. If the link is fenced or the
  -- status is neither FREE nor DONE: -EBUSY, with nothing copied to the modem. Otherwise the command is
  -- copied and the modem is waited for, for as many reads of the status as fit. If the status is then
  -- not DONE: -EBUSY. If it is DONE: the result and the data, read from that state on. In both cases the
  -- descriptor is freed last.
  pub send_swcmd_lem : (c : SwCmd) (h : Host W) → SwcmdOutcome c h (send_swcmd sh c h)
  unfolding send_swcmd is_busy
  send_swcmd_lem c h =
      let a = status sh h.world in
      let b = status sh a.1 in
      if-intro (SwcmdOutcome c h) (sh.fenced h.world) _ _
        (λ f. inl (record {
          why = inl f;
          code = refl;
          posted = refl;
          busy = refl;
          timed_out = refl;
          tx = refl;
        }))
        λ f. elim (Bool-cases (a.0 == sh.status_free)) [
          | inl free ↦
              rw free (inr (a.1, (f, inl ((==_iff _ _).0 free, refl)), post-Posted c h a.1))
          | inr taken ↦ rw taken (elim (Bool-cases (b.0 == sh.status_done)) [
            | inl stale ↦ rw stale (
                inr (
                  b.1,
                  (f, inr (λ e. absurd (cc (taken, (==_iff _ _).1 e)), (==_iff _ _).0 stale, refl)),
                  post-Posted c h b.1,
                ))
            | inr pending ↦ rw pending (
                inl (record {
                  why = inr (
                    λ e. absurd (cc (taken, (==_iff _ _).1 e)),
                    λ e. absurd (cc (pending, (==_iff _ _).1 e)),
                  );
                  code = refl;
                  posted = refl;
                  busy = refl;
                  timed_out = refl;
                  tx = refl;
                }))
          ])
        ]
