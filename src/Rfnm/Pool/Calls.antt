-- ===== src/Rfnm/Pool/Calls.antt =====
-- The calls of the data endpoint (`rfnm_dev_ioctl`, `rfnm_dev_open`, `rfnm_dev_release` and
-- `rfnm_dev_poll` of kernel_driver/la9310rfnm/la9310_rfnm.c), and the steps of a history.
use la9310_driver.Base.{
  ℕ, ◌+◌, ◌-◌, ◌%◌, ◌^◌, Bool, true, false, not, ◌&&◌, List, [], ◌∷◌, Option, none, some, ltb, leb,
  ◌==◌, if◌then◌else◌, ℤ, pos, neg, set, sub32,
}
use la9310_driver.Rfnm.Pool.{
  Ele, Format, Limits, Pools, no_addr, enospc, einval, efault, entry, reclaim, cleared, cull_stale,
  rx_ship, release_rx, dequeue_rx_ref, claim_tx, commit_tx, abort_tx, queue_tx, fill_tx, finish_tx,
  flush_staging, reset_stream_io,
}

module _ {R T : Type 0} (f : Format R T) (m : Limits) where
  -- Give an element that was found in a table back to its list, if there was one.
  unfoldable pub retire_rx : Option Ele → Pools R T → Pools R T
  unfolding release_rx
  retire_rx none p = p
  retire_rx (some e) p = release_rx f m e p

  unfoldable pub retire_tx : Option Ele → Pools R T → Pools R T
  unfolding abort_tx
  retire_tx none p = p
  retire_tx (some e) p = abort_tx f m e p

  -- The count of slots that were skipped since the last address.
  abbrev pub skipped : ℕ → ℕ → ℕ
  skipped last idx =
      let step = sub32 ((idx + m.rx_size) % 2 ^ 32) last % m.rx_size in
      if last == no_addr
      then 0
      else if step == 1
      then 0
      else (if step == 0 then m.rx_size - 1 else step - 1)

  -- An element is checked out: it takes its entry, and what stood there is retired.
  unfoldable pub check_out_rx : Ele → Pools R T → Pools R T
  unfolding retire_rx
  check_out_rx e p =
      let stale = entry p.rx_owned e.addr in
      let p₁ = record p {
        canary = (p.canary + skipped p.last_addr e.addr) % 2 ^ 64;
        last_addr = e.addr;
        rx_owned = set p.rx_owned e.addr (some e);
      } in
      elim stale [
        | none ↦ p₁
        | some old ↦ record (retire_rx (some old) p₁) { rx_errors = p.rx_errors + 1 }
      ]

  unfoldable pub check_in_rx : ℕ → Pools R T → Pools R T
  unfolding retire_rx
  check_in_rx i p = retire_rx (entry p.rx_owned i) (record p { rx_owned = set p.rx_owned i none })

  -- The index of the element is copied to the caller, or not.
  unfoldable pub deliver : Option Ele → Bool → Pools R T → ℤ × Pools R T
  unfolding check_out_rx check_in_rx
  deliver none copied p = (enospc, p)
  deliver (some e) copied p =
      if copied then (pos 0, check_out_rx e p) else (efault, check_in_rx e.addr (check_out_rx e p))

  unfoldable pub get_next : Bool → Pools R T → ℤ × Pools R T
  unfolding dequeue_rx_ref deliver
  get_next copied p = let (taken, p₁) = dequeue_rx_ref f m p in deliver taken copied p₁

  -- RFNM_LOCAL_RX_GET
  unfoldable pub rx_get : Bool → Pools R T → ℤ × Pools R T
  unfolding cull_stale get_next
  rx_get copied p = get_next copied (cull_stale f m p)

  -- RFNM_LOCAL_RX_PUT
  unfoldable pub rx_put : ℕ → Pools R T → ℤ × Pools R T
  unfolding release_rx
  rx_put i p = if leb m.rx_size i then (einval, p) else elim (entry p.rx_owned i) [
    | none ↦ (einval, record p { rx_owned = set p.rx_owned i none })
    | some e ↦ (pos 0, release_rx f m e (record p { rx_owned = set p.rx_owned i none }))
  ]

  unfoldable pub check_out_tx : Ele → Pools R T → Pools R T
  unfolding retire_tx
  check_out_tx e p =
      retire_tx (entry p.tx_owned e.addr) (record p { tx_owned = set p.tx_owned e.addr (some e) })

  unfoldable pub check_in_tx : ℕ → Pools R T → Pools R T
  unfolding retire_tx
  check_in_tx i p = retire_tx (entry p.tx_owned i) (record p { tx_owned = set p.tx_owned i none })

  unfoldable pub hand_out : Option Ele → Bool → Pools R T → ℤ × Pools R T
  unfolding check_out_tx check_in_tx
  hand_out none copied p = (enospc, p)
  hand_out (some e) copied p =
      if copied then (pos 0, check_out_tx e p) else (efault, check_in_tx e.addr (check_out_tx e p))

  -- RFNM_LOCAL_TX_ACQ
  unfoldable pub tx_acq : Bool → Pools R T → ℤ × Pools R T
  unfolding claim_tx hand_out
  tx_acq copied p = let (taken, p₁) = claim_tx f m p in hand_out taken copied p₁

  -- RFNM_LOCAL_TX_SUB
  unfoldable pub tx_sub : ℕ → Pools R T → ℤ × Pools R T
  unfolding commit_tx
  tx_sub i p = if leb m.tx_size i then (einval, p) else elim (entry p.tx_owned i) [
    | none ↦ (einval, record p { tx_owned = set p.tx_owned i none })
    | some e ↦ (pos 0, commit_tx f m e (record p { tx_owned = set p.tx_owned i none }))
  ]

  pub data Request : Type 0 where
    get_rx acq_tx : Bool → Request
    put_rx sub_tx : ℕ → Request
    unknown : Request

  abbrev pub moves_data : Request → Bool
  moves_data (get_rx copied) = true
  moves_data (acq_tx copied) = true
  moves_data (put_rx i) = false
  moves_data (sub_tx i) = true
  moves_data unknown = false

  unfoldable pub answer : Request → Pools R T → ℤ × Pools R T
  unfolding rx_get rx_put tx_acq tx_sub
  answer (get_rx copied) p = rx_get copied p
  answer (acq_tx copied) p = tx_acq copied p
  answer (put_rx i) p = rx_put i p
  answer (sub_tx i) p = tx_sub i p
  answer unknown p = (neg 25, p)

  -- rfnm_dev_ioctl: no data moves where the session is of a dead generation of time.
  unfoldable pub dev_ioctl : Bool → Request → Pools R T → ℤ × Pools R T
  unfolding answer
  dev_ioctl session_ok r p = if moves_data r && not session_ok then (neg 19, p) else answer r p

  -- rfnm_dev_open by the process `tg`
  unfoldable pub dev_open : ℕ → Pools R T → ℤ × Pools R T
  dev_open tg p =
      if ltb 0 p.openers && not (p.owner_tgid == tg)
      then (neg 16, record p { open_refused = p.open_refused + 1 })
      else (pos 0, record p { owner_tgid = tg; openers = p.openers + 1 })

  -- rfnm_dev_release: the last one gives everything back that is checked out.
  unfoldable pub dev_release : Pools R T → Pools R T
  unfolding reclaim flush_staging
  dev_release p =
      if p.openers - 1 == 0
      then flush_staging f m (record p {
        openers = p.openers - 1;
        owner_tgid = 0;
        rx_free = reclaim p.rx_owned p.rx_free;
        rx_owned = cleared p.rx_owned;
        tx_free = reclaim p.tx_owned p.tx_free;
        tx_owned = cleared p.tx_owned;
      })
      else record p { openers = p.openers - 1 }

  -- What may happen to the pools: a call, a packet that the producer ships, a client that writes to a
  -- slot, a packet from another transport, the consumer, and a reset of the stream.
  pub data Event : Type 0 where
    ioctl : Bool → Request → Event
    opens : ℕ → Event
    releases finishes resets : Event
    ships : ℕ → R → Event
    writes : ℕ → T → Event
    queues : T → Event

  unfoldable pub step : Event → Pools R T → Pools R T
  unfolding dev_ioctl dev_open dev_release rx_ship queue_tx finish_tx reset_stream_io
  step (ioctl session_ok r) p = (dev_ioctl session_ok r p).1
  step (opens tg) p = (dev_open tg p).1
  step releases p = dev_release p
  step finishes p = finish_tx f m p
  step resets p = reset_stream_io f m p
  step (ships addr packet) p = rx_ship f m addr packet p
  step (writes addr packet) p = fill_tx f m addr packet p
  step (queues packet) p = (queue_tx f m packet p).1

  unfoldable pub run : List Event → Pools R T → Pools R T
  unfolding step
  run [] p = p
  run (ev ∷ evs) p = run evs (step ev p)
