-- ===== src/Rfnm/Pool/Order.antt =====
-- The order of the packets that wait for transmission (`rfnm_local_tx_insert_sorted` of
-- kernel_driver/la9310rfnm/la9310_rfnm.c).
use native.Mathlib.Bridge.{le_prop}
use mathlib.Core.Path.{subst}
use mathlib.Core.Logic.Or
use mathlib.Core.List.{reverse, Perm, Pairwise, Pairwise-singleton, Pairwise-reverse, mem-cons}
use mathlib.Core.List.Perm
use la9310_driver.Base.{
  ℕ, ◌≤◌, ◌-◌, ◌==◌, ◌≡◌, refl, sym, inl, inr, Bool, true, false, List, [], ◌∷◌, Option, none, some,
  leb, if-intro, ℤ, ◌∙◌, ◌&&◌, not, set, Option-cases, Bool-cases, leb→le, leb-false, arith,
}
use la9310_driver.Rfnm.Pool.{
  Ele, Format, Limits, Pools, entry, insert_back, insert_sorted, cull_stale, dequeue_rx_ref,
  release_rx, rx_ship, claim_tx, commit_tx, abort_tx, fill_tx, submit, queue_tx, finish_tx,
  flush_staging,
}
use la9310_driver.Rfnm.Pool.Calls.{
  retire_tx, check_out_tx, check_in_tx, hand_out, tx_acq, tx_sub, get_next, rx_get, rx_put, Request,
  get_rx, acq_tx, put_rx, sub_tx, unknown, moves_data, answer, dev_ioctl, dev_open, dev_release,
  Event, ioctl, opens, releases, finishes, resets, ships, writes, queues, step, run,
}
use la9310_driver.Rfnm.Pool.Conserve.Receive.{deliver-SameTx, cull-SameTx}

-- One packet may stand before another.
abbrev pub Before : Ele → Ele → Type 0
Before a b = a.local_cc ≤ b.local_cc

abbrev After : Ele → Ele → Type 0
After a b = b.local_cc ≤ a.local_cc

-- Each packet stands before those that follow it.
abbrev pub IsOrdered : List Ele → Type 0
IsOrdered = Pairwise Before

insert_back-perm : (e : Ele) (l : List Ele) → Perm (insert_back e l) (e ∷ l)
unfolding insert_back
insert_back-perm e [] = Perm.rfl
insert_back-perm e (c ∷ l) = elim (Bool-cases (leb c.local_cc e.local_cc)) [
  | inl here ↦ rw here Perm.rfl
  | inr further ↦ rw further (Perm.trans (Perm.cons c (insert_back-perm e l)) (Perm.swap e c l))
]

insert_back-ordered : (e : Ele) (l : List Ele) → Pairwise After l → Pairwise After (insert_back e l)
unfolding insert_back
insert_back-ordered e [] Pairwise.nil = Pairwise-singleton _ e
insert_back-ordered e (c ∷ l) (Pairwise.cons below s) =
    elim (Bool-cases (leb c.local_cc e.local_cc)) [
      | inl here ↦
          let le = leb→le _ _ here in
          rw here (
            Pairwise.cons
              (λ x mem.
                Or.elim le_prop (mem-cons.0 mem) (λ is_c. rw is_c le)
                  (λ later. omega (arith, le, below x later)))
              (Pairwise.cons below s))
      | inr further ↦
          let lt = leb-false _ _ further in
          rw further (
            Pairwise.cons
              (λ x mem.
                Or.elim le_prop (mem-cons.0 ((Perm.mem_iff (insert_back-perm e l)).0 mem))
                  (λ is_e. rw is_e (omega (arith, lt))) (λ old. below x old))
              (insert_back-ordered e l s))
    ]

insert_sorted-IsOrdered : (e : Ele) (l : List Ele) → IsOrdered l → IsOrdered (insert_sorted e l)
unfolding insert_sorted
insert_sorted-IsOrdered e l s =
    (Pairwise-reverse (λ a b. le_prop) {l = insert_back e (reverse l)}).1
      (insert_back-ordered e (reverse l) ((Pairwise-reverse (λ a b. le_prop) {l = l}).1 s))

module _ {R T : Type 0} (f : Format R T) (m : Limits) where
  commit_tx-IsOrdered :
      (e : Ele) (p : Pools R T) → IsOrdered p.tx_ready → IsOrdered (commit_tx f m e p).tx_ready
  unfolding commit_tx
  commit_tx-IsOrdered e p s =
      insert_sorted-IsOrdered (record e { local_cc = f.usb_cc (p.tx_buf e.addr) }) p.tx_ready s

  check_out_tx-ready : (e : Ele) (p : Pools R T) → (check_out_tx f m e p).tx_ready ≡ p.tx_ready
  unfolding check_out_tx retire_tx abort_tx
  check_out_tx-ready e p = ground arith

  check_in_tx-ready : (i : ℕ) (p : Pools R T) → (check_in_tx f m i p).tx_ready ≡ p.tx_ready
  unfolding check_in_tx retire_tx abort_tx
  check_in_tx-ready i p = ground arith

  hand_out-ready :
      (o : Option Ele) (copied : Bool) (p : Pools R T)
      → (hand_out f m o copied p).1.tx_ready ≡ p.tx_ready
  unfolding hand_out
  hand_out-ready none copied p = refl
  hand_out-ready (some e) true p = check_out_tx-ready e p
  hand_out-ready (some e) false p = check_in_tx-ready e.addr _ ∙ check_out_tx-ready e p

  claim_tx-ready : (p : Pools R T) → (claim_tx f m p).1.tx_ready ≡ p.tx_ready
  unfolding claim_tx
  claim_tx-ready p = ground arith

  get_next-ready : (copied : Bool) (p : Pools R T) → (get_next f m copied p).1.tx_ready ≡ p.tx_ready
  unfolding get_next dequeue_rx_ref
  get_next-ready copied p =
      (deliver-SameTx f m (dequeue_rx_ref f m p).0 copied (dequeue_rx_ref f m p).1).ready
      ∙ ground arith

  sub-IsOrdered :
      (i : ℕ) (p : Pools R T) → IsOrdered p.tx_ready → IsOrdered (tx_sub f m i p).1.tx_ready
  unfolding tx_sub
  sub-IsOrdered i p s =
      if-intro (λ (q : ℤ × Pools R T). IsOrdered q.1.tx_ready) (leb m.tx_size i) _ _ (λ _. s)
        (λ _. elim (Option-cases (entry p.tx_owned i)) [
          | inl vacant ↦ rw vacant s
          | inr (e, taken) ↦
              rw taken (commit_tx-IsOrdered e (record p { tx_owned = set p.tx_owned i none }) s)
        ])

  submit-IsOrdered :
      (o : Option Ele) (packet : T) (p : Pools R T)
      → IsOrdered p.tx_ready
      → IsOrdered (submit f m o packet p).1.tx_ready
  unfolding submit
  submit-IsOrdered none packet p s = s
  submit-IsOrdered (some e) packet p s = commit_tx-IsOrdered e (fill_tx f m e.addr packet p) s

  queue-IsOrdered :
      (packet : T) (p : Pools R T)
      → IsOrdered p.tx_ready
      → IsOrdered (queue_tx f m packet p).1.tx_ready
  unfolding queue_tx
  queue-IsOrdered packet p s =
      submit-IsOrdered (claim_tx f m p).0 packet (claim_tx f m p).1
        (subst IsOrdered (sym (claim_tx-ready p)) s)

  abbrev rest : List Ele → List Ele
  rest [] = []
  rest (e ∷ l) = l

  rest-IsOrdered : (l : List Ele) → IsOrdered l → IsOrdered (rest l)
  rest-IsOrdered [] s = s
  rest-IsOrdered (e ∷ l) (Pairwise.cons below s) = s

  finish-ready : (p : Pools R T) → (finish_tx f m p).tx_ready ≡ rest p.tx_ready
  unfolding finish_tx
  finish-ready p = ground arith

  answer-IsOrdered :
      (r : Request f m) (p : Pools R T)
      → IsOrdered p.tx_ready
      → IsOrdered (answer f m r p).1.tx_ready
  unfolding answer rx_get rx_put release_rx tx_acq
  answer-IsOrdered (get_rx copied) p s =
      subst IsOrdered (sym (get_next-ready copied (cull_stale f m p) ∙ (cull-SameTx f m p).1)) s
  answer-IsOrdered (acq_tx copied) p s =
      subst IsOrdered
        (sym (hand_out-ready (claim_tx f m p).0 copied (claim_tx f m p).1 ∙ claim_tx-ready p)) s
  answer-IsOrdered (put_rx i) p s =
      let same : (rx_put f m i p).1.tx_ready ≡ p.tx_ready = ground arith in
      subst IsOrdered (sym same) s
  answer-IsOrdered (sub_tx i) p s = sub-IsOrdered i p s
  answer-IsOrdered unknown p s = s

  step-IsOrdered :
      (ev : Event f m) (p : Pools R T) → IsOrdered p.tx_ready → IsOrdered (step f m ev p).tx_ready
  unfolding step dev_ioctl dev_open dev_release flush_staging rx_ship
  step-IsOrdered (ioctl session_ok r) p s =
      if-intro (λ (q : ℤ × Pools R T). IsOrdered q.1.tx_ready) (moves_data f m r && not session_ok)
        _ _ (λ _. s) (λ _. answer-IsOrdered r p s)
  step-IsOrdered (opens tg) p s =
      let same : (dev_open f m tg p).1.tx_ready ≡ p.tx_ready = ground arith in
      subst IsOrdered (sym same) s
  step-IsOrdered releases p s =
      if-intro (λ (q : Pools R T). IsOrdered q.tx_ready) (p.openers - 1 == 0) _ _
        (λ _. Pairwise.nil) (λ _. s)
  step-IsOrdered finishes p s = subst IsOrdered (sym (finish-ready p)) (rest-IsOrdered p.tx_ready s)
  step-IsOrdered resets p s = Pairwise.nil
  step-IsOrdered (ships addr packet) p s =
      let same : (rx_ship f m addr packet p).tx_ready ≡ p.tx_ready = ground arith in
      subst IsOrdered (sym same) s
  step-IsOrdered (writes addr packet) p s = s
  step-IsOrdered (queues packet) p s = queue-IsOrdered packet p s

  -- Whatever the clients do and in whatever order they submit, the packets that wait for transmission
  -- stand in the order of their counters, so the consumer takes the least first.
  pub run-IsOrdered :
      (evs : List (Event f m)) (p : Pools R T)
      → IsOrdered p.tx_ready
      → IsOrdered (run f m evs p).tx_ready
  unfolding run
  run-IsOrdered [] p s = s
  run-IsOrdered (ev ∷ evs) p s = run-IsOrdered evs (step f m ev p) (step-IsOrdered ev p s)
