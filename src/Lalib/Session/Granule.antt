-- ===== src/Lalib/Session/Granule.antt =====
-- The granule of an anchor and the step that is published for it (`__rfnm_la9310_stream_send` and
-- `rfnm_la9310_stream` of kernel_driver/la9310rfnm/rfnm_lalib.c).
use mathlib.Core.Path.{subst}
use la9310_driver.Base.{
  ℕ, zero, suc, ◌*◌, ◌^◌, ◌≤◌, ◌≡◌, refl, ap, not, ◌||◌, ◌&&◌, ltb, ◌==◌, if◌then◌else◌, if-intro,
  arith,
}
use la9310_driver.Vspa.Registry.{Registry}
use la9310_driver.Lalib.Plan.{Lanes, DcsPlan, plan, planned}
use la9310_driver.Lalib.Plan.Range.{plan_receive, RxOutcome}
use la9310_driver.Lalib.Plan.Window.{plan-InWindow}
use la9310_driver.Lalib.Word.{stream_word, bit, ClockState, get_clock_state, word_tx}
use la9310_driver.Lalib.Word.RoundTrip.{stream_word-IsRead, IsRead}
use la9310_driver.Lalib.Session.{Session, granule, granule_shift}

-- A plan without transmission has its transmit divider off.
silent :
    (reg : Registry) (rate : ℕ) (rx : Lanes) (p : DcsPlan)
    → plan reg rate 0 rx ≡ planned p
    → p.tx_dcs ≡ 0
silent reg rate rx p h =
    let o : RxOutcome rate (planned p) = subst (RxOutcome rate) h (plan_receive reg rate rx) in
    (o.silent).0

shift_lem :
    (tx rd td a b c : ℕ)
    → a ≡ tx
    → b ≡ rd
    → c ≡ td
    → rd ≤ 1
    → td ≤ 1
    → tx ≤ 1
    → (tx ≡ 0 → td ≡ 0)
    → (if not (a == 0) && ltb b c then c else b) ≡ (if not (rd == 0) || not (td == 0) then 1 else 0)
shift_lem zero rd td a b c ea eb ec h k l off = let z = off refl in ground arith
shift_lem (suc n) rd td a b c ea eb ec h k l off = ground arith

bits :
    (tx : ℕ) (rx : Lanes) (p : DcsPlan) (t : ℕ)
    → tx ≤ 1
    → IsRead tx rx p t
    → (bit t 0 ≡ tx) × (bit t 9 ≡ p.rx_dcs) × (bit t 10 ≡ p.tx_dcs)
unfolding get_clock_state word_tx
bits tx rx p t h r = (
  omega (arith, r.transmit),
  ap (λ (c : ClockState). c.rx_dcs_div) r.state,
  ap (λ (c : ClockState). c.tx_dcs_div) r.state,
)

-- Where no pattern is commanded, the granule that an anchor gets in the word of a plan is the step
-- that is published for the plan.
pub granule_step :
    (reg : Registry) (rate tx : ℕ) (rx : Lanes) (p : DcsPlan) (s : Session)
    → plan reg rate tx rx ≡ planned p
    → tx ≤ 1
    → s.tdd_period_chunks ≡ 0
    → granule s (stream_word tx rx p)
      ≡ 384 * 2 ^ (if not (p.rx_dcs == 0) || not (p.tx_dcs == 0) then 1 else 0)
unfolding granule granule_shift
granule_step reg rate tx rx p s h small idle =
    let t = stream_word tx rx p in
    let w = plan-InWindow reg rate tx rx p h in
    let (e0, e9, e10) = bits tx rx p t small (stream_word-IsRead reg rate tx rx p h) in
    let off : tx ≡ 0 → p.tx_dcs ≡ 0 =
      λ z. silent reg rate rx p (subst (λ (x : ℕ). plan reg rate x rx ≡ planned p) z h) in
    let shift =
      shift_lem tx p.rx_dcs p.tx_dcs (bit t 0) (bit t 9) (bit t 10) e0 e9 e10 w.rx_div w.tx_div
        small off in
    if-intro
      (λ (g : ℕ). g ≡ 384 * 2 ^ (if not (p.rx_dcs == 0) || not (p.tx_dcs == 0) then 1 else 0))
      (not (s.tdd_period_chunks == 0)) _ _ (λ on. ground arith)
      λ _. ap (λ (x : ℕ). 384 * 2 ^ x) shift
