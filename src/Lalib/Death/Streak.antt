-- ===== src/Lalib/Death/Streak.antt =====
-- When the detector reports a channel (`rfnm_la9310_arm_death_check` of
-- kernel_driver/la9310rfnm/rfnm_lalib.c).
use la9310_driver.Base.{
  ℕ, ◌+◌, ◌%◌, ◌<◌, ◌≤◌, ◌++◌, ◌||◌, length, or-false, ◌≡◌, Bool, true, false, not, ◌&&◌, List, [],
  ◌∷◌, ◌==◌, if◌then◌else◌, Bool-cases, inl, inr, arith,
}
use la9310_driver.Lalib.Death.{Poll, stuck, arm_death_check, arm_death_polls, hits_after}

-- How many of the last polls that could read the registers, one after the other, found the channel
-- stuck.
abbrev pub streak : ℕ → List Poll → ℕ
streak n [] = 0
streak n (o ∷ os) =
    let before = streak n os in
    if not o.reachable then before else (if stuck o n then before + 1 else 0)

hits-streak : (n : ℕ) (os : List Poll) → n < 16 → hits_after os n ≡ streak n os % 40
unfolding hits_after arm_death_check
hits-streak n [] h = omega arith
hits-streak n (o ∷ os) h = let ih = hits-streak n os h in ground arith

-- A poll reports channel `n` exactly if it could read the registers, finds the channel stuck, and
-- the polls that found it stuck one after the other, itself included, are a multiple of 40.
pub death_lem :
    (n : ℕ) (o : Poll) (os : List Poll)
    → n < 16
    → (arm_death_check o (hits_after os)).0 n
      ≡ (o.reachable && stuck o n && (streak n (o ∷ os) % arm_death_polls == 0))
unfolding arm_death_check
death_lem n o os h = let ih = hits-streak n os h in ground arith

-- Some poll of `new`, which come after `os`, reports the channel.
abbrev pub reported : ℕ → List Poll → List Poll → Bool
reported n [] os = false
reported n (o ∷ new) os = reported n new os || (arm_death_check o (hits_after (new ++ os))).0 n

-- Every poll could read the registers and found the channel stuck.
abbrev pub AllStuck : ℕ → List Poll → Type 0
AllStuck n [] = Unit
AllStuck n (o ∷ new) = (o.reachable ≡ true) × (stuck o n ≡ true) × AllStuck n new

-- A poll that finds the channel stuck and does not report it counts one.
unreported_step :
    (n : ℕ) (o : Poll) (hits : ℕ → ℕ)
    → n < 16
    → hits n < 40
    → o.reachable ≡ true
    → stuck o n ≡ true
    → (arm_death_check o hits).0 n ≡ false
    → (arm_death_check o hits).1 n ≡ hits n + 1
unfolding arm_death_check
unreported_step n o hits h few live on last = ground arith

unreported :
    (n : ℕ) (new os : List Poll)
    → n < 16
    → AllStuck n new
    → reported n new os ≡ false
    → hits_after (new ++ os) n ≡ hits_after os n + length new
unfolding hits_after
unreported n [] os h s r = omega arith
unreported n (o ∷ new) os h (live, on, s) r =
    let (quiet, last) =
      or-false (reported n new os) ((arm_death_check o (hits_after (new ++ os))).0 n) r in
    let ih = unreported n new os h s quiet in
    let few : hits_after (new ++ os) n < 40 = omega (arith, hits-streak n (new ++ os) h) in
    let e = unreported_step n o (hits_after (new ++ os)) h few live on last in omega (arith, e, ih)

-- A channel that is stuck in 40 polls that follow one another is reported by one of them, whatever
-- came before.
pub death_live :
    (n : ℕ) (new os : List Poll)
    → n < 16
    → AllStuck n new
    → 40 ≤ length new
    → reported n new os ≡ true
death_live n new os h s long = elim (Bool-cases (reported n new os)) [
  | inl e ↦ e
  | inr e ↦ absurd (omega (arith, unreported n new os h s e, hits-streak n (new ++ os) h))
]
