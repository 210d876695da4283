-- ===== src/Lalib/Death/Tests.antt =====
-- Runs of the detector of stuck channels.
use la9310_driver.Base.{ℕ, suc, zero, ◌%◌, ◌≡◌, refl, true, ◌&&◌, ◌==◌, List, [], ◌∷◌, arith}
use la9310_driver.Lalib.Death.{Poll, arm_death_check, hits_after, stuck, watched, arm_death_polls}
use la9310_driver.Lalib.Death.Streak.{streak, reported, AllStuck, death_lem, death_live}

-- Reception on the first lane, its channel full and idle.
abbrev jammed : Poll
jammed = record { reachable = true; word = 2; fifo = 0; xrun = 0 }

abbrev jams : ℕ → List Poll
jams zero = []
jams (suc n) = jammed ∷ jams n

jams-AllStuck : (n : ℕ) → AllStuck 1 (jams n)
unfolding stuck watched
jams-AllStuck zero = tt
jams-AllStuck (suc n) = (refl, refl, jams-AllStuck n)

fortieth : (arm_death_check jammed (hits_after (jams 39))).0 1 ≡ true
unfolding arm_death_check hits_after stuck watched
fortieth = refl

death_lem_example :
    (arm_death_check jammed (hits_after (jams 39))).0 1
    ≡ (true && stuck jammed 1 && (streak 1 (jams 40) % arm_death_polls == 0))
death_lem_example = death_lem 1 jammed (jams 39) (omega arith)

death_live_example : reported 1 (jams 40) (jams 3) ≡ true
death_live_example = death_live 1 (jams 40) (jams 3) (omega arith) (jams-AllStuck 40) (omega arith)
