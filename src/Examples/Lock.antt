-- ===== src/Examples/Lock.antt =====
-- internal/console/lock.go at concrete inputs.
use aicrme.Prelude.{
  ℕ, ◌≤◌, ◌≡◌, refl, false, List, [], ◌∷◌, none, some, is_some, if◌then◌else◌, ◌==◌,
}
use aicrme.Console.Lock.{Host, Process, outside, holding, Answer, process_live, proceed_all}
use aicrme.Console.Lock.Exclusion.{holders, lock_excludes}

abbrev host : Host
host = record { itoa = λ n. if n == 7 then "7" else "8"; atoi = λ s. some 7; signals = λ n. n == 7 }

abbrev processes : List Process
processes = record { pid = 7; stage = outside } ∷ record { pid = 8; stage = outside } ∷ []

-- Both try; the first one gets in, is released, and the second one gets in after it.
abbrev calls : List (ℕ × Answer)
calls =
    (0, none)
    ∷ (1, none)
    ∷ (0, none)
    ∷ (0, none)
    ∷ (0, none)
    ∷ (0, none)
    ∷ (0, none)
    ∷ (1, none)
    ∷ (1, none)
    ∷ (1, none)
    ∷ []

lock_excludes_example :
    let (ps, file) = proceed_all host "/w/lock" calls processes none in
    holders ps ≤ (if is_some file then 1 else 0)
lock_excludes_example = lock_excludes host "/w/lock" calls processes none refl

second_one_holds :
    proceed_all host "/w/lock" calls processes none
    ≡ (record { pid = 7; stage = outside } ∷ record { pid = 8; stage = holding } ∷ [], some "8")
unfolding proceed_all
second_one_holds = refl

no_process_zero : process_live host 0 ≡ false
unfolding process_live
no_process_zero = refl
