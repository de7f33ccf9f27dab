-- ===== src/Examples/Worker.antt =====
-- Examples for pkg/worker.
use application_gateway_kube.Common.{
  Bool, true, ℕ, ◌+◌, ◌*◌, Text, List, [], ◌∷◌, ◌++◌, none, some, false, length, refl, arith,
  nat_beq,
}
use application_gateway_kube.Worker.{
  EventProcessor, Worker, selecting, Reachable, start, next, arrive, loop, run_for, advance,
}
use application_gateway_kube.Worker.Rounds.{IsTimelyWorker, Reachable-IsTimely}
use application_gateway_kube.Worker.Progress.{
  TakesWork, IsIdle, IsServed, run_for-IsIdle, run_for-IsServed,
}

-- The world counts the updates; the event 0 is not to be processed, and an update of the gateway fails.
abbrev counting : EventProcessor ℕ ℕ Text
counting = record {
  should_process = λ event world. (nat_beq event 1, none);
  mutate_aks = λ world. (none, world + 1);
  mutate_app_gateway = λ world. (some [], world + 1);
}

abbrev waiting : Worker ℕ ℕ
waiting = record {
  place = selecting;
  work = [];
  now = 5_000_000_000;
  last_update = 4_000_000_000;
  world = 0;
  stopped = false;
  calls = [];
}

abbrev begun : Reachable counting waiting
begun = start [] 5_000_000_000 0

abbrev arrived : Worker ℕ ℕ
arrived = record waiting { work = 1 ∷ [] }

abbrev reached : Reachable counting arrived
reached = next begun (arrive 1)

taken : Reachable counting (advance counting true arrived)
taken = next reached (loop true)

Reachable-IsTimely_example : IsTimelyWorker (advance counting true arrived)
Reachable-IsTimely_example = Reachable-IsTimely counting taken

abbrev unwanted : List ℕ
unwanted = 0 ∷ 0 ∷ []

abbrev others : List ℕ
others = 0 ∷ []

-- Go takes the stop branch whenever it is ready, or never.
abbrev stop_always : ℕ → Bool
stop_always i = true

abbrev stop_never : ℕ → Bool
stop_never i = false

run_for-IsIdle_example :
    IsIdle
      (run_for counting stop_always 9 arrived).place
      (run_for counting stop_always 9 arrived).work
run_for-IsIdle_example = run_for-IsIdle counting stop_always 9 arrived refl (omega arith)

abbrev stopped : Worker ℕ ℕ
stopped = record waiting { stopped = true }

never_stops : TakesWork counting true stop_never
never_stops i = refl

run_for-IsServed_example : IsServed counting stopped (
    run_for counting stop_never
      (2 * length unwanted + 6)
      (record stopped { place = selecting; work = unwanted ++ (1 ∷ others) }))
run_for-IsServed_example =
    run_for-IsServed counting stop_never unwanted 1 others stopped never_stops (refl, (refl, tt))
      refl
