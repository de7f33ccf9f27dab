-- ===== src/Worker.antt =====
-- pkg/worker/worker.go: the loop that turns the events of the cluster into updates. The state holds
-- the place in the loop, the channel, the clock in nanoseconds, the world that the event processor
-- acts on, and the calls made so far, the newest first. Between two steps of the loop the
-- environment may send an event, let time pass, change the world, or close the stop channel. Where two
-- branches of the select are ready, which one Go takes is an argument of the statement.
pub mod Rounds
pub mod Progress
use application_gateway_kube.Common.{
  ℕ, zero, suc, ◌+◌, ◌-◌, ◌*◌, Text, List, [], ◌∷◌, ◌++◌, Option, none, some, Bool, true, false,
  ltb, if◌then◌else◌,
}

-- `time.Second`, `minTimeBetweenUpdates` and the sleep after an error
abbrev pub second : ℕ
second = 1_000_000_000

abbrev pub min_time_between_updates : ℕ
min_time_between_updates = 1 * second

abbrev pub sleep_on_error_seconds : ℕ
sleep_on_error_seconds = 5

-- `events.EventProcessor` over a world: the answer to an event with its reason, and the two updates
-- with the error they return.
pub record EventProcessor (World Event Error : Type 0) : Type 0 where
  pub should_process : Event → World → Bool × Option Text
  pub mutate_aks : World → Option Error × World
  pub mutate_app_gateway : World → Option Error × World

-- `drainChan`: the last event of the channel, or the default; the channel is empty afterwards.
unfoldable pub drain_chan {ℓ} : {A : Type ℓ} → List A → A → A × List A
drain_chan [] last_event = (last_event, [])
drain_chan (event ∷ work) last_event = drain_chan work event

-- The places between two statements of `Run`.
pub data Place (Event : Type 0) : Type 0 where
  selecting : Place Event
  broken : Place Event
  received : Event → Place Event
  accepted : Event → Place Event
  rested : Event → Place Event
  drained : Place Event
  aks_mutated : Place Event
  gateway_failed : Place Event
  updated : Place Event

pub data Call : Type 0 where
  aks : ℕ → Call
  app_gateway : ℕ → Call

pub record Worker (World Event : Type 0) : Type 0 where
  pub place : Place Event
  pub work : List Event
  pub now : ℕ
  pub last_update : ℕ
  pub world : World
  pub stopped : Bool
  pub calls : List Call

module _ {World Event Error : Type 0} (w : EventProcessor World Event Error) where
  -- `case event := <-work`
  abbrev take_event : Event → List Event → Worker World Event → Worker World Event
  take_event event work s = record s { place = received event; work = work }

  -- The select, of the channel, of whether the stop channel is closed, and of whether `case
  -- <-stopChannel` is taken when both are ready: with an empty channel and no stop the loop waits. A
  -- `break` leaves the select only.
  abbrev select_branch : List Event → Bool → Bool → Worker World Event → Worker World Event
  select_branch [] false stop_first s = record s { place = selecting }
  select_branch [] true stop_first s = record s { place = broken }
  select_branch (event ∷ work) false stop_first s = take_event event work s
  select_branch (event ∷ work) true false s = take_event event work s
  select_branch (event ∷ work) true true s = record s { place = broken }

  -- The time after `time.Sleep(sleep)`.
  abbrev rest_until : ℕ → ℕ → ℕ
  rest_until since now =
      if ltb since min_time_between_updates then now + (min_time_between_updates - since) else now

  abbrev after_gateway : Option Error → Place Event
  after_gateway none = updated
  after_gateway (some err) = gateway_failed

  -- One statement of the loop of `Run`.
  unfoldable pub advance_at : Bool → Place Event → Worker World Event → Worker World Event
  unfolding drain_chan
  advance_at stop_first selecting s = select_branch s.work s.stopped stop_first s
  advance_at stop_first broken s = record s { place = selecting }
  advance_at stop_first (received event) s =
      if (w.should_process event s.world).0
      then record s { place = accepted event }
      else record s { place = selecting }
  advance_at stop_first (accepted event) s = record s {
    place = rested event;
    now = rest_until (s.now - s.last_update) s.now;
  }
  advance_at stop_first (rested event) s = record s {
    place = drained;
    work = (drain_chan s.work event).1;
  }
  advance_at stop_first drained s = record s {
    place = aks_mutated;
    world = (w.mutate_aks s.world).1;
    calls = aks s.now ∷ s.calls;
  }
  advance_at stop_first aks_mutated s = record s {
    place = after_gateway (w.mutate_app_gateway s.world).0;
    world = (w.mutate_app_gateway s.world).1;
    calls = app_gateway s.now ∷ s.calls;
  }
  advance_at stop_first gateway_failed s = record s {
    place = updated;
    now = s.now + sleep_on_error_seconds * second;
  }
  advance_at stop_first updated s = record s { place = selecting; last_update = s.now }

  unfoldable pub advance : Bool → Worker World Event → Worker World Event
  unfolding advance_at
  advance stop_first s = advance_at stop_first s.place s

  -- What may happen next: a statement of the loop, or a move of the environment.
  pub data Step (s : Worker World Event) : Worker World Event → Type 0 where
    loop : (stop_first : Bool) → Step s (advance stop_first s)
    arrive : (event : Event) → Step s (record s { work = s.work ++ (event ∷ []) })
    elapse : (time : ℕ) → Step s (record s { now = s.now + time })
    change : (world : World) → Step s (record s { world = world })
    close : Step s (record s { stopped = true })

  -- The start of `Run` at a time, and what can be reached from there.
  pub data Reachable : Worker World Event → Type 0 where
    start :
        (work : List Event) (now : ℕ) (world : World)
        → Reachable (record {
          place = selecting;
          work = work;
          now = now;
          last_update = now - 1 * second;
          world = world;
          stopped = false;
          calls = [];
        })
    next : {s t : Worker World Event} → Reachable s → Step s t → Reachable t

  -- The loop left to itself for some statements, with what Go takes at each of them.
  unfoldable pub run_for : (ℕ → Bool) → ℕ → Worker World Event → Worker World Event
  unfolding advance
  run_for stop_first zero s = s
  run_for stop_first (suc n) s = run_for (λ i. stop_first (suc i)) n (advance (stop_first 0) s)
