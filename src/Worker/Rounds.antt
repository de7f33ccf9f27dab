-- ===== src/Worker/Rounds.antt =====
-- pkg/worker/worker.go: the order and the distance of the updates.
use application_gateway_kube.Common.{
  Bool, true, false, Bool-cases, inl, inr, Option, none, some, refl, ◌-◌, ltb, ℕ, ◌+◌, ◌≤◌, List,
  [], ◌∷◌, ◌≡◌, arith,
}
use application_gateway_kube.Worker.{
  Call, aks, app_gateway, Worker, Place, selecting, broken, received, accepted, rested, drained,
  aks_mutated, gateway_failed, updated, EventProcessor, advance, advance_at, Step, loop, arrive,
  elapse, change, close, Reachable, start, next, min_time_between_updates, select_branch,
  after_gateway,
}

-- The calls are complete rounds, of which the last ended at a time or before.
pub data IsRounds : ℕ → List Call → Type 0 where
  no_round : {end : ℕ} → IsRounds end []
  round :
      {before end : ℕ} {calls : List Call} (t u : ℕ)
      → IsRounds before calls
      → before + min_time_between_updates ≤ t
      → t ≤ u
      → u ≤ end
      → IsRounds end (app_gateway u ∷ aks t ∷ calls)

pub IsRounds-later :
    {end later : ℕ} {calls : List Call} → IsRounds end calls → end ≤ later → IsRounds later calls
IsRounds-later no_round h = no_round
IsRounds-later (round t u r p q s) h = round t u r p q (omega arith)

module _ {Event : Type 0} where
  -- Complete rounds, or, between the two updates, one call more: at a place of the loop, at a time,
  -- after the time of the last update, and with the calls made.
  abbrev pub IsTimely : Place Event → ℕ → ℕ → List Call → Type 0
  IsTimely selecting now last_update calls = IsRounds last_update calls × (last_update ≤ now)
  IsTimely broken now last_update calls = IsRounds last_update calls × (last_update ≤ now)
  IsTimely (received event) now last_update calls = IsRounds last_update calls × (last_update ≤ now)
  IsTimely (accepted event) now last_update calls = IsRounds last_update calls × (last_update ≤ now)
  IsTimely (rested event) now last_update calls =
      IsRounds last_update calls × (last_update + min_time_between_updates ≤ now)
  IsTimely drained now last_update calls =
      IsRounds last_update calls × (last_update + min_time_between_updates ≤ now)
  IsTimely aks_mutated now last_update calls =
      (t : ℕ) × (earlier : List Call) × (calls ≡ aks t ∷ earlier)
      × IsRounds last_update earlier
      × (last_update + min_time_between_updates ≤ t)
      × (t ≤ now)
  IsTimely gateway_failed now last_update calls = IsRounds now calls
  IsTimely updated now last_update calls = IsRounds now calls

  -- Time that passes keeps what holds at a place.
  IsTimely-later :
      (p : Place Event) (last_update : ℕ) (calls : List Call) {now later : ℕ}
      → IsTimely p now last_update calls
      → now ≤ later
      → IsTimely p later last_update calls
  IsTimely-later selecting last_update calls h le = (h.0, omega arith)
  IsTimely-later broken last_update calls h le = (h.0, omega arith)
  IsTimely-later (received event) last_update calls h le = (h.0, omega arith)
  IsTimely-later (accepted event) last_update calls h le = (h.0, omega arith)
  IsTimely-later (rested event) last_update calls h le = (h.0, omega arith)
  IsTimely-later drained last_update calls h le = (h.0, omega arith)
  IsTimely-later aks_mutated last_update calls (t, earlier, e, r, p, q) le =
      (t, earlier, e, r, p, omega arith)
  IsTimely-later gateway_failed last_update calls h le = IsRounds-later h le
  IsTimely-later updated last_update calls h le = IsRounds-later h le

module _ {World Event : Type 0} where
  abbrev pub IsTimelyWorker : Worker World Event → Type 0
  IsTimelyWorker s = IsTimely s.place s.now s.last_update s.calls

module _ {World Event Error : Type 0} (w : EventProcessor World Event Error) where
  select_branch-IsTimely :
      (work : List Event) (stopped stop_first : Bool) (s : Worker World Event)
      → IsTimely {Event = Event} selecting s.now s.last_update s.calls
      → IsTimelyWorker (select_branch w work stopped stop_first s)
  select_branch-IsTimely [] false stop_first s h = h
  select_branch-IsTimely [] true stop_first s h = h
  select_branch-IsTimely (event ∷ work) false stop_first s h = h
  select_branch-IsTimely (event ∷ work) true false s h = h
  select_branch-IsTimely (event ∷ work) true true s h = h

  after_gateway-IsTimely :
      (err : Option Error) (last_update : ℕ) {now : ℕ} {calls : List Call}
      → IsRounds now calls
      → IsTimely {Event = Event} (after_gateway w err) now last_update calls
  after_gateway-IsTimely none last_update h = h
  after_gateway-IsTimely (some err) last_update h = h

  advance_at-IsTimely :
      (stop_first : Bool) (p : Place Event) (s : Worker World Event)
      → IsTimely p s.now s.last_update s.calls
      → IsTimelyWorker (advance_at w stop_first p s)
  unfolding advance_at
  advance_at-IsTimely stop_first selecting s h =
      select_branch-IsTimely s.work s.stopped stop_first s h
  advance_at-IsTimely stop_first broken s h = h
  advance_at-IsTimely stop_first (received event) s h =
      elim (Bool-cases (w.should_process event s.world).0) [
        | inl wanted ↦ rw wanted h
        | inr unwanted ↦ rw unwanted h
      ]
  advance_at-IsTimely stop_first (accepted event) s h =
      elim (Bool-cases (ltb (s.now - s.last_update) min_time_between_updates)) [
        | inl early ↦ rw early (h.0, ground arith)
        | inr late ↦ rw late (h.0, ground arith)
      ]
  advance_at-IsTimely stop_first (rested event) s h = h
  advance_at-IsTimely stop_first drained s h = (s.now, s.calls, refl, h.0, h.1, omega arith)
  advance_at-IsTimely stop_first aks_mutated s (t, earlier, e, r, p, q) =
      after_gateway-IsTimely (w.mutate_app_gateway s.world).0 s.last_update
        (rw e (round t s.now r p q (omega arith)))
  advance_at-IsTimely stop_first gateway_failed s h = IsRounds-later h (omega arith)
  advance_at-IsTimely stop_first updated s h = (h, omega arith)

  Step-IsTimely : {s t : Worker World Event} → Step w s t → IsTimelyWorker s → IsTimelyWorker t
  unfolding advance
  Step-IsTimely {s} (loop stop_first) h = advance_at-IsTimely stop_first s.place s h
  Step-IsTimely (arrive event) h = h
  Step-IsTimely {s} (elapse time) h = IsTimely-later s.place s.last_update s.calls h (omega arith)
  Step-IsTimely (change world) h = h
  Step-IsTimely close h = h

  -- Whatever the environment does, the updates that the worker makes come in rounds of one of
  -- Kubernetes and then one of the gateway, and a round starts a second or more after the end of the
  -- one before; between the two updates of a round there is one call more.
  pub Reachable-IsTimely : {s : Worker World Event} → Reachable w s → IsTimelyWorker s
  Reachable-IsTimely (start work now world) = (no_round, omega arith)
  Reachable-IsTimely (next r step) = Step-IsTimely step (Reachable-IsTimely r)
