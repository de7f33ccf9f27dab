-- ===== src/Worker/Progress.antt =====
-- pkg/worker/worker.go: what the loop gets done when the environment rests.
use application_gateway_kube.Common.{
  Bool, ◌&&◌, ℕ, zero, suc, ◌+◌, ◌*◌, ◌≤◌, List, [], ◌∷◌, ◌≡◌, arith, refl, length, true, false,
  Bool-cases, inl, inr, Option, none, some, All, ◌++◌, ◌∙◌,
}
use application_gateway_kube.Worker.{
  aks, app_gateway, Worker, Place, selecting, broken, received, accepted, rested, drained,
  aks_mutated, gateway_failed, updated, EventProcessor, advance, advance_at, run_for, select_branch,
  take_event, after_gateway, drain_chan,
}

pub drain_chan_empty {ℓ} : {A : Type ℓ} (work : List A) (event : A) → (drain_chan work event).1 ≡ []
unfolding drain_chan
drain_chan_empty [] event = refl
drain_chan_empty (x ∷ work) event = drain_chan_empty work x

module _ {Event : Type 0} where
  -- The most statements that are left until the loop waits at an empty channel.
  abbrev pub remaining : Place Event → List Event → ℕ
  remaining selecting [] = 0
  remaining selecting (event ∷ work) = 8 + 2 * length work
  remaining broken work = 9 + 2 * length work
  remaining (received event) work = 7 + 2 * length work
  remaining (accepted event) work = 6
  remaining (rested event) work = 5
  remaining drained work = 4 + 8 * length work
  remaining aks_mutated work = 3 + 8 * length work
  remaining gateway_failed work = 2 + 8 * length work
  remaining updated work = 1 + 8 * length work

  remaining-selecting :
      (work : List Event)
      → (remaining selecting work ≤ 8 * length work)
        × (remaining selecting work ≤ 6 + 2 * length work)
  remaining-selecting [] = (omega arith, omega arith)
  remaining-selecting (event ∷ work) = (omega arith, omega arith)

  abbrev pub IsIdle : Place Event → List Event → Type 0
  IsIdle place work = (place ≡ selecting) × (work ≡ [])

  remaining_zero : (p : Place Event) (work : List Event) → remaining p work ≡ 0 → IsIdle p work
  remaining_zero selecting [] h = (refl, refl)
  remaining_zero selecting (event ∷ work) h = absurd (omega arith)
  remaining_zero broken work h = absurd (omega arith)
  remaining_zero (received event) work h = absurd (omega arith)
  remaining_zero (accepted event) work h = absurd (omega arith)
  remaining_zero (rested event) work h = absurd (omega arith)
  remaining_zero drained work h = absurd (omega arith)
  remaining_zero aks_mutated work h = absurd (omega arith)
  remaining_zero gateway_failed work h = absurd (omega arith)
  remaining_zero updated work h = absurd (omega arith)

module _ {World Event Error : Type 0} (w : EventProcessor World Event Error) where
  select_branch-remaining :
      (work : List Event) (stopped stop_first : Bool) (s : Worker World Event) (n : ℕ)
      → stopped ≡ false
      → s.work ≡ work
      → remaining selecting work ≤ suc n
      → remaining
          (select_branch w work stopped stop_first s).place
          (select_branch w work stopped stop_first s).work
        ≤ n
  select_branch-remaining work true stop_first s n unstopped e h = absurd (cc)
  select_branch-remaining [] false stop_first s n unstopped e h = rw e (omega arith)
  select_branch-remaining (event ∷ work) false stop_first s n unstopped e h = omega arith

  after_gateway-remaining :
      (err : Option Error) (work : List Event) (n : ℕ)
      → remaining {Event = Event} aks_mutated work ≤ suc n
      → remaining (after_gateway w err) work ≤ n
  after_gateway-remaining none work n h = omega arith
  after_gateway-remaining (some err) work n h = omega arith

  advance_at-remaining :
      (stop_first : Bool) (p : Place Event) (s : Worker World Event) (n : ℕ)
      → s.stopped ≡ false
      → remaining p s.work ≤ suc n
      → remaining (advance_at w stop_first p s).place (advance_at w stop_first p s).work ≤ n
  unfolding advance_at
  advance_at-remaining stop_first selecting s n unstopped h =
      select_branch-remaining s.work s.stopped stop_first s n unstopped refl h
  advance_at-remaining stop_first broken s n unstopped h =
      omega (arith, (remaining-selecting s.work).1)
  advance_at-remaining stop_first (received event) s n unstopped h =
      elim (Bool-cases (w.should_process event s.world).0) [
        | inl wanted ↦ rw wanted (omega arith)
        | inr unwanted ↦ rw unwanted (omega (arith, (remaining-selecting s.work).1))
      ]
  advance_at-remaining stop_first (accepted event) s n unstopped h = omega arith
  advance_at-remaining stop_first (rested event) s n unstopped h =
      rw (drain_chan_empty s.work event) (omega arith)
  advance_at-remaining stop_first drained s n unstopped h = omega arith
  advance_at-remaining stop_first aks_mutated s n unstopped h =
      after_gateway-remaining (w.mutate_app_gateway s.world).0 s.work n h
  advance_at-remaining stop_first gateway_failed s n unstopped h = omega arith
  advance_at-remaining stop_first updated s n unstopped h =
      omega (arith, (remaining-selecting s.work).0)

  select_branch-stopped :
      (work : List Event) (stopped stop_first : Bool) (s : Worker World Event)
      → (select_branch w work stopped stop_first s).stopped ≡ s.stopped
  select_branch-stopped [] false stop_first s = refl
  select_branch-stopped [] true stop_first s = refl
  select_branch-stopped (event ∷ work) false stop_first s = refl
  select_branch-stopped (event ∷ work) true false s = refl
  select_branch-stopped (event ∷ work) true true s = refl

  advance_at-stopped :
      (stop_first : Bool) (p : Place Event) (s : Worker World Event)
      → (advance_at w stop_first p s).stopped ≡ s.stopped
  unfolding advance_at
  advance_at-stopped stop_first selecting s = select_branch-stopped s.work s.stopped stop_first s
  advance_at-stopped stop_first broken s = refl
  advance_at-stopped stop_first (received event) s =
      elim (Bool-cases (w.should_process event s.world).0) [
        | inl wanted ↦ rw wanted refl
        | inr unwanted ↦ rw unwanted refl
      ]
  advance_at-stopped stop_first (accepted event) s = refl
  advance_at-stopped stop_first (rested event) s = refl
  advance_at-stopped stop_first drained s = refl
  advance_at-stopped stop_first aks_mutated s = refl
  advance_at-stopped stop_first gateway_failed s = refl
  advance_at-stopped stop_first updated s = refl

  -- As long as the stop channel is not closed, the loop, left to itself, waits at an empty channel
  -- after at most as many statements as the measure says, and stays there.
  pub run_for-IsIdle :
      (stop_first : ℕ → Bool) (n : ℕ) (s : Worker World Event)
      → s.stopped ≡ false
      → remaining s.place s.work ≤ n
      → IsIdle (run_for w stop_first n s).place (run_for w stop_first n s).work
  unfolding run_for advance
  run_for-IsIdle stop_first zero s unstopped h = remaining_zero s.place s.work (omega arith)
  run_for-IsIdle stop_first (suc n) s unstopped h =
      run_for-IsIdle (λ i. stop_first (suc i)) n (advance w (stop_first 0) s)
        (advance_at-stopped (stop_first 0) s.place s ∙ unstopped)
        (advance_at-remaining (stop_first 0) s.place s n unstopped h)

  -- The state after a round of updates that drained the channel.
  pub record IsServed (s t : Worker World Event) : Type 0 where
    pub drained_work : t.work ≡ []
    pub acted : t.world ≡ (w.mutate_app_gateway (w.mutate_aks s.world).1).1
    pub called : (a b : ℕ) × (t.calls ≡ app_gateway b ∷ aks a ∷ s.calls)

  -- The stop branch is not ready, or Go does not take it while there is an event.
  abbrev pub TakesWork : Bool → (ℕ → Bool) → Type 0
  TakesWork stopped stop_first = (i : ℕ) → (stopped && stop_first i) ≡ false

  select_event :
      (event : Event) (work : List Event) (stopped stop_first : Bool) (s : Worker World Event)
      → (stopped && stop_first) ≡ false
      → select_branch w (event ∷ work) stopped stop_first s ≡ take_event w event work s
  select_event event work false stop_first s h = refl
  select_event event work true false s h = refl
  select_event event work true true s h = absurd (cc)

  served :
      (stop_first : ℕ → Bool) (event : Event) (rest : List Event) (s : Worker World Event)
      → TakesWork s.stopped stop_first
      → (w.should_process event s.world).0 ≡ true
      → IsServed s (run_for w stop_first 6 (record s { place = selecting; work = event ∷ rest }))
  unfolding run_for advance advance_at
  served stop_first event rest s takes wanted =
      rw
        (
          select_event event rest s.stopped (stop_first 0)
              (record s { place = selecting; work = event ∷ rest }) (takes 0),
          wanted,
          drain_chan_empty rest event,
        )
        (record { drained_work = refl; acted = refl; called = (_, _, refl) })

  skipped :
      (stop_first : ℕ → Bool) (e : Event) (work : List Event) (n : ℕ) (s : Worker World Event)
      → TakesWork s.stopped stop_first
      → (w.should_process e s.world).0 ≡ false
      → run_for w stop_first (suc (suc n)) (record s { place = selecting; work = e ∷ work })
        ≡ run_for w (λ i. stop_first (suc (suc i))) n (record s { place = selecting; work = work })
  unfolding run_for advance advance_at
  skipped stop_first e work n s takes unwanted =
      rw
        (
          select_event e work s.stopped (stop_first 0)
              (record s { place = selecting; work = e ∷ work }) (takes 0),
          unwanted,
        )
        refl

  -- From the select, whatever else is in the channel, unless the stop channel is closed and Go takes
  -- its branch while there is an event: the events that are not to be processed are dropped, and the
  -- first that is leads, within six statements, to one update of Kubernetes and then one of the
  -- gateway, with the channel empty.
  pub run_for-IsServed :
      (stop_first : ℕ → Bool) (refused : List Event) (event : Event) (rest : List Event)
      (s : Worker World Event)
      → TakesWork s.stopped stop_first
      → All (λ e. (w.should_process e s.world).0 ≡ false) refused
      → (w.should_process event s.world).0 ≡ true
      → IsServed s (
          run_for w stop_first
            (2 * length refused + 6)
            (record s { place = selecting; work = refused ++ (event ∷ rest) }))
  unfolding run_for advance advance_at
  run_for-IsServed stop_first [] event rest s takes h wanted =
      served stop_first event rest s takes wanted
  run_for-IsServed stop_first (e ∷ refused) event rest s takes h wanted =
      let more : 2 * length (e ∷ refused) + 6 ≡ suc (suc (2 * length refused + 6)) = omega arith in
      rw
        (
          more,
          skipped stop_first e (refused ++ (event ∷ rest)) (2 * length refused + 6) s takes h.0,
        )
        (run_for-IsServed (λ i. stop_first (suc (suc i))) refused event rest s
          (λ i. takes (suc (suc i))) h.1 wanted)
