-- ===== src/Queue/Drain.antt =====
-- A worker of server/internal/relay/handler/queue.go on a queue that nobody else uses (`settlementWorker`): the
-- Redis list of queue_redis.go is first in, first out, and hands back the task that was pushed. A task
-- that a step sends again is pushed, unless the push fails, which loses it.
use token_flux.Base.{
  ℕ, zero, suc, ◌+◌, ◌-◌, ◌<◌, ◌≤◌, Bool, Option, none, some, List, [], ◌∷◌, ◌++◌, ◌≡◌, refl, arith,
  inl, inr, if◌then◌else◌, Bool-cases,
}
use token_flux.Store.{World, State, Result, ok, err}
use token_flux.Queue.{SettlementTask, Tokenizer, max_settlement_retries}
use token_flux.Queue.Worker.{process_settlement}
use token_flux.Queue.Retry.{Outcome, process_settlement-Outcome}

-- `EnqueueSettlement` on what a step asks for; `pushes` says which pushes succeed.
unfoldable pub enqueued :
    (SettlementTask → Bool)
    → Result (Option SettlementTask)
    → List SettlementTask
    → List SettlementTask
enqueued pushes (ok (some t)) queue = if pushes t then queue ++ t ∷ [] else queue
enqueued pushes (ok none) queue = queue
enqueued pushes (err e) queue = queue

-- `settlementWorker` until the queue is empty, none when the rounds are used up before.
unfoldable pub settlement_worker :
    World → Tokenizer → (SettlementTask → Bool) → ℕ → List SettlementTask → State → Option State
unfolding enqueued
settlement_worker w tokenizer pushes n [] s = some s
settlement_worker w tokenizer pushes zero (t ∷ queue) s = none
settlement_worker w tokenizer pushes (suc n) (t ∷ queue) s =
    let (r, s') = process_settlement w tokenizer t s in
    settlement_worker w tokenizer pushes n (enqueued pushes r queue) s'

-- How often the tasks of a queue can be tried.
unfoldable pub tries : List SettlementTask → ℕ
tries [] = 0
tries (t ∷ queue) = suc (max_settlement_retries - t.retry_count) + tries queue

tries-append : (queue rest : List SettlementTask) → tries (queue ++ rest) ≡ tries queue + tries rest
unfolding tries
tries-append [] rest = omega arith
tries-append (t ∷ queue) rest = omega (arith, tries-append queue rest)

-- A step uses up a try.
enqueued-tries :
    (w : World) (pushes : SettlementTask → Bool) (t : SettlementTask) (queue : List SettlementTask)
    (s s' : State) (o : Option SettlementTask)
    → Outcome w t s o s'
    → tries (enqueued pushes (ok o) queue) < tries (t ∷ queue)
unfolding enqueued tries
enqueued-tries w pushes t queue s s' o (inl e) = rw e (omega arith)
enqueued-tries w pushes t queue s s' o (inr (u, e, n, b, k)) = rw e (elim (Bool-cases (pushes u)) [
  | inl p ↦ rw p (omega (arith, n, b, tries-append queue (u ∷ [])))
  | inr p ↦ rw p (omega arith)
])

-- Whatever fails for one task or another, a worker comes to the end of its queue: four rounds for
-- a task that is new, and one less for each retry that it has behind it, are enough.
pub settlement_worker-drains :
    (w : World) (tokenizer : Tokenizer) (pushes : SettlementTask → Bool) (n : ℕ)
    (queue : List SettlementTask) (s : State)
    → tries queue ≤ n
    → (s' : State) × (settlement_worker w tokenizer pushes n queue s ≡ some s')
unfolding settlement_worker tries enqueued
settlement_worker-drains w tokenizer pushes n [] s h = (s, refl)
settlement_worker-drains w tokenizer pushes zero (t ∷ queue) s h = absurd (omega (arith, h))
settlement_worker-drains w tokenizer pushes (suc n) (t ∷ queue) s h =
    let (o, s', run, out) = process_settlement-Outcome w tokenizer t s in
    rw (run, settlement_worker)
      (settlement_worker-drains w tokenizer pushes n (enqueued pushes (ok o) queue) s'
        (omega (arith, h, enqueued-tries w pushes t queue s s' o out)))
