-- ===== src/Tests/Runs.antt =====
-- Whole runs: a worker on a queue, and the calls on the affinity store.
use token_flux.Base.{true, none, some, List, [], ◌∷◌, ◌≡◌, arith}
use token_flux.Store.{State}
use token_flux.Queue.{SettlementTask}
use token_flux.Queue.Drain.{settlement_worker, settlement_worker-drains}
use token_flux.Affinity.{get}
use token_flux.Affinity.Refines.{
  Call, set_at, delete_channel, run_calls, spec_calls, nothing, Agrees, answer, run_calls-refines,
}
use token_flux.Samples.{dead_world, start, sample_task, some_key, other_key}

abbrev two_tasks : List SettlementTask
two_tasks = sample_task ∷ record sample_task { retry_count = 2 } ∷ []

-- Every statement fails, and every push goes through.
settlement_worker-drains_example :
    (s' : State) × (settlement_worker dead_world none (λ t. true) 6 two_tasks start ≡ some s')
unfolding token_flux.Queue.Drain.tries
settlement_worker-drains_example =
    settlement_worker-drains dead_world none (λ t. true) 6 two_tasks start (omega arith)

abbrev calls : List Call
calls = set_at 0 some_key 7 ∷ set_at 5 other_key 8 ∷ set_at 6 some_key 8 ∷ delete_channel 8 ∷ []

run_calls-refines_example :
    Agrees (run_calls calls []) (spec_calls calls nothing) some_key
    × (get 9 some_key (run_calls calls [])
        ≡ answer 9
            ((spec_calls calls nothing).expiry_of some_key)
            ((spec_calls calls nothing).channel_of some_key))
run_calls-refines_example = run_calls-refines calls 9 some_key
