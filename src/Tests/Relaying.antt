-- ===== src/Tests/Relaying.antt =====
-- The theorems on choosing, pricing and metering at concrete inputs.
use mathlib.Core.List.{Mem}
use token_flux.Base.{
  ℕ, ◌+◌, pos, ◌-ℤ◌, ◌≤ℤ◌, int64, ◌≡◌, ◌⊎◌, refl, true, false, some, All, inr, arith, List, [], ◌∷◌,
}
use token_flux.Store.{ok}
use token_flux.Candidate.{ChannelCandidate}
use token_flux.Scheduler.{is_healthy, weighted_random_select, select, weight_of}
use token_flux.Scheduler.Weights.{weighted_random_select-interval, weighted_random_select-positive}
use token_flux.Scheduler.Choice.{select-best}
use token_flux.Cost.{compute_cost, calc_revenue}
use token_flux.Cost.Bounds.{compute_cost-parts, hits_of, misses_of}
use token_flux.Cost.Share.{calc_revenue-share}
use token_flux.Quota.{update_quota_sync}
use token_flux.Quota.Limits.{AreWithin, update_quota_sync-AreWithin}
use token_flux.Tests.Sorting.{sort_by_priority, sort_by_priority-sorts}
use token_flux.Samples.{calm_world, start, first_channel, second_channel, sample_usage}

abbrev two_channels : List ChannelCandidate
two_channels = first_channel ∷ second_channel ∷ []

weighted_random_select-interval_example :
    weighted_random_select (λ n. 4) two_channels ≡ some second_channel
unfolding token_flux.Scheduler.Weights.weight_sum weight_of
weighted_random_select-interval_example =
    weighted_random_select-interval (λ n. 4) (first_channel ∷ []) [] second_channel (omega arith)
      (omega arith) (omega arith)

compute_cost-parts_example :
    (compute_cost (some sample_usage) (some first_channel) ≡ pos 1450)
    × (hits_of 1500 500 + misses_of 1500 500 ≡ 1500)
unfolding token_flux.Cost.reported_hits
compute_cost-parts_example =
    compute_cost-parts sample_usage first_channel 1500 500 200 100 1000 2000 refl refl refl refl
      refl refl (omega arith) (omega arith) (omega arith)

calc_revenue-share_example :
    (calc_revenue (pos 1450) (pos 7000) ≡ pos 1015)
    × ((c : ℕ) × (int64 (pos 1450 -ℤ calc_revenue (pos 1450) (pos 7000)) ≡ pos c)
        × (1015 + c ≡ 1450))
calc_revenue-share_example = calc_revenue-share 1450 7000 (omega arith) (omega arith)

update_quota_sync-AreWithin_example :
    ((update_quota_sync calm_world 3 3 (pos 45) start).0 ≡ ok tt)
    × AreWithin (update_quota_sync calm_world 3 3 (pos 45) start).1.tables
update_quota_sync-AreWithin_example =
    update_quota_sync-AreWithin calm_world 3 3 (pos 45) start
      ((inr (omega arith), tt), (inr (omega arith), tt))

select-best_example :
    (x : ChannelCandidate) × (select sort_by_priority (λ n. 0) two_channels ≡ some x)
    × Mem x two_channels
    × (All (λ d. (is_healthy d ≡ false) × (d.priority ≤ℤ x.priority)) two_channels
        ⊎ ((is_healthy x ≡ true)
            × All (λ d. is_healthy d ≡ true → d.priority ≤ℤ x.priority) two_channels))
select-best_example =
    select-best sort_by_priority (λ n. 0) sort_by_priority-sorts first_channel (second_channel ∷ [])
