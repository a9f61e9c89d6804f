-- ===== src/Scheduler.antt =====
-- server/internal/relay/scheduler/scheduler.go: the choice of a channel by health, priority and
-- weight. `sort.Slice` and `rand.IntN` are Go's library: they are arguments, `sort` and `rand`.

pub mod Weights
pub mod Grouping
pub mod Members
pub mod Choice
use token_flux.Base.{
  ℕ, ◌+◌, ◌/◌, ℤ, pos, pos_part, ◌+ℤ◌, int64, leb_ℤ, ltb_ℤ, eq_ℤ, ltb, leb, Bool, true, false,
  Option, none, some, List, [], ◌∷◌, ◌++◌, if◌then◌else◌, keep,
}
use token_flux.Candidate.{ChannelCandidate}

abbrev pub is_healthy : ChannelCandidate → Bool
is_healthy c = leb 20 c.health_score

-- The candidates that the choice is made from: all of them, if none is healthy.
unfoldable pub usable : List ChannelCandidate → List ChannelCandidate
usable cs = elim (keep is_healthy cs) [ [] ↦ cs | h ∷ hs ↦ h ∷ hs ]

-- The loop of `groupByPriority` over the sorted candidates, from its second element on.
unfoldable pub group_from :
    ℤ → List ChannelCandidate → List ChannelCandidate → List (List ChannelCandidate)
group_from prio group [] = group ∷ []
group_from prio group (c ∷ cs) = elim (eq_ℤ c.priority prio) [
  | true ↦ group_from prio (group ++ c ∷ []) cs
  | false ↦ group ∷ group_from c.priority (c ∷ []) cs
]

unfoldable pub group_sorted : List ChannelCandidate → List (List ChannelCandidate)
group_sorted [] = []
group_sorted (c ∷ cs) = group_from c.priority (c ∷ []) cs

-- `groups[len(groups)-1]`
unfoldable pub last_group : List (List ChannelCandidate) → List ChannelCandidate
last_group [] = []
last_group (g ∷ []) = g
last_group (g ∷ h ∷ gs) = last_group (h ∷ gs)

-- The weight of a candidate, degraded by its health.
unfoldable pub weight_of : ChannelCandidate → ℕ
weight_of c =
    let w = if leb_ℤ c.weight (pos 0) then 1 else pos_part c.weight in
    if ltb c.health_score 80 then (if leb 50 c.health_score then w / 2 else w / 4) else w

-- The sum of the weights, in int64.
unfoldable pub total_weight : ℤ → List ChannelCandidate → ℤ
total_weight acc [] = acc
total_weight acc (c ∷ cs) = total_weight (int64 (acc +ℤ pos (weight_of c))) cs

-- The loop that looks for the first cumulated weight above `r`; `last` is the fallback after it.
unfoldable pub pick_from : ℤ → ℕ → ChannelCandidate → List ChannelCandidate → ChannelCandidate
pick_from cum r last [] = last
pick_from cum r last (c ∷ cs) =
    let cum' = int64 (cum +ℤ pos (weight_of c)) in
    let rest = pick_from cum' r last cs in if ltb_ℤ (pos r) cum' then c else rest

unfoldable pub last_of : ChannelCandidate → List ChannelCandidate → ChannelCandidate
last_of c [] = c
last_of c (d ∷ ds) = last_of d ds

unfoldable pub weighted_random_select : (ℕ → ℕ) → List ChannelCandidate → Option ChannelCandidate
weighted_random_select rand [] = none
weighted_random_select rand (c ∷ cs) =
    let total = total_weight (pos 0) (c ∷ cs) in
    if leb_ℤ total (pos 0)
    then some c
    else some (pick_from (pos 0) (rand (pos_part total)) (last_of c cs) (c ∷ cs))

-- A group of one is taken without drawing.
unfoldable pub select_group : (ℕ → ℕ) → List ChannelCandidate → Option ChannelCandidate
select_group rand [] = none
select_group rand (c ∷ []) = some c
select_group rand (c ∷ d ∷ ds) = weighted_random_select rand (c ∷ d ∷ ds)

-- `Select`
unfoldable pub select :
    (List ChannelCandidate → List ChannelCandidate)
    → (ℕ → ℕ)
    → List ChannelCandidate
    → Option ChannelCandidate
select sort rand [] = none
select sort rand (c ∷ cs) = select_group rand (last_group (group_sorted (sort (usable (c ∷ cs)))))
