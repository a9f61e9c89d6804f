-- ===== src/Scheduler/Choice.antt =====
-- What `Select` promises of the candidate it chooses.
use mathlib.Core.List.{Mem, Perm, Mem-prop, mem-cons_self, not-mem-nil}
use mathlib.Core.List.Perm
use mathlib.Core.Bool.{Bool-set}
use native.Mathlib.Bridge.{le_prop}
use token_flux.Base.{
  ℕ, ℤ, pos, ◌≤ℤ◌, ◌+ℤ◌, int64, leb_ℤ, pos_part, ◌≡◌, refl, Bool, true, false, some, List, [], ◌∷◌,
  All, keep, ◌⊎◌, Bool-cases, inl, inr, if◌then◌else◌,
}
use token_flux.Candidate.{ChannelCandidate}
use token_flux.Scheduler.{
  is_healthy, usable, group_sorted, last_group, weighted_random_select, select_group, select,
  pick_from, last_of, total_weight, weight_of,
}
use token_flux.Scheduler.Grouping.{
  IsSorted, IsHighest, last_group-IsHighest, last_group_sorted-All, IsConsList,
  last_group_sorted-IsCons,
}
use token_flux.Scheduler.Members.{
  All-members, All-pair, All-first, All-second, usable-cases, keep-All, All-keep, keep-none,
  perm-All, own_members,
}

-- What `sort.Slice` by priority returns: the same candidates, in order of priority. Go's documentation
-- leaves open how equal priorities are ordered.
abbrev pub SortsByPriority : (List ChannelCandidate → List ChannelCandidate) → Type 0
SortsByPriority sort = (cs : List ChannelCandidate) → Perm (sort cs) cs × IsSorted (sort cs)

if-All :
    (P : ChannelCandidate → Type 0) (b : Bool) (c d : ChannelCandidate)
    → P c
    → P d
    → P (if b then c else d)
if-All P true c d h k = h
if-All P false c d h k = k

pick_from-All :
    (P : ChannelCandidate → Type 0) (cum : ℤ) (r : ℕ) (last : ChannelCandidate)
    (cs : List ChannelCandidate)
    → P last
    → All P cs
    → P (pick_from cum r last cs)
unfolding pick_from
pick_from-All P cum r last [] hl h = hl
pick_from-All P cum r last (c ∷ cs) hl h =
    if-All P _ c _ h.0 (pick_from-All P (int64 (cum +ℤ pos (weight_of c))) r last cs hl h.1)

last_of-All :
    (P : ChannelCandidate → Type 0) (c : ChannelCandidate) (cs : List ChannelCandidate)
    → P c
    → All P cs
    → P (last_of c cs)
unfolding last_of
last_of-All P c [] h k = h
last_of-All P c (d ∷ ds) h k = last_of-All P d ds k.0 k.1

-- A group that is not empty yields one of its members.
group_choice :
    (P : ChannelCandidate → Type 0) (rand : ℕ → ℕ) (g : List ChannelCandidate)
    → IsConsList g
    → All P g
    → (x : ChannelCandidate) × (select_group rand g ≡ some x) × P x
unfolding select_group weighted_random_select
group_choice P rand [] n h = absurd n
group_choice P rand (c ∷ []) n h = (c, refl, h.0)
group_choice P rand (c ∷ d ∷ ds) n h =
    elim (Bool-cases (leb_ℤ (total_weight (pos 0) (c ∷ d ∷ ds)) (pos 0))) [
      | inl e ↦ (c, rw e refl, h.0)
      | inr e ↦ (
        pick_from (pos 0) (rand (pos_part (total_weight (pos 0) (c ∷ d ∷ ds)))) (last_of c (d ∷ ds))
            (c ∷ d ∷ ds),
        rw e refl,
        pick_from-All P (pos 0) _ (last_of c (d ∷ ds)) (c ∷ d ∷ ds)
            (last_of-All P c (d ∷ ds) h.0 h.1) h,
      )
    ]

-- A member of a list whose members have no higher priority.
abbrev IsBestOf : List ChannelCandidate → ChannelCandidate → Type 0
IsBestOf cs x = Mem x cs × IsHighest cs x

IsHighest-All :
    (xs ys g : List ChannelCandidate) → Perm xs ys → All (IsHighest xs) g → All (IsHighest ys) g
IsHighest-All xs ys [] perm h = tt
IsHighest-All xs ys (x ∷ g) perm h = (
  perm-All (λ d. d.priority ≤ℤ x.priority) xs ys (λ d. le_prop) perm h.0,
  IsHighest-All xs ys g perm h.1,
)

IsCons-Perm : (xs ys : List ChannelCandidate) → Perm xs ys → IsConsList ys → IsConsList xs
IsCons-Perm [] [] p h = h
IsCons-Perm [] (y ∷ ys) p h = absurd (not-mem-nil ((Perm.mem_iff p).1 mem-cons_self))
IsCons-Perm (x ∷ xs) ys p h = tt

module _ (sort : List ChannelCandidate → List ChannelCandidate) (rand : ℕ → ℕ)
    (sorts : SortsByPriority sort) where
  best_of :
      (us : List ChannelCandidate)
      → IsConsList us
      → (x : ChannelCandidate) × (select_group rand (last_group (group_sorted (sort us))) ≡ some x)
        × IsBestOf us x
  best_of us n =
      let sorted = sort us in
      let perm = (sorts us).0 in
      let back : Perm us sorted = Perm.symm perm in
      group_choice (IsBestOf us) rand (last_group (group_sorted sorted))
        (last_group_sorted-IsCons sorted (IsCons-Perm sorted us perm n))
        (All-pair (λ x. Mem x us) (IsHighest us) (last_group (group_sorted sorted))
          (last_group_sorted-All (λ x. Mem x us) sorted
            (perm-All (λ x. Mem x us) us sorted (λ x. Mem-prop) back (own_members us)))
          (IsHighest-All sorted us (last_group (group_sorted sorted)) perm
            (last_group-IsHighest sorted (sorts us).1)))

  chosen_from :
      (c : ChannelCandidate) (cs us : List ChannelCandidate)
      → usable (c ∷ cs) ≡ us
      → IsConsList us
      → (x : ChannelCandidate) × (select sort rand (c ∷ cs) ≡ some x) × IsBestOf us x
  unfolding select
  chosen_from c cs us e n = let b = best_of us n in (b.0, rw e b.1, b.2)

  -- Among candidates there is always a choice, and it is one of them. Either no candidate is healthy,
  -- and none has a higher priority than the chosen one, or the chosen one is healthy and no healthy one
  -- has a higher priority. The only condition is that the sort sorts.
  pub select-best :
      (c : ChannelCandidate) (cs : List ChannelCandidate)
      → (x : ChannelCandidate) × (select sort rand (c ∷ cs) ≡ some x)
        × Mem x (c ∷ cs)
        × (All (λ d. (is_healthy d ≡ false) × (d.priority ≤ℤ x.priority)) (c ∷ cs)
            ⊎ ((is_healthy x ≡ true)
                × All (λ d. is_healthy d ≡ true → d.priority ≤ℤ x.priority) (c ∷ cs)))
  select-best c cs = elim (usable-cases (c ∷ cs)) [
    | inl (none_healthy, e) ↦
        let (x, s, (m, h)) = chosen_from c cs (c ∷ cs) e tt in
        (
          x,
          s,
          m,
          inl (keep-none (λ d. d.priority ≤ℤ x.priority) is_healthy (c ∷ cs) none_healthy h),
        )
    | inr (e, n) ↦
        let (x, s, (m, h)) = chosen_from c cs (keep is_healthy (c ∷ cs)) e n in
        let kept = keep-All (λ y. Mem y (c ∷ cs)) is_healthy (c ∷ cs) (own_members (c ∷ cs)) in
        (
          x,
          s,
          All-members (λ y. Mem y (c ∷ cs)) (keep is_healthy (c ∷ cs)) (λ y. Mem-prop)
              (All-first (λ y. Mem y (c ∷ cs)) (λ y. is_healthy y ≡ true) (keep is_healthy (c ∷ cs))
                kept)
              x m,
          inr (
            All-members (λ y. is_healthy y ≡ true) (keep is_healthy (c ∷ cs))
                (λ y. Bool-set (is_healthy y) true)
                (All-second (λ y. Mem y (c ∷ cs)) (λ y. is_healthy y ≡ true)
                  (keep is_healthy (c ∷ cs)) kept)
                x m,
            All-keep (λ d. d.priority ≤ℤ x.priority) is_healthy (c ∷ cs) h,
          ),
        )
  ]
