-- ===== src/Tests/Sorting.antt =====
-- A sort that meets what the choice of a channel asks of one: insertion by priority.
use mathlib.Core.List.{Perm}
use mathlib.Core.List.Perm
use token_flux.Base.{◌≤ℤ◌, leb_ℤ, List, [], ◌∷◌, All, arith, Bool-cases, inl, inr, if◌then◌else◌}
use token_flux.Candidate.{ChannelCandidate}
use token_flux.Scheduler.Grouping.{IsSorted}
use token_flux.Scheduler.Choice.{SortsByPriority}

abbrev insert : ChannelCandidate → List ChannelCandidate → List ChannelCandidate
insert c [] = c ∷ []
insert c (d ∷ ds) =
    let rest = insert c ds in if leb_ℤ c.priority d.priority then c ∷ d ∷ ds else d ∷ rest

abbrev pub sort_by_priority : List ChannelCandidate → List ChannelCandidate
sort_by_priority [] = []
sort_by_priority (c ∷ cs) = insert c (sort_by_priority cs)

insert-Perm : (c : ChannelCandidate) (cs : List ChannelCandidate) → Perm (insert c cs) (c ∷ cs)
insert-Perm c [] = Perm.refl (c ∷ [])
insert-Perm c (d ∷ ds) = elim (Bool-cases (leb_ℤ c.priority d.priority)) [
  | inl e ↦ rw e (Perm.refl (c ∷ d ∷ ds))
  | inr e ↦ rw e (Perm.trans (Perm.cons d (insert-Perm c ds)) (Perm.swap c d ds))
]

insert-All :
    (P : ChannelCandidate → Type 0) (c : ChannelCandidate) (ds : List ChannelCandidate)
    → P c
    → All P ds
    → All P (insert c ds)
insert-All P c [] h k = (h, tt)
insert-All P c (d ∷ ds) h k = elim (Bool-cases (leb_ℤ c.priority d.priority)) [
  | inl e ↦ rw e (h, k)
  | inr e ↦ rw e (k.0, insert-All P c ds h k.1)
]

above :
    (c d : ChannelCandidate) (ds : List ChannelCandidate)
    → c.priority ≤ℤ d.priority
    → All (λ x. d.priority ≤ℤ x.priority) ds
    → All (λ x. c.priority ≤ℤ x.priority) ds
above c d [] h k = tt
above c d (x ∷ ds) h k = (omega (arith, h, k.0), above c d ds h k.1)

insert-IsSorted :
    (c : ChannelCandidate) (ds : List ChannelCandidate) → IsSorted ds → IsSorted (insert c ds)
insert-IsSorted c [] h = (tt, tt)
insert-IsSorted c (d ∷ ds) h = elim (Bool-cases (leb_ℤ c.priority d.priority)) [
  | inl e ↦ let le : c.priority ≤ℤ d.priority = ground arith in rw e ((le, above c d ds le h.0), h)
  | inr e ↦
      let le : d.priority ≤ℤ c.priority = ground arith in
      rw e (insert-All (λ x. d.priority ≤ℤ x.priority) c ds le h.0, insert-IsSorted c ds h.1)
]

pub sort_by_priority-sorts : SortsByPriority sort_by_priority
sort_by_priority-sorts [] = (Perm.refl [], tt)
sort_by_priority-sorts (c ∷ cs) =
    let (p, s) = sort_by_priority-sorts cs in
    (
      Perm.trans (insert-Perm c (sort_by_priority cs)) (Perm.cons c p),
      insert-IsSorted c (sort_by_priority cs) s,
    )
