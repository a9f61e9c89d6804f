-- ===== src/Scheduler/Grouping.antt =====
-- The last group of `groupByPriority` is the candidates of the highest priority.
use token_flux.Base.{
  ℤ, ◌≤ℤ◌, eq_ℤ, ◌≡◌, refl, ap, ◌∙◌, true, false, List, [], ◌∷◌, ◌++◌, arith, All, inl, inr,
  Bool-cases, sym, subst, eq_of_parts,
}
use token_flux.Candidate.{ChannelCandidate}
use token_flux.Scheduler.{group_from, group_sorted, last_group}

-- Priorities do not fall along the list.
abbrev pub IsSorted : List ChannelCandidate → Type 0
IsSorted [] = Unit {0}
IsSorted (c ∷ cs) = All (λ d. c.priority ≤ℤ d.priority) cs × IsSorted cs

-- No candidate of a list has a higher priority.
abbrev pub IsHighest : List ChannelCandidate → ChannelCandidate → Type 0
IsHighest cs x = All (λ d. d.priority ≤ℤ x.priority) cs

abbrev IsConsGroup : List (List ChannelCandidate) → Type 0
IsConsGroup [] = ⊥
IsConsGroup (g ∷ gs) = Unit {0}

All-map :
    {P Q : ChannelCandidate → Type 0} (cs : List ChannelCandidate)
    → ((c : ChannelCandidate) → P c → Q c)
    → All P cs
    → All Q cs
All-map [] f h = tt
All-map (c ∷ cs) f h = (f c h.0, All-map cs f h.1)

pub All-append :
    (P : ChannelCandidate → Type 0) (xs ys : List ChannelCandidate)
    → All P xs
    → All P ys
    → All P (xs ++ ys)
All-append P [] ys h k = k
All-append P (x ∷ xs) ys h k = (h.0, All-append P xs ys h.1 k)

group_from-IsCons :
    (prio : ℤ) (group cs : List ChannelCandidate) → IsConsGroup (group_from prio group cs)
unfolding group_from
group_from-IsCons prio group [] = tt
group_from-IsCons prio group (c ∷ cs) =
    elim (eq_ℤ c.priority prio)
      as (λ b. IsConsGroup (elim b [
        | true ↦ group_from prio (group ++ c ∷ []) cs
        | false ↦ group ∷ group_from c.priority (c ∷ []) cs
      ])) [ true ↦ group_from-IsCons prio (group ++ c ∷ []) cs | false ↦ tt ]

last_group-cons :
    (g : List ChannelCandidate) (gs : List (List ChannelCandidate))
    → IsConsGroup gs
    → last_group (g ∷ gs) ≡ last_group gs
unfolding last_group
last_group-cons g [] h = absurd h
last_group-cons g (x ∷ gs) h = refl

-- The two ways the loop goes on.
group_from-same :
    (prio : ℤ) (group cs : List ChannelCandidate) (c : ChannelCandidate)
    → eq_ℤ c.priority prio ≡ true
    → group_from prio group (c ∷ cs) ≡ group_from prio (group ++ c ∷ []) cs
unfolding group_from
group_from-same prio group cs c h =
    ap
      (λ b. elim b [
        | true ↦ group_from prio (group ++ c ∷ []) cs
        | false ↦ group ∷ group_from c.priority (c ∷ []) cs
      ])
      h

last_group-next :
    (prio : ℤ) (group cs : List ChannelCandidate) (c : ChannelCandidate)
    → eq_ℤ c.priority prio ≡ false
    → last_group (group_from prio group (c ∷ cs)) ≡ last_group (group_from c.priority (c ∷ []) cs)
unfolding group_from
last_group-next prio group cs c h =
    ap
      (λ b. last_group (elim b [
        | true ↦ group_from prio (group ++ c ∷ []) cs
        | false ↦ group ∷ group_from c.priority (c ∷ []) cs
      ]))
      h
    ∙ last_group-cons group (group_from c.priority (c ∷ []) cs)
        (group_from-IsCons c.priority (c ∷ []) cs)

last_group-All :
    (P : ChannelCandidate → Type 0) (prio : ℤ) (group cs : List ChannelCandidate)
    → All P group
    → All P cs
    → All P (last_group (group_from prio group cs))
unfolding group_from last_group
last_group-All P prio group [] hg hc = hg
last_group-All P prio group (c ∷ cs) hg hc = elim (Bool-cases (eq_ℤ c.priority prio)) [
  | inl e ↦
      subst (λ gs. All P (last_group gs)) (sym (group_from-same prio group cs c e))
        (last_group-All P prio (group ++ c ∷ []) cs (All-append P group (c ∷ []) hg (hc.0, tt))
          hc.1)
  | inr e ↦
      subst (All P) (sym (last_group-next prio group cs c e))
        (last_group-All P c.priority (c ∷ []) cs (hc.0, tt) hc.1)
]

-- What the candidates of the last group have in common: no remaining one has a higher priority.
abbrev IsTop : ℤ → List ChannelCandidate → ChannelCandidate → Type 0
IsTop prio cs x = (prio ≤ℤ x.priority) × All (λ d. d.priority ≤ℤ x.priority) cs

IsTop-now :
    (prio : ℤ) (group : List ChannelCandidate)
    → All (λ d. d.priority ≡ prio) group
    → All (IsTop prio []) group
IsTop-now prio [] h = tt
IsTop-now prio (c ∷ cs) h = ((ground (arith, h.0), tt), IsTop-now prio cs h.1)

IsTop-step :
    (prio p : ℤ) (c : ChannelCandidate) (cs xs : List ChannelCandidate)
    → prio ≤ℤ p
    → c.priority ≤ℤ p
    → All (IsTop p cs) xs
    → All (IsTop prio (c ∷ cs)) xs
IsTop-step prio p c cs [] h k a = tt
IsTop-step prio p c cs (x ∷ xs) h k a =
    let le : p ≤ℤ x.priority = (a.0).0 in
    ((omega arith, (omega arith, (a.0).1)), IsTop-step prio p c cs xs h k a.1)

last_group-IsTop :
    (prio : ℤ) (group cs : List ChannelCandidate)
    → All (λ d. d.priority ≡ prio) group
    → IsSorted cs
    → All (λ d. prio ≤ℤ d.priority) cs
    → All (IsTop prio cs) (last_group (group_from prio group cs))
unfolding group_from last_group
last_group-IsTop prio group [] hg sorted above = IsTop-now prio group hg
last_group-IsTop prio group (c ∷ cs) hg sorted above = elim (Bool-cases (eq_ℤ c.priority prio)) [
  | inl e ↦
      let same : c.priority ≡ prio = ground (arith, e, eq_of_parts c.priority prio) in
      subst (λ gs. All (IsTop prio (c ∷ cs)) (last_group gs))
        (sym (group_from-same prio group cs c e))
        (IsTop-step prio prio c cs _ (omega arith) (ground (arith, same)) (
          last_group-IsTop prio (group ++ c ∷ []) cs
            (All-append (λ d. d.priority ≡ prio) group (c ∷ []) hg (same, tt)) sorted.1 above.1))
  | inr e ↦ subst (All (IsTop prio (c ∷ cs))) (sym (last_group-next prio group cs c e)) (
      IsTop-step prio c.priority c cs _ above.0 (omega arith)
        (last_group-IsTop c.priority (c ∷ []) cs (refl, tt) sorted.1 sorted.0))
]

top-IsHighest :
    (c : ChannelCandidate) (cs xs : List ChannelCandidate)
    → All (IsTop c.priority cs) xs
    → All (IsHighest (c ∷ cs)) xs
top-IsHighest c cs xs h = h

-- The group chosen from is made of candidates with the highest priority.
pub last_group-IsHighest :
    (cs : List ChannelCandidate) → IsSorted cs → All (IsHighest cs) (last_group (group_sorted cs))
unfolding group_sorted last_group
last_group-IsHighest [] h = tt
last_group-IsHighest (c ∷ cs) h =
    top-IsHighest c cs _ (last_group-IsTop c.priority (c ∷ []) cs (refl, tt) h.1 h.0)

pub last_group_sorted-All :
    (P : ChannelCandidate → Type 0) (cs : List ChannelCandidate)
    → All P cs
    → All P (last_group (group_sorted cs))
unfolding group_sorted last_group
last_group_sorted-All P [] h = tt
last_group_sorted-All P (c ∷ cs) h = last_group-All P c.priority (c ∷ []) cs (h.0, tt) h.1

-- The chosen group of a non-empty list is not empty.
abbrev pub IsConsList : List ChannelCandidate → Type 0
IsConsList [] = ⊥
IsConsList (c ∷ cs) = Unit {0}

append-IsCons : (xs : List ChannelCandidate) (c : ChannelCandidate) → IsConsList (xs ++ c ∷ [])
append-IsCons [] c = tt
append-IsCons (x ∷ xs) c = tt

last_group-IsCons :
    (prio : ℤ) (group cs : List ChannelCandidate)
    → IsConsList group
    → IsConsList (last_group (group_from prio group cs))
unfolding group_from last_group
last_group-IsCons prio group [] h = h
last_group-IsCons prio group (c ∷ cs) h = elim (Bool-cases (eq_ℤ c.priority prio)) [
  | inl e ↦
      subst (λ gs. IsConsList (last_group gs)) (sym (group_from-same prio group cs c e))
        (last_group-IsCons prio (group ++ c ∷ []) cs (append-IsCons group c))
  | inr e ↦
      subst IsConsList (sym (last_group-next prio group cs c e))
        (last_group-IsCons c.priority (c ∷ []) cs tt)
]

pub last_group_sorted-IsCons :
    (cs : List ChannelCandidate) → IsConsList cs → IsConsList (last_group (group_sorted cs))
unfolding group_sorted
last_group_sorted-IsCons [] h = absurd h
last_group_sorted-IsCons (c ∷ cs) h = last_group-IsCons c.priority (c ∷ []) cs tt
