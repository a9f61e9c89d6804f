-- ===== src/Scheduler/Members.antt =====
-- What holds of all candidates of a list holds of those that a filter or a sort leaves, as
-- server/internal/relay/scheduler takes them.
use mathlib.Core.List.{Mem, Perm, forall_mem-cons, Mem-prop, not-mem-nil}
use mathlib.Core.List.Perm
use token_flux.Base.{
  ◌≡◌, refl, Bool, true, false, List, [], ◌∷◌, All, keep, arith, ◌⊎◌, Bool-cases, inl, inr,
}
use token_flux.Candidate.{ChannelCandidate}
use token_flux.Scheduler.{is_healthy, usable}
use token_flux.Scheduler.Grouping.{IsConsList}

-- `All` and membership, for a predicate that is a proposition.
pub members-All :
    (P : ChannelCandidate → Type 0) (cs : List ChannelCandidate)
    → ((x : ChannelCandidate) → IsProp (P x))
    → ((x : ChannelCandidate) → Mem x cs → P x)
    → All P cs
members-All P [] prop h = tt
members-All P (c ∷ cs) prop h =
    let p = (forall_mem-cons prop).0 h in (p.0, members-All P cs prop p.1)

pub All-members :
    (P : ChannelCandidate → Type 0) (cs : List ChannelCandidate)
    → ((x : ChannelCandidate) → IsProp (P x))
    → All P cs
    → (x : ChannelCandidate) → Mem x cs
    → P x
All-members P [] prop h x m = absurd (not-mem-nil m)
All-members P (c ∷ cs) prop h x m = (forall_mem-cons prop).1 (h.0, All-members P cs prop h.1) x m

pub All-pair :
    (P Q : ChannelCandidate → Type 0) (cs : List ChannelCandidate)
    → All P cs
    → All Q cs
    → All (λ x. P x × Q x) cs
All-pair P Q [] h k = tt
All-pair P Q (c ∷ cs) h k = ((h.0, k.0), All-pair P Q cs h.1 k.1)

pub All-first :
    (P Q : ChannelCandidate → Type 0) (cs : List ChannelCandidate)
    → All (λ x. P x × Q x) cs
    → All P cs
All-first P Q [] h = tt
All-first P Q (c ∷ cs) h = ((h.0).0, All-first P Q cs h.1)

pub All-second :
    (P Q : ChannelCandidate → Type 0) (cs : List ChannelCandidate)
    → All (λ x. P x × Q x) cs
    → All Q cs
All-second P Q [] h = tt
All-second P Q (c ∷ cs) h = ((h.0).1, All-second P Q cs h.1)

-- The usable candidates are the healthy ones, or all when there is none.
pub usable-cases :
    (cs : List ChannelCandidate)
    → ((keep is_healthy cs ≡ []) × (usable cs ≡ cs))
      ⊎ ((usable cs ≡ keep is_healthy cs) × IsConsList (keep is_healthy cs))
unfolding usable
usable-cases cs = go (keep is_healthy cs)
  where
    go :
        (hs : List ChannelCandidate)
        → ((hs ≡ []) × (elim hs [ [] ↦ cs | h ∷ hs ↦ h ∷ hs ] ≡ cs))
          ⊎ ((elim hs [ [] ↦ cs | h ∷ hs ↦ h ∷ hs ] ≡ hs) × IsConsList hs)
    go [] = inl (refl, refl)
    go (h ∷ hs) = inr (refl, tt)

pub keep-All :
    (P : ChannelCandidate → Type 0) (p : ChannelCandidate → Bool) (cs : List ChannelCandidate)
    → All P cs
    → All (λ x. P x × (p x ≡ true)) (keep p cs)
keep-All P p [] h = tt
keep-All P p (c ∷ cs) h = elim (Bool-cases (p c)) [
  | inl e ↦ rw e ((h.0, e), keep-All P p cs h.1)
  | inr e ↦ rw e (keep-All P p cs h.1)
]

pub All-keep :
    (Q : ChannelCandidate → Type 0) (p : ChannelCandidate → Bool) (cs : List ChannelCandidate)
    → All Q (keep p cs)
    → All (λ d. p d ≡ true → Q d) cs
All-keep Q p [] h = tt
All-keep Q p (c ∷ cs) h = elim (Bool-cases (p c)) [
  | inl e ↦ let k : All Q (c ∷ keep p cs) = rw e at h in (λ u. k.0, All-keep Q p cs k.1)
  | inr e ↦
      let k : All Q (keep p cs) = rw e at h in
      ((λ u. absurd (ground (arith, u, e))), All-keep Q p cs k)
]

pub keep-none :
    (Q : ChannelCandidate → Type 0) (p : ChannelCandidate → Bool) (cs : List ChannelCandidate)
    → keep p cs ≡ []
    → All Q cs
    → All (λ d. (p d ≡ false) × Q d) cs
keep-none Q p [] h k = tt
keep-none Q p (c ∷ cs) h k = elim (Bool-cases (p c)) [
  | inl e ↦ let n : (c ∷ keep p cs) ≡ [] = rw e at h in absurd (ground (arith, n))
  | inr e ↦ let n : keep p cs ≡ [] = rw e at h in ((e, k.0), keep-none Q p cs n k.1)
]

pub perm-All :
    (P : ChannelCandidate → Type 0) (xs ys : List ChannelCandidate)
    → ((x : ChannelCandidate) → IsProp (P x))
    → Perm xs ys
    → All P xs
    → All P ys
perm-All P xs ys prop perm h =
    members-All P ys prop (λ x m. All-members P xs prop h x ((Perm.mem_iff perm).1 m))

pub own_members : (cs : List ChannelCandidate) → All (λ x. Mem x cs) cs
own_members cs = members-All (λ x. Mem x cs) cs (λ x. Mem-prop) (λ x m. m)
