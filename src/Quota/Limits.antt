-- ===== src/Quota/Limits.antt =====
-- A quota with a limit is never charged beyond it, and a spent one is not offered.
use token_flux.Base.{
  ℕ, ℤ, pos, ◌+ℤ◌, ◌≤ℤ◌, ltb_ℤ, leb_ℤ, ◌≡◌, refl, true, List, [], ◌∷◌, All, arith, Bool-cases, inl,
  inr, ◌⊎◌,
}
use token_flux.Store.{World, State, Tables, Quota, ok, attempt, update}
use token_flux.Quota.{
  charged, charge, CandidateRow, is_offered, load_active_candidates, update_quota_sync,
}

-- No limit is set, or the use is within it.
abbrev pub IsWithin : Quota → Type 0
IsWithin q = (q.quota_limit_credits ≡ pos 0) ⊎ (q.quota_used_credits ≤ℤ q.quota_limit_credits)

charged-IsWithin : (id : ℕ) (cost : ℤ) (q : Quota) → IsWithin q → IsWithin (charged id cost q)
charged-IsWithin id cost q h = ground arith

pub charge-IsWithin :
    (id : ℕ) (cost : ℤ) (qs : List Quota) → All IsWithin qs → All IsWithin (charge id cost qs)
unfolding charge
charge-IsWithin id cost [] h = tt
charge-IsWithin id cost (q ∷ qs) h =
    (charged-IsWithin id cost q h.0, charge-IsWithin id cost qs h.1)

-- Both tables are within their limits.
abbrev pub AreWithin : Tables → Type 0
AreWithin t = All IsWithin t.model_keys × All IsWithin t.key_models

pub try-update :
    (P : Tables → Type 0) (w : World) (g : Tables → Tables) (s : State)
    → P s.tables
    → P (g s.tables)
    → P (attempt (update w (λ t. tt) g) s).1.tables
try-update P w g s h k = elim (Bool-cases (w.fails s.calls)) [ inl e ↦ rw e h | inr e ↦ rw e k ]

both_tried :
    (w : World) (model_key key_model : ℕ) (cost : ℤ) (s : State)
    → AreWithin s.tables
    → let s1 =
        (attempt
          (update w (λ t. tt) (λ t. record t { model_keys = charge model_key cost t.model_keys }))
          s).1 in
      AreWithin
        (attempt
          (update w (λ t. tt) (λ t. record t { key_models = charge key_model cost t.key_models }))
          s1).1.tables
both_tried w model_key key_model cost s h =
    let s1 =
      (attempt
        (update w (λ t. tt) (λ t. record t { model_keys = charge model_key cost t.model_keys }))
        s).1 in
    let h1 : AreWithin s1.tables =
      try-update AreWithin w (λ t. record t { model_keys = charge model_key cost t.model_keys }) s h
        (charge-IsWithin model_key cost s.tables.model_keys h.0, h.1) in
    try-update AreWithin w (λ t. record t { key_models = charge key_model cost t.key_models }) s1 h1
      (h1.0, charge-IsWithin key_model cost s1.tables.key_models h1.1)

module _ (w : World) (model_key key_model : ℕ) (cost : ℤ) (s : State) where
  -- Whatever the cost and whichever update fails, quotas that are within their limits stay within them,
  -- and the caller sees no error.
  pub update_quota_sync-AreWithin :
      AreWithin s.tables
      → ((update_quota_sync w model_key key_model cost s).0 ≡ ok tt)
        × AreWithin (update_quota_sync w model_key key_model cost s).1.tables
  unfolding update_quota_sync
  update_quota_sync-AreWithin h = elim (Bool-cases (leb_ℤ cost (pos 0))) [
    | inl e ↦ rw e (refl, h)
    | inr e ↦ rw e (refl, both_tried w model_key key_model cost s h)
  ]

-- A row is charged in full or not at all, and only when the charge leaves it within its limit.
pub charged-exact :
    (id : ℕ) (cost : ℤ) (q : Quota)
    → (charged id cost q ≡ q)
      ⊎ ((q.id ≡ id)
          × ((charged id cost q).quota_used_credits ≡ q.quota_used_credits +ℤ cost)
          × IsWithin (charged id cost q))
charged-exact id cost q = ground arith

-- No limit is set, or less than the limit is used, in both quotas.
abbrev pub HasRoom : CandidateRow → Type 0
HasRoom r =
    ((r.mk_quota_limit ≤ℤ pos 0) ⊎ (ltb_ℤ r.mk_quota_used r.mk_quota_limit ≡ true))
    × ((r.km_quota_limit ≤ℤ pos 0) ⊎ (ltb_ℤ r.km_quota_used r.km_quota_limit ≡ true))

offered-HasRoom : (r : CandidateRow) → is_offered r ≡ true → HasRoom r
offered-HasRoom r e = ground arith

-- Every candidate that is offered has room left in the quota of its key and of its binding, or no limit.
pub load_active_candidates-HasRoom :
    (rows : List CandidateRow) → All HasRoom (load_active_candidates rows)
unfolding load_active_candidates
load_active_candidates-HasRoom [] = tt
load_active_candidates-HasRoom (r ∷ rows) = elim (Bool-cases (is_offered r)) [
  | inl e ↦ rw e (offered-HasRoom r e, load_active_candidates-HasRoom rows)
  | inr e ↦ rw e (load_active_candidates-HasRoom rows)
]
