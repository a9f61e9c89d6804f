-- ===== src/Affinity/Laws.antt =====
-- What the affinity store promises.
use token_flux.Base.{
  Bool-cases, inl, inr, subst, ℕ, suc, ◌+◌, ◌≤◌, ◌≡◌, ◌≢◌, refl, ap, true, false, Option, none,
  some, [], ◌∷◌, eq_iff, eq_refl, arith,
}
use token_flux.Affinity.{
  AffinityKey, AffinityEntry, Entries, affinity_ttl, same_key, look_up, store, remove, live, get,
  refreshed, set, delete, delete_by_channel,
}

pub same_key_refl : (k : AffinityKey) → same_key k k ≡ true
same_key_refl k = ground (arith, eq_refl k.model_name)

pub same_key-eq : (k l : AffinityKey) → same_key k l ≡ true → k ≡ l
same_key-eq k l h = ground (arith, eq_iff k.model_name l.model_name)

pub look_up-store :
    (k : AffinityKey) (v : AffinityEntry) (es : Entries) → look_up k (store k v es) ≡ some v
unfolding look_up store
look_up-store k v [] = rw (same_key_refl k) refl
look_up-store k v (e ∷ es) = elim (Bool-cases (same_key k e.0)) [
  | inl h ↦ rw (h, same_key_refl k) refl
  | inr h ↦ rw (h, h) (look_up-store k v es)
]

pub look_up-store_other :
    (k l : AffinityKey) (v : AffinityEntry) (es : Entries)
    → same_key l k ≡ false
    → look_up l (store k v es) ≡ look_up l es
unfolding look_up store
look_up-store_other k l v [] h = rw h refl
look_up-store_other k l v (e ∷ es) h = elim (Bool-cases (same_key k e.0)) [
  | inl t ↦
      let f : same_key l e.0 ≡ false = subst (λ m. same_key l m ≡ false) (same_key-eq k e.0 t) h in
      rw (t, h, f) refl
  | inr t ↦ elim (Bool-cases (same_key l e.0)) [
    | inl f ↦ rw (t, f) refl
    | inr f ↦ rw (t, f) (look_up-store_other k l v es h)
  ]
]

pub look_up-remove : (k : AffinityKey) (es : Entries) → look_up k (remove k es) ≡ none
unfolding look_up remove
look_up-remove k [] = refl
look_up-remove k (e ∷ es) = elim (Bool-cases (same_key k e.0)) [
  | inl h ↦ rw h (look_up-remove k es)
  | inr h ↦ rw (h, h) (look_up-remove k es)
]

live-refreshed :
    (now later channel : ℕ) (o : Option AffinityEntry)
    → later ≤ now + affinity_ttl
    → live later (some (refreshed now channel o)) ≡ some channel
unfolding refreshed
live-refreshed now later channel none h = ground arith
live-refreshed now later channel (some e) h = ground arith

-- Until the time to live has passed after a `set`, `get` answers with its channel, whatever the store
-- held before, and other keys are answered as before.
pub get-set :
    (now later : ℕ) (k : AffinityKey) (channel : ℕ) (es : Entries)
    → later ≤ now + affinity_ttl
    → (get later k (set now k channel es) ≡ some channel)
      × ((l : AffinityKey)
          → same_key l k ≡ false
          → get later l (set now k channel es) ≡ get later l es)
unfolding get set
get-set now later k channel es h = (
  rw (look_up-store k (refreshed now channel (look_up k es)) es)
      (live-refreshed now later channel (look_up k es) h),
  λ l d. ap (live later) (look_up-store_other k l (refreshed now channel (look_up k es)) es d),
)

-- Setting a key that is in the store counts one more hit and never shortens the life of its entry.
pub set-later :
    (now : ℕ) (k : AffinityKey) (channel : ℕ) (es : Entries) (e : AffinityEntry)
    → look_up k es ≡ some e
    → (f : AffinityEntry) × (look_up k (set now k channel es) ≡ some f)
      × (e.expires_at ≤ f.expires_at)
      × (f.hit_count ≡ suc e.hit_count)
unfolding set refreshed
set-later now k channel es e h = (
  refreshed now channel (look_up k es),
  look_up-store k (refreshed now channel (look_up k es)) es,
  ground (arith, h),
  ground (arith, h),
)

-- A deleted key is not answered any more.
pub get-delete : (now : ℕ) (k : AffinityKey) (es : Entries) → get now k (delete k es) ≡ none
unfolding get delete
get-delete now k es = ap (live now) (look_up-remove k es)

look_up-delete_by_channel :
    (channel : ℕ) (k : AffinityKey) (es : Entries) (e : AffinityEntry)
    → look_up k (delete_by_channel channel es) ≡ some e
    → e.channel_id ≢ channel
unfolding look_up delete_by_channel
look_up-delete_by_channel channel k [] e h = ground arith
look_up-delete_by_channel channel k (x ∷ es) e h =
    ground (arith, look_up-delete_by_channel channel k es e)

-- After a channel is deleted, no key is answered with it at any time.
pub get-delete_by_channel :
    (now channel : ℕ) (k : AffinityKey) (es : Entries)
    → get now k (delete_by_channel channel es) ≢ some channel
unfolding get
get-delete_by_channel now channel k es =
    none_of (look_up k (delete_by_channel channel es)) (look_up-delete_by_channel channel k es)
  where
    none_of :
        (o : Option AffinityEntry)
        → ((e : AffinityEntry) → o ≡ some e → e.channel_id ≢ channel)
        → live now o ≢ some channel
    none_of none f = ground arith
    none_of (some e) f = ground (arith, f e refl)
