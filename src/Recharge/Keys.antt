-- ===== src/Recharge/Keys.antt =====
-- What disabling and restoring a user's keys does to each key.
use token_flux.Base.{
  ℕ, ◌≡◌, refl, ap₂, true, false, List, [], ◌∷◌, ◌&&◌, ◌==◌, All, arith, Bool-cases, inl, inr,
  if◌then◌else◌,
}
use token_flux.Store.{ApiKey}
use token_flux.Recharge.{is_overdraft_key, enable_keys, disable_keys}

-- A user's keys that are enabled carry no reason and are not deleted, and none is disabled for an
-- overdraft yet.
abbrev pub IsSettled : ℕ → ApiKey → Type 0
IsSettled user k =
    (is_overdraft_key user k ≡ false)
    × ((k.user_id == user && k.status == 1) ≡ true → (k.disabled_reason ≡ "") × (k.deleted ≡ false))

abbrev disabled : ApiKey → ApiKey
disabled k = record k { status = 0; disabled_reason = "overdraft" }

abbrev enabled : ApiKey → ApiKey
enabled k = record k { status = 1; disabled_reason = "" }

abbrev enable_key : ℕ → ApiKey → ApiKey
enable_key user k = if is_overdraft_key user k then enabled k else k

abbrev disable_key : ℕ → ApiKey → ApiKey
disable_key user k = if k.user_id == user && k.status == 1 then disabled k else k

enabled-disabled : (k : ApiKey) → k.status ≡ 1 → k.disabled_reason ≡ "" → enabled (disabled k) ≡ k
enabled-disabled k h r = ground arith

restored : (user : ℕ) (k : ApiKey) → IsSettled user k → enable_key user (disable_key user k) ≡ k
restored user k h = elim (Bool-cases (k.user_id == user && k.status == 1)) [
  | inl e ↦
      let (reason, live) = h.1 e in
      let overdrawn : is_overdraft_key user (disabled k) ≡ true = ground arith in
      rw (e, overdrawn) (enabled-disabled k (ground arith) reason)
  | inr e ↦ rw (e, h.0) refl
]

-- Restoring a user's keys undoes what the overdraft did to them: the keys of other users, the keys
-- disabled for another reason and the deleted ones are as they were at every step.
pub enable-disable :
    (user : ℕ) (ks : List ApiKey)
    → All (IsSettled user) ks
    → enable_keys user (disable_keys user ks) ≡ ks
unfolding enable_keys disable_keys
enable-disable user [] h = refl
enable-disable user (k ∷ ks) h = ap₂ ◌∷◌ (restored user k h.0) (enable-disable user ks h.1)

-- No enabled key of the user is left.
abbrev pub IsShut : ℕ → ApiKey → Type 0
IsShut user k = (k.user_id == user && k.status == 1) ≡ false

disable_key-IsShut : (user : ℕ) (k : ApiKey) → IsShut user (disable_key user k)
disable_key-IsShut user k = ground arith

-- An overdraft leaves no key of the user enabled.
pub disable_keys-IsShut : (user : ℕ) (ks : List ApiKey) → All (IsShut user) (disable_keys user ks)
unfolding disable_keys
disable_keys-IsShut user [] = tt
disable_keys-IsShut user (k ∷ ks) = (disable_key-IsShut user k, disable_keys-IsShut user ks)
