-- ===== src/Config.antt =====
-- server/internal/logic/systemconfig/config.go: the table system_configs, a map with text keys (the key is its
-- primary key). Which statements fail is a parameter, and so are the parsers of strconv.
use token_flux.Base.{
  ℕ, suc, Bool, true, false, not, ◌&&◌, ◌||◌, Option, none, some, [], ◌∷◌, ◌≡◌, refl, sym, ap, ◌∙◌,
  arith, Bool-cases, inl, inr, if◌then◌else◌,
}
use token_flux.Bytes.{Text, Map, text_eq, get_key, put_key}
use token_flux.Bytes.Laws.{text_eq_refl, get_key-put_key}

pub record ConfigState : Type 0 where
  pub configs : Map Text
  -- The statements sent so far.
  pub sent : ℕ

pub data Seeding : Type 0 where
  seeded : ConfigState → Seeding
  refused : ConfigState → Seeding

abbrev pub is_present : Option Text → Bool
is_present none = false
is_present (some v) = true

-- `GetInt` and `GetFloat` with the parser that each uses.
unfoldable pub get_parsed :
    {A : Type 0} → (Text → Option A) → (ℕ → Bool) → Text → A → ConfigState → A
get_parsed parse fails key default_val s =
    if fails s.sent then default_val else elim (get_key key s.configs) [
      | none ↦ default_val
      | some v ↦
          if text_eq v [] then default_val else elim (parse v) [ none ↦ default_val | some n ↦ n ]
    ]

-- UPDATE system_configs SET value = ? WHERE key = ?
unfoldable pub update_config : Text → Text → Map Text → Map Text
update_config key value m = if is_present (get_key key m) then put_key key value m else m

-- The body of the loop of `EnsureConfigs`. A count that fails counts as none, and an insert of a key that is
-- there fails.
unfoldable pub insert_config : (ℕ → Bool) → Text → Text → ConfigState → Seeding
insert_config fails key value s =
    let s' = record s { sent = suc s.sent } in
    if fails s.sent || is_present (get_key key s.configs)
    then refused s'
    else seeded (record s' { configs = put_key key value s.configs })

unfoldable pub ensure_config : (ℕ → Bool) → Text → Text → ConfigState → Seeding
ensure_config fails key value s =
    if fails s.sent
    then refused (record s { sent = suc s.sent })
    else let u = record s {
      configs = update_config key value s.configs;
      sent = suc (suc s.sent);
    } in
      if not (fails (suc s.sent)) && is_present (get_key key u.configs)
      then seeded u
      else insert_config fails key value u

abbrev pub then_seed : (ConfigState → Seeding) → Seeding → Seeding
then_seed f (seeded s) = f s
then_seed f (refused s) = refused s

-- `EnsureConfigs`; the loop over Go's map meets the entries in the order of the list.
unfoldable pub ensure_configs : (ℕ → Bool) → Map Text → ConfigState → Seeding
ensure_configs fails [] s = seeded s
ensure_configs fails ((key, value) ∷ defaults) s =
    then_seed (ensure_configs fails defaults) (ensure_config fails key value s)

get_key-put_self : (k v : Text) (m : Map Text) → get_key k (put_key k v m) ≡ some v
get_key-put_self k v m = get_key-put_key k k v m ∙ rw (text_eq_refl k) refl

get_key-update_config :
    (key value : Text) (m : Map Text)
    → is_present (get_key key (update_config key value m)) ≡ true
    → get_key key (update_config key value m) ≡ some value
unfolding update_config
get_key-update_config key value m h = elim (Bool-cases (is_present (get_key key m))) [
  | inl e ↦ rw e (get_key-put_self key value m)
  | inr e ↦ let n : is_present (get_key key m) ≡ true = rw e at h in absurd (ground (arith, n, e))
]

seeded_inj : (s t : ConfigState) → seeded s ≡ seeded t → s.configs ≡ t.configs
seeded_inj s t h = ap (λ r. (elim r [ seeded x ↦ x.configs | refused x ↦ x.configs ])) h

insert_config-value :
    (fails : ℕ → Bool) (key value : Text) (s s' : ConfigState)
    → insert_config fails key value s ≡ seeded s'
    → get_key key s'.configs ≡ some value
unfolding insert_config
insert_config-value fails key value s s' h =
    elim (Bool-cases (fails s.sent || is_present (get_key key s.configs))) [
      | inl e ↦
          let n : refused (record s { sent = suc s.sent }) ≡ seeded s' = rw e at h in
          absurd (ground (arith, n))
      | inr e ↦
          let n : seeded (record s { configs = put_key key value s.configs; sent = suc s.sent })
              ≡ seeded s' =
            rw e at h in
          ap (get_key key) (sym (seeded_inj _ s' n)) ∙ get_key-put_self key value s.configs
    ]

-- Whatever the key held before, a seeding of it that succeeds leaves the default there.
pub ensure_config-overwrites :
    (fails : ℕ → Bool) (key value : Text) (s s' : ConfigState)
    → ensure_config fails key value s ≡ seeded s'
    → get_key key s'.configs ≡ some value
unfolding ensure_config
ensure_config-overwrites fails key value s s' h =
    let u : ConfigState = record s {
      configs = update_config key value s.configs;
      sent = suc (suc s.sent);
    } in
    elim (Bool-cases (fails s.sent)) [
      | inl e ↦
          let n : refused (record s { sent = suc s.sent }) ≡ seeded s' = rw e at h in
          absurd (ground (arith, n))
      | inr e ↦ elim (Bool-cases (not (fails (suc s.sent)) && is_present (get_key key u.configs))) [
        | inl f ↦
            let n : seeded u ≡ seeded s' = rw (e, f) at h in
            ap (get_key key) (sym (seeded_inj u s' n))
            ∙ get_key-update_config key value s.configs (ground (arith, f))
        | inr f ↦
            let n : insert_config fails key value u ≡ seeded s' = rw (e, f) at h in
            insert_config-value fails key value u s' n
      ]
    ]
