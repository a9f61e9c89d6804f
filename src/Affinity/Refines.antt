-- ===== src/Affinity/Refines.antt =====
-- The affinity store against its specification, a map from keys to entries.
use token_flux.Base.{
  suc, ◌+◌, ltb, leb, Bool, ℕ, false, ◌==◌, Bool-cases, inl, inr, Option, none, some, List, [], ◌∷◌,
  ◌≡◌, refl, sym, ap, ◌∙◌, subst, arith, if◌then◌else◌, eq_iff,
}
use token_flux.Affinity.{
  AffinityKey, AffinityEntry, Entries, same_key, look_up, store, remove, refreshed, live, get, set,
  delete, delete_by_channel,
}
use token_flux.Affinity.Laws.{same_key-eq, look_up-store, look_up-store_other, look_up-remove}

-- A call that changes the store.
pub data Call : Type 0 where
  set_at : ℕ → AffinityKey → ℕ → Call
  delete_at : AffinityKey → Call
  delete_channel : ℕ → Call

unfoldable pub run_call : Call → Entries → Entries
run_call (set_at now k channel) es = set now k channel es
run_call (delete_at k) es = delete k es
run_call (delete_channel channel) es = delete_by_channel channel es

unfoldable pub run_calls : List Call → Entries → Entries
run_calls [] es = es
run_calls (c ∷ cs) es = run_calls cs (run_call c es)

unfoldable pub without_channel : ℕ → Option AffinityEntry → Option AffinityEntry
without_channel channel none = none
without_channel channel (some e) = if e.channel_id == channel then none else some e

-- The specification: for every key the channel that it holds, how often it was set since it held none, and the latest
-- time to live of these settings.
pub record Spec : Type 0 where
  pub channel_of : AffinityKey → Option ℕ
  pub hits_of : AffinityKey → ℕ
  pub expiry_of : AffinityKey → ℕ

abbrev pub nothing : Spec
nothing = record { channel_of = λ k. none; hits_of = λ k. 0; expiry_of = λ k. 0 }

abbrev pub greater : ℕ → ℕ → ℕ
greater a b = if leb a b then b else a

-- What a call leaves at the keys that it empties, which the test finds, and at the others.
abbrev pub emptied : (AffinityKey → Bool) → Spec → Spec
emptied gone f = record {
  channel_of = λ j. if gone j then none else f.channel_of j;
  hits_of = λ j. if gone j then 0 else f.hits_of j;
  expiry_of = λ j. if gone j then 0 else f.expiry_of j;
}

abbrev pub holds : ℕ → Option ℕ → Bool
holds channel none = false
holds channel (some c) = c == channel

unfoldable pub spec_call : Call → Spec → Spec
spec_call (set_at now k channel) f = record {
  channel_of = λ j. if same_key j k then some channel else f.channel_of j;
  hits_of = λ j. if same_key j k then suc (f.hits_of j) else f.hits_of j;
  expiry_of = λ j. if same_key j k then greater (now + 1800) (f.expiry_of j) else f.expiry_of j;
}
spec_call (delete_at k) f = emptied (λ j. same_key j k) f
spec_call (delete_channel channel) f = emptied (λ j. holds channel (f.channel_of j)) f

unfoldable pub spec_calls : List Call → Spec → Spec
spec_calls [] f = f
spec_calls (c ∷ cs) f = spec_calls cs (spec_call c f)

-- An entry, or the lack of one, is what the specification has for a key.
abbrev pub Means : Option AffinityEntry → Option ℕ → ℕ → ℕ → Type 0
Means none c hits expiry = (c ≡ none) × (hits ≡ 0) × (expiry ≡ 0)
Means (some e) c hits expiry =
    (c ≡ some e.channel_id) × (hits ≡ e.hit_count) × (expiry ≡ e.expires_at)

abbrev pub Agrees : Entries → Spec → AffinityKey → Type 0
Agrees es f j = Means (look_up j es) (f.channel_of j) (f.hits_of j) (f.expiry_of j)

-- No key stands twice.
unfoldable pub AreDistinct : Entries → Type 0
AreDistinct [] = Unit
AreDistinct (e ∷ es) = (look_up e.0 es ≡ none) × AreDistinct es

same_key_sym : (k l : AffinityKey) → same_key k l ≡ false → same_key l k ≡ false
same_key_sym k l h =
    ground (arith, h, eq_iff k.model_name l.model_name, eq_iff l.model_name k.model_name)

look_up-remove_other :
    (j k : AffinityKey) (es : Entries)
    → same_key j k ≡ false
    → look_up j (remove k es) ≡ look_up j es
unfolding look_up remove
look_up-remove_other j k [] h = refl
look_up-remove_other j k (e ∷ es) h = elim (Bool-cases (same_key k e.0)) [
  | inl t ↦
      let f : same_key j e.0 ≡ false = subst (λ m. same_key j m ≡ false) (same_key-eq k e.0 t) h in
      rw (t, f) (look_up-remove_other j k es h)
  | inr t ↦ elim (Bool-cases (same_key j e.0)) [
    | inl f ↦ rw (t, f) refl
    | inr f ↦ rw (t, f) (look_up-remove_other j k es h)
  ]
]

look_up-drop_channel :
    (channel : ℕ) (j : AffinityKey) (es : Entries)
    → AreDistinct es
    → look_up j (delete_by_channel channel es) ≡ without_channel channel (look_up j es)
unfolding look_up delete_by_channel without_channel AreDistinct
look_up-drop_channel channel j [] d = refl
look_up-drop_channel channel j (e ∷ es) (n, d) =
    let ih = look_up-drop_channel channel j es d in
    elim (Bool-cases (same_key j e.0)) [
      | inl t ↦
          let gone : look_up j es ≡ none =
            subst (λ m. look_up m es ≡ none) (sym (same_key-eq j e.0 t)) n in
          elim (Bool-cases ((e.1).channel_id == channel)) [
            | inl c ↦ rw (c, t, c) (ih ∙ ap (without_channel channel) gone)
            | inr c ↦ rw (c, t, c) refl
          ]
      | inr t ↦ elim (Bool-cases ((e.1).channel_id == channel)) [
        | inl c ↦ rw (c, t) ih
        | inr c ↦ rw (c, t) ih
      ]
    ]

store-AreDistinct :
    (k : AffinityKey) (v : AffinityEntry) (es : Entries)
    → AreDistinct es
    → AreDistinct (store k v es)
unfolding store AreDistinct look_up
store-AreDistinct k v [] d = (refl, tt)
store-AreDistinct k v (e ∷ es) (n, d) = elim (Bool-cases (same_key k e.0)) [
  | inl t ↦ rw t (subst (λ m. look_up m es ≡ none) (sym (same_key-eq k e.0 t)) n, d)
  | inr t ↦
      rw t (look_up-store_other k e.0 v es (same_key_sym k e.0 t) ∙ n, store-AreDistinct k v es d)
]

remove-AreDistinct : (k : AffinityKey) (es : Entries) → AreDistinct es → AreDistinct (remove k es)
unfolding remove AreDistinct
remove-AreDistinct k [] d = tt
remove-AreDistinct k (e ∷ es) (n, d) = elim (Bool-cases (same_key k e.0)) [
  | inl t ↦ rw t (remove-AreDistinct k es d)
  | inr t ↦
      rw t (look_up-remove_other e.0 k es (same_key_sym k e.0 t) ∙ n, remove-AreDistinct k es d)
]

drop_channel-AreDistinct :
    (channel : ℕ) (es : Entries) → AreDistinct es → AreDistinct (delete_by_channel channel es)
unfolding delete_by_channel AreDistinct without_channel
drop_channel-AreDistinct channel [] d = tt
drop_channel-AreDistinct channel (e ∷ es) (n, d) = elim (Bool-cases ((e.1).channel_id == channel)) [
  | inl c ↦ rw c (drop_channel-AreDistinct channel es d)
  | inr c ↦ rw c (
    look_up-drop_channel channel e.0 es d ∙ ap (without_channel channel) n,
    drop_channel-AreDistinct channel es d,
  )
]

run_call-AreDistinct : (c : Call) (es : Entries) → AreDistinct es → AreDistinct (run_call c es)
unfolding run_call set delete
run_call-AreDistinct (set_at now k channel) es d =
    store-AreDistinct k (refreshed now channel (look_up k es)) es d
run_call-AreDistinct (delete_at k) es d = remove-AreDistinct k es d
run_call-AreDistinct (delete_channel channel) es d = drop_channel-AreDistinct channel es d

-- The three steps on what one key holds.
refreshed-Means :
    (now channel : ℕ) (o : Option AffinityEntry) (c : Option ℕ) (hits expiry : ℕ)
    → Means o c hits expiry
    → Means (some (refreshed now channel o)) (some channel) (suc hits) (greater (now + 1800) expiry)
unfolding refreshed
refreshed-Means now channel none c hits expiry m = ground arith
refreshed-Means now channel (some e) c hits expiry m = ground arith

without_channel-Means :
    (channel : ℕ) (o : Option AffinityEntry) (c : Option ℕ) (hits expiry : ℕ)
    → Means o c hits expiry
    → let gone : Bool = holds channel c in
      Means
        (without_channel channel o)
        (if gone then none else c)
        (if gone then 0 else hits)
        (if gone then 0 else expiry)
unfolding without_channel
without_channel-Means channel none c hits expiry (p, q, r) = rw (p, q, r) (refl, refl, refl)
without_channel-Means channel (some e) c hits expiry (p, q, r) =
    elim (Bool-cases (e.channel_id == channel)) [
      | inl t ↦ rw (p, t) (refl, refl, refl)
      | inr t ↦ rw (p, t) (refl, q, r)
    ]

-- One call does to the store what the specification says.
run_call-Agrees :
    (c : Call) (es : Entries) (f : Spec)
    → AreDistinct es
    → ((j : AffinityKey) → Agrees es f j)
    → (j : AffinityKey) → Agrees (run_call c es) (spec_call c f) j
unfolding run_call spec_call set delete
run_call-Agrees (set_at now k channel) es f d r j = elim (Bool-cases (same_key j k)) [
  | inl t ↦
      rw (t, same_key-eq j k t, look_up-store k (refreshed now channel (look_up k es)) es)
        (refreshed-Means now channel (look_up k es) (f.channel_of k) (f.hits_of k) (f.expiry_of k)
          (r k))
  | inr t ↦ rw (t, look_up-store_other k j (refreshed now channel (look_up k es)) es t) (r j)
]
run_call-Agrees (delete_at k) es f d r j = elim (Bool-cases (same_key j k)) [
  | inl t ↦ rw (t, same_key-eq j k t, look_up-remove k es) (refl, refl, refl)
  | inr t ↦ rw (t, look_up-remove_other j k es t) (r j)
]
run_call-Agrees (delete_channel channel) es f d r j = rw (look_up-drop_channel channel j es d) (
    without_channel-Means channel (look_up j es) (f.channel_of j) (f.hits_of j) (f.expiry_of j)
      (r j))

run_calls-Agrees :
    (cs : List Call) (es : Entries) (f : Spec)
    → AreDistinct es
    → ((j : AffinityKey) → Agrees es f j)
    → (j : AffinityKey) → Agrees (run_calls cs es) (spec_calls cs f) j
unfolding run_calls spec_calls
run_calls-Agrees [] es f d r j = r j
run_calls-Agrees (c ∷ cs) es f d r j =
    run_calls-Agrees cs (run_call c es) (spec_call c f) (run_call-AreDistinct c es d)
      (run_call-Agrees c es f d r) j

-- What `Get` should answer.
abbrev pub answer : ℕ → ℕ → Option ℕ → Option ℕ
answer now expiry c = if ltb expiry now then none else c

live-answer :
    (now : ℕ) (o : Option AffinityEntry) (c : Option ℕ) (hits expiry : ℕ)
    → Means o c hits expiry
    → live now o ≡ answer now expiry c
live-answer now none c hits expiry m = ground arith
live-answer now (some e) c hits expiry m = ground arith

-- After any sequence of calls on a new store, a key has an entry exactly when it was set and not emptied since, by a
-- delete of the key or of the channel that it held. The entry has the channel of the last setting, the number of
-- settings since the key was empty, and the latest of their times to live; and `Get` answers with that channel up to
-- that time, and with none after it.
pub run_calls-refines :
    (cs : List Call) (now : ℕ) (j : AffinityKey)
    → Agrees (run_calls cs []) (spec_calls cs nothing) j
      × (get now j (run_calls cs [])
          ≡ answer now ((spec_calls cs nothing).expiry_of j) ((spec_calls cs nothing).channel_of j))
unfolding look_up AreDistinct get
run_calls-refines cs now j =
    let m = run_calls-Agrees cs [] nothing tt (λ k. (refl, refl, refl)) j in
    let f = spec_calls cs nothing in
    (
      m,
      live-answer now (look_up j (run_calls cs [])) (f.channel_of j) (f.hits_of j) (f.expiry_of j)
          m,
    )
