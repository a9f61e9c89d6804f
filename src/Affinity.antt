-- ===== src/Affinity.antt =====
-- server/internal/relay/scheduler/affinity.go: which channel served a user's model last. The Go map is
-- an association list from keys to entries; a mutex serialises the operations, so each is a function
-- on the entries. Time is in seconds.
pub mod Laws
pub mod Refines
use token_flux.Base.{
  ℕ, suc, ◌+◌, ltb, Bool, true, false, not, String, Option, none, some, List, [], ◌∷◌, ◌&&◌, ◌==◌,
  str_eq, length, if◌then◌else◌,
}

abbrev pub affinity_ttl : ℕ
affinity_ttl = 1800

pub record AffinityKey : Type 0 where
  pub user_id : ℕ
  pub model_name : String

pub record AffinityEntry : Type 0 where
  pub channel_id : ℕ
  pub hit_count : ℕ
  pub expires_at : ℕ

abbrev pub Entries : Type 0
Entries = List (AffinityKey × AffinityEntry)

abbrev pub same_key : AffinityKey → AffinityKey → Bool
same_key a b = a.user_id == b.user_id && str_eq a.model_name b.model_name

-- Go's `entries[key]` with its second result, `entries[key] = e` and `delete(entries, key)`.
unfoldable pub look_up : AffinityKey → Entries → Option AffinityEntry
look_up k [] = none
look_up k (e ∷ es) = if same_key k e.0 then some e.1 else look_up k es

unfoldable pub store : AffinityKey → AffinityEntry → Entries → Entries
store k v [] = (k, v) ∷ []
store k v (e ∷ es) = if same_key k e.0 then (k, v) ∷ es else e ∷ store k v es

unfoldable pub remove : AffinityKey → Entries → Entries
remove k [] = []
remove k (e ∷ es) = if same_key k e.0 then remove k es else e ∷ remove k es

-- An entry that expired is no entry.
abbrev pub live : ℕ → Option AffinityEntry → Option ℕ
live now none = none
live now (some e) = if ltb e.expires_at now then none else some e.channel_id

-- `Get`
unfoldable pub get : ℕ → AffinityKey → Entries → Option ℕ
get now k es = live now (look_up k es)

abbrev pub later : ℕ → ℕ → ℕ
later a b = if ltb a b then b else a

-- The entry that `Set` leaves: a refresh counts the hit and keeps the later expiry.
unfoldable pub refreshed : ℕ → ℕ → Option AffinityEntry → AffinityEntry
refreshed now channel none = record {
  channel_id = channel;
  hit_count = 1;
  expires_at = now + affinity_ttl;
}
refreshed now channel (some e) = record {
  channel_id = channel;
  hit_count = suc e.hit_count;
  expires_at = later (now + affinity_ttl) e.expires_at;
}

-- `Set`
unfoldable pub set : ℕ → AffinityKey → ℕ → Entries → Entries
set now k channel es = store k (refreshed now channel (look_up k es)) es

-- `Delete` and `DeleteByChannel`
unfoldable pub delete : AffinityKey → Entries → Entries
delete k es = remove k es

unfoldable pub delete_by_channel : ℕ → Entries → Entries
delete_by_channel channel [] = []
delete_by_channel channel (e ∷ es) =
    if (e.1).channel_id == channel
    then delete_by_channel channel es
    else e ∷ delete_by_channel channel es

-- `Size`
unfoldable pub size : Entries → ℕ
size es = length es
