-- ===== src/ApiKey/Revoked.antt =====
-- What the keys of server/internal/logic/identity/apikey.go grant, and what a deletion takes away.
use token_flux.Base.{ℕ, Bool, true, false, ◌&&◌, some, List, [], ◌∷◌, ◌==◌, ◌≡◌, arith, first}
use token_flux.Bytes.{Text}
use token_flux.Store.{ok}
use token_flux.Table.{first_sound, Table, change}
use token_flux.ApiKey.{
  ApiKeyRow, owned, revoked, answers, is_malformed, is_expired, delete_api_key, validate_api_key,
}

-- The key that answers after a deletion is not one that the deletion marked.
first-change-revoked :
    (key : Text) (now user id : ℕ) (rs : List ApiKeyRow) (r : ApiKeyRow)
    → first (answers key) (change (owned user id) (revoked now) rs) ≡ some r
    → owned user id r ≡ false
unfolding change answers
first-change-revoked key now user id [] r h = ground arith
first-change-revoked key now user id (x ∷ xs) r h =
    let rest = first-change-revoked key now user id xs r in ground (arith, rest)

-- A key that validates is well formed, it is the key of a row that is active and not deleted, and it is in time.
pub validate_api_key_sound :
    (fails : ℕ → Bool) (now : ℕ) (key : Text) (t t' : Table ApiKeyRow) (r : ApiKeyRow)
    → validate_api_key fails now key t ≡ (ok r, t')
    → (answers key r ≡ true) × (is_malformed key ≡ false) × (is_expired now r.expire_time ≡ false)
unfolding validate_api_key
validate_api_key_sound fails now key t t' r h =
    let sound = first_sound (answers key) t.rows r in ground (arith, sound)

-- After a user's deletion of a key that the database carries out, no text validates as that key of the user.
pub delete_api_key-revokes :
    (fails : ℕ → Bool) (now later user id : ℕ) (key : Text) (t t' t'' : Table ApiKeyRow)
    (r : ApiKeyRow)
    → delete_api_key fails now user id t ≡ (ok tt, t')
    → validate_api_key fails later key t' ≡ (ok r, t'')
    → (r.id == id && r.user_id == user) ≡ false
unfolding delete_api_key validate_api_key owned answers
delete_api_key-revokes fails now later user id key t t' t'' r deleted valid =
    let rest = first-change-revoked key now user id t.rows r in
    let sound = first_sound (answers key) t'.rows r in ground (arith, rest, sound)
