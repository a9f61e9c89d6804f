-- ===== src/ApiKey.antt =====
-- server/internal/logic/identity/apikey.go: the keys with which users call the service. A key is the bytes of its
-- text; what is drawn at random is a parameter, and an operation reads one time.
pub mod Revoked
use token_flux.Base.{
  ℕ, suc, ◌==◌, ltb, ℤ, pos, Bool, true, false, not, ◌&&◌, ◌||◌, String, Option, none, some, List,
  [], ◌∷◌, ◌++◌, ◌≡◌, arith, first, length,
}
use token_flux.Bytes.{Text, codes, text_eq, take}
use token_flux.Store.{ok, err, Error, db, record_not_found, malformed_key, key_expired}
use token_flux.Table.{
  Table, TableAction, ◌>>=◌, ◌>>◌, finish, found_or, refuse_if, select_one, insert_row, update_rows,
  change,
}

pub record ApiKeyRow : Type 0 where
  pub id : ℕ
  pub user_id : ℕ
  pub key : Text
  pub name : String
  pub status : ℕ
  pub expire_time : Option ℕ
  pub quota_credits : Option ℤ
  pub remain_quota : ℤ
  pub used_quota : ℤ
  pub unlimited_quota : Bool
  pub created_at : ℕ
  pub updated_at : ℕ
  pub deleted_at : Option ℕ

pub record CreateApiKeyIn : Type 0 where
  pub name : String
  pub quota_credits : Option ℤ
  pub unlimited_quota : Bool

abbrev pub granted : Option ℤ → ℤ
granted none = pos 0
granted (some q) = q

abbrev pub is_null : Option ℕ → Bool
is_null none = true
is_null (some t) = false

abbrev pub new_key : ℕ → Text → ℕ → CreateApiKeyIn → ℕ → ApiKeyRow
new_key user key now i id = record {
  id = id;
  user_id = user;
  key = key;
  name = i.name;
  status = 1;
  expire_time = none;
  quota_credits = i.quota_credits;
  remain_quota = granted i.quota_credits;
  used_quota = pos 0;
  unlimited_quota = i.unlimited_quota;
  created_at = now;
  updated_at = now;
  deleted_at = none;
}

-- The rows that `DeleteApiKey` marks, and the marking.
unfoldable pub owned : ℕ → ℕ → ApiKeyRow → Bool
owned user id r = r.id == id && r.user_id == user && is_null r.deleted_at

abbrev pub revoked : ℕ → ApiKeyRow → ApiKeyRow
revoked now r = record r { deleted_at = some now; updated_at = now }

-- The rows that `ValidateApiKey` selects, its test of the format and its test of the time.
unfoldable pub answers : Text → ApiKeyRow → Bool
answers key r = text_eq r.key key && r.status == 1 && is_null r.deleted_at

unfoldable pub is_malformed : Text → Bool
is_malformed key = ltb (length key) 4 || not (text_eq (take 3 key) (codes "sk-"))

abbrev pub is_expired : ℕ → Option ℕ → Bool
is_expired now none = false
is_expired now (some t) = ltb t now

module _ (fails : ℕ → Bool) where
  -- `CreateApiKey`: `suffix` is what is drawn.
  unfoldable pub create_api_key : Text → ℕ → ℕ → CreateApiKeyIn → TableAction ApiKeyRow (ℕ × Text)
  create_api_key suffix now user i =
      let key = codes "sk-" ++ suffix in
      insert_row fails (λ r. text_eq r.key key) (new_key user key now i) >>= λ id. finish (id, key)

  -- `DeleteApiKey`
  unfoldable pub delete_api_key : ℕ → ℕ → ℕ → TableAction ApiKeyRow (Unit {0})
  unfolding owned
  delete_api_key now user id =
      update_rows fails (owned user id) (revoked now) >>= λ affected. finish tt

  -- `ValidateApiKey`
  unfoldable pub validate_api_key : ℕ → Text → TableAction ApiKeyRow ApiKeyRow
  unfolding answers is_malformed
  validate_api_key now key =
      refuse_if (is_malformed key) malformed_key >> select_one fails (answers key) >>= λ row.
      found_or row record_not_found >>= λ r.
      refuse_if (is_expired now r.expire_time) key_expired >> finish r
