-- ===== src/Identity.antt =====
-- server/internal/logic/identity/user.go, without the listings, and `SetProviderShareBps` of
-- server/internal/logic/llm/key.go. Mail addresses, names and passwords are bytes; what the Go library and the
-- packages for passwords and tokens compute is the record `Crypto`. An operation reads one time, in seconds.
pub mod Verified
use token_flux.Base.{
  ℕ, zero, suc, ◌+◌, ◌==◌, leb, ltb, Bool, true, false, not, ◌&&◌, ◌||◌, String, Option, none, some,
  List, [], ◌∷◌, str_eq, if◌then◌else◌, length,
}
use token_flux.Bytes.{Text, codes, text_eq, take, index_of_str}
use token_flux.Store.{
  Result, ok, err, Error, db, record_not_found, already_exists, code_not_found, wrong_code,
  wrong_password, not_activated, crypto_failed, not_pending, no_user,
}
use token_flux.Table.{Table, TableAction, select_one, count_rows, insert_row, update_rows}
use token_flux.Site.{
  UserRow, VerificationRow, ApplicationRow, ProviderApplicationIn, SettingsRow, Site, SiteAction,
  on_users, on_verifications, on_applications, on_settings, ◌>>=◌, ◌>>◌, finish, found_or,
  refuse_if, or_else, unless_ok,
}

pub record Crypto : Type 0 where
  -- strings.ToLower(strings.TrimSpace(s)), and fmt.Sprintf("%s_%d", name, now % 100000)
  pub clean : Text → Text
  pub renamed : Text → Text
  -- bcrypt, the signed token of a user, and the digits drawn
  pub hash : Text → Option Text
  pub matches : Text → Text → Bool
  pub sign : ℕ → Text → ℕ → Option Text
  pub draw : ℕ → Option ℕ

pub record Fails : Type 0 where
  pub of_users : ℕ → Bool
  pub of_verifications : ℕ → Bool
  pub of_applications : ℕ → Bool
  pub of_settings : ℕ → Bool

-- `strings.Split(email, "@")[0]`
abbrev before : Option ℕ → Text → Text
before none email = email
before (some n) email = take n email

abbrev pub name_of : Text → Text
name_of email = before (index_of_str email (codes "@")) email

-- `generateCode`: the draws from `i` on.
abbrev pub digit : Option ℕ → Option Text → Option Text
digit none ds = none
digit (some n) none = none
digit (some n) (some ds) = some ((48 + n) ∷ ds)

unfoldable pub generate_code : (ℕ → Option ℕ) → (count i : ℕ) → Option Text
generate_code draw zero i = some []
generate_code draw (suc count) i = digit (draw i) (generate_code draw count (suc i))

abbrev pub has_email : Text → UserRow → Bool
has_email email r = text_eq r.email email

abbrev pub has_name : Text → UserRow → Bool
has_name name r = text_eq r.username name

-- UNIQUE of the user names, and of the addresses that are not empty
abbrev pub taken : Text → Text → UserRow → Bool
taken name email r = has_name name r || has_email email r && not (text_eq email [])

abbrev pub user_of : Text → Text → Text → String → ℕ → ℕ → ℕ → ℕ → UserRow
user_of name email password source status role now id = record {
  id = id;
  username = name;
  password = password;
  email = email;
  source = source;
  role = role;
  status = status;
  created_at = now;
  updated_at = now;
}

abbrev pub verification_of : Text → Text → ℕ → ℕ → VerificationRow
verification_of email code now id = record {
  id = id;
  email = email;
  code = code;
  purpose = "register";
  expires_at = now + 600;
  used_at = none;
  created_at = now;
}

abbrev pub application_of : ℕ → ProviderApplicationIn → ℕ → ApplicationRow
application_of user form id = record {
  id = id;
  user_id = user;
  form = form;
  status = "pending";
  review_note = "";
  reviewed_at = none;
}

abbrev pub is_open : Option ℕ → Bool
is_open none = true
is_open (some t) = false

-- The code that `VerifyEmail` looks for: the newest that is neither used nor too old.
abbrev pub waits : Text → ℕ → VerificationRow → Bool
waits email now r =
    text_eq r.email email
    && str_eq r.purpose "register"
    && is_open r.used_at
    && leb now r.expires_at

abbrev pub activated : ℕ → UserRow → UserRow
activated now r = record r { status = 1; updated_at = now }

module _ (C : Crypto) (fails : Fails) where
  abbrev pub user_name : Text → SiteAction Text
  user_name email = on_users (count_rows fails.of_users (has_name (name_of email))) >>= λ n.
      finish (if ltb 0 n then C.renamed (name_of email) else name_of email)

  abbrev pub refuse_known : Text → SiteAction (Unit {0})
  refuse_known email = on_users (count_rows fails.of_users (has_email email)) >>= λ n.
      refuse_if (ltb 0 n) already_exists

  abbrev pub insert_user : Text → Text → (ℕ → UserRow) → SiteAction ℕ
  insert_user name email row = on_users (insert_row fails.of_users (taken name email) row)

  -- `Register`
  unfoldable pub register : ℕ → Text → Text → SiteAction (Unit {0})
  unfolding generate_code
  register now raw password =
      let email = C.clean raw in
      refuse_known email >> found_or (C.hash password) crypto_failed >>= λ hash.
      user_name email >>= λ name.
      insert_user name email (user_of name email hash "email" 0 0 now)
      >> found_or (generate_code C.draw 6 0) crypto_failed
      >>= λ code.
          on_verifications
            (insert_row fails.of_verifications (λ r. false) (verification_of email code now))
          >> finish tt

  -- `VerifyEmail`
  unfoldable pub verify_email : ℕ → Text → Text → SiteAction (Unit {0})
  verify_email now raw code =
      let email = C.clean raw in
      on_verifications (select_one fails.of_verifications (waits email now)) >>= λ row.
      found_or row code_not_found >>= λ v.
      refuse_if (not (text_eq v.code code)) wrong_code
      >> on_verifications (
          update_rows fails.of_verifications (λ r. r.id == v.id)
            (λ r. record r { used_at = some now }))
      >> on_users (update_rows fails.of_users (has_email email) (activated now))
      >> finish tt

  -- `Login`: the token and the user's row.
  unfoldable pub login : Text → Text → SiteAction (Text × UserRow)
  login raw password = on_users (select_one fails.of_users (has_email (C.clean raw))) >>= λ row.
      found_or row wrong_password >>= λ r.
      refuse_if (not (r.status == 1)) not_activated
      >> refuse_if (not (C.matches r.password password)) wrong_password
      >> found_or (C.sign r.id r.username r.role) crypto_failed
      >>= λ token. finish (token, r)

  -- `GetUser`
  unfoldable pub get_user : ℕ → SiteAction UserRow
  get_user id = on_users (select_one fails.of_users (λ r. r.id == id)) >>= λ row.
      found_or row record_not_found

  -- `CreateUser`: an error of the second count is ignored, as if there were no such name.
  unfoldable pub create_user : ℕ → Text → Text → ℕ → SiteAction UserRow
  unfolding get_user
  create_user now raw password role =
      let email = C.clean raw in
      refuse_known email >> found_or (C.hash password) crypto_failed >>= λ hash.
      unless_ok (name_of email) (user_name email) >>= λ name.
      insert_user name email (user_of name email hash "admin" 1 role now) >>= get_user

  -- `UpdateUserStatus`, `UpdateUserRole`
  abbrev pub update_user : (UserRow → UserRow) → ℕ → SiteAction (Unit {0})
  update_user f user = on_users (update_rows fails.of_users (λ r. r.id == user) f) >>= λ affected.
      refuse_if (affected == 0) record_not_found

  unfoldable pub update_user_status : ℕ → ℕ → ℕ → SiteAction (Unit {0})
  update_user_status now user status =
      update_user (λ r. record r { status = status; updated_at = now }) user

  unfoldable pub update_user_role : ℕ → ℕ → ℕ → SiteAction (Unit {0})
  update_user_role now user role =
      update_user (λ r. record r { role = role; updated_at = now }) user

  -- `ApplyProvider`
  unfoldable pub apply_provider : ℕ → ProviderApplicationIn → SiteAction (Unit {0})
  apply_provider user form =
      refuse_if (user == 0) no_user
      >> on_applications (insert_row fails.of_applications (λ r. false) (application_of user form))
      >> finish tt

  -- `SetProviderShareBps`: a failed insertion, as of a user that has a row, becomes an update.
  unfoldable pub set_provider_share_bps : ℕ → ℕ → SiteAction (Unit {0})
  set_provider_share_bps user share =
      or_else
        (on_settings (
          insert_row fails.of_settings (λ r. r.user_id == user)
            (λ id. record { user_id = user; share_bps = share })))
        (on_settings (
          update_rows fails.of_settings (λ r. r.user_id == user)
            (λ r. record r { share_bps = share })))
      >> finish tt

  abbrev pub when : Bool → SiteAction (Unit {0}) → SiteAction (Unit {0})
  when c m s = elim c [ true ↦ m s | false ↦ (ok tt, s) ]

  -- `ReviewProviderApplication`
  unfoldable pub review_provider_application : ℕ → ℕ → String → String → ℕ → SiteAction (Unit {0})
  unfolding update_user_role set_provider_share_bps
  review_provider_application now id status note share =
      on_applications (select_one fails.of_applications (λ r. r.id == id)) >>= λ row.
      found_or row record_not_found >>= λ a.
      refuse_if (not (str_eq a.status "pending")) not_pending
      >> on_applications (
          update_rows fails.of_applications (λ r. r.id == id)
            (λ r. record r { status = status; review_note = note; reviewed_at = some now }))
      >> when (str_eq status "approved") (
          update_user_role now a.user_id 1
          >> when (ltb 0 share) (set_provider_share_bps a.user_id share))
