-- ===== src/Site.antt =====
-- The tables of the users, of the codes sent by mail, of the providers' applications and of their settings, with the
-- constraints of server/migrations; the operations of server/internal/logic/identity work on them.
use token_flux.Base.{ℕ, Bool, String, Option, none, some, if◌then◌else◌}
use token_flux.Bytes.{Text}
use token_flux.Store.{Result, ok, err, Error}
use token_flux.Table.{Table, TableAction}

pub record UserRow : Type 0 where
  pub id : ℕ
  pub username : Text
  pub password : Text
  pub email : Text
  pub source : String
  pub role : ℕ
  pub status : ℕ
  pub created_at : ℕ
  pub updated_at : ℕ

pub record VerificationRow : Type 0 where
  pub id : ℕ
  pub email : Text
  pub code : Text
  pub purpose : String
  pub expires_at : ℕ
  pub used_at : Option ℕ
  pub created_at : ℕ

pub record ProviderApplicationIn : Type 0 where
  pub company : String
  pub contact : String
  pub email : String
  pub website : String
  pub bio : String
  pub model_name : String
  pub model_family : String
  pub api_endpoint : String
  pub documentation : String

pub record ApplicationRow : Type 0 where
  pub id : ℕ
  pub user_id : ℕ
  pub form : ProviderApplicationIn
  pub status : String
  pub review_note : String
  pub reviewed_at : Option ℕ

pub record SettingsRow : Type 0 where
  pub user_id : ℕ
  pub share_bps : ℕ

pub record Site : Type 0 where
  pub users : Table UserRow
  pub verifications : Table VerificationRow
  pub applications : Table ApplicationRow
  pub settings : Table SettingsRow

abbrev pub SiteAction : Type 0 → Type 0
SiteAction A = Site → Result A × Site

-- An action on one of the tables.
abbrev pub on_users : {A : Type 0} → TableAction UserRow A → SiteAction A
on_users m s = let (r, t) = m s.users in (r, record s { users = t })

abbrev pub on_verifications : {A : Type 0} → TableAction VerificationRow A → SiteAction A
on_verifications m s = let (r, t) = m s.verifications in (r, record s { verifications = t })

abbrev pub on_applications : {A : Type 0} → TableAction ApplicationRow A → SiteAction A
on_applications m s = let (r, t) = m s.applications in (r, record s { applications = t })

abbrev pub on_settings : {A : Type 0} → TableAction SettingsRow A → SiteAction A
on_settings m s = let (r, t) = m s.settings in (r, record s { settings = t })

infixl 5 ◌>>=◌ ◌>>◌
abbrev pub ◌>>=◌ : {A B : Type 0} → SiteAction A → (A → SiteAction B) → SiteAction B
◌>>=◌ m f s = let (r, s') = m s in elim r [ ok a ↦ f a s' | err e ↦ (err e, s') ]

abbrev pub ◌>>◌ : {A B : Type 0} → SiteAction A → SiteAction B → SiteAction B
m >> k = m >>= λ _. k

abbrev pub finish : {A : Type 0} → A → SiteAction A
finish a s = (ok a, s)

abbrev pub found_or : {A : Type 0} → Option A → Error → SiteAction A
found_or none e s = (err e, s)
found_or (some a) e s = (ok a, s)

abbrev pub refuse_if : Bool → Error → SiteAction (Unit {0})
refuse_if c e s = (if c then err e else ok tt, s)

-- What an action answers to a failure of the other.
abbrev pub or_else : {A : Type 0} → SiteAction A → SiteAction A → SiteAction A
or_else m k s = let (r, s') = m s in elim r [ ok a ↦ (ok a, s') | err e ↦ k s' ]

abbrev pub unless_ok : {A : Type 0} → A → SiteAction A → SiteAction A
unless_ok a m s = let (r, s') = m s in elim r [ ok b ↦ (ok b, s') | err e ↦ (ok a, s') ]
