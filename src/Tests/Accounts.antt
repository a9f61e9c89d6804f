-- ===== src/Tests/Accounts.antt =====
-- A deleted key, and a user who has registered.
use token_flux.Base.{ℕ, ◌==◌, Bool, true, false, ◌&&◌, none, some, [], ◌∷◌, ◌≡◌, refl}
use token_flux.Bytes.{Text, codes, text_eq, take, has_prefix, index_of_str}
use token_flux.Store.{err, not_activated}
use token_flux.Table.{Table, change}
use token_flux.ApiKey.{
  ApiKeyRow, new_key, owned, revoked, answers, is_malformed, delete_api_key, validate_api_key,
}
use token_flux.ApiKey.Revoked.{delete_api_key-revokes}
use token_flux.Site.{Site}
use token_flux.Identity.{Crypto, Fails, user_of, verification_of, generate_code, register, login}
use token_flux.Identity.Verified.{login-register}

abbrev no_failure : ℕ → Bool
no_failure n = false

abbrev sample_key : ℕ → Text → ApiKeyRow
sample_key id key =
    new_key 7 key 100 (record { name = "build"; quota_credits = none; unlimited_quota = true }) id

abbrev two_keys : Table ApiKeyRow
two_keys = record {
  rows = sample_key 2 (codes "sk-b") ∷ sample_key 1 (codes "sk-a") ∷ [];
  next_id = 3;
  sent = 0;
}

abbrev one_revoked : Table ApiKeyRow
one_revoked = record {
  rows = revoked 200 (sample_key 2 (codes "sk-b")) ∷ sample_key 1 (codes "sk-a") ∷ [];
  next_id = 3;
  sent = 1;
}

abbrev asked : Table ApiKeyRow
asked = record one_revoked { sent = 2 }

delete_api_key-revokes_example : (1 == 2 && 7 == 7) ≡ false
unfolding delete_api_key validate_api_key owned answers is_malformed text_eq take change
delete_api_key-revokes_example =
    delete_api_key-revokes no_failure 200 300 7 2 (codes "sk-a") two_keys one_revoked asked
      (sample_key 1 (codes "sk-a")) refl refl

-- A package that hashes by prefixing and draws the same digit always.
abbrev plain_crypto : Crypto
plain_crypto = record {
  clean = λ s. s;
  renamed = λ s. 95 ∷ s;
  hash = λ p. some (36 ∷ p);
  matches = λ h p. text_eq h (36 ∷ p);
  sign = λ id name role. some name;
  draw = λ i. some 4;
}

abbrev all_well : Fails
all_well = record {
  of_users = no_failure;
  of_verifications = no_failure;
  of_applications = no_failure;
  of_settings = no_failure;
}

abbrev empty_site : Site
empty_site = record {
  users = record { rows = []; next_id = 1; sent = 0 };
  verifications = record { rows = []; next_id = 1; sent = 0 };
  applications = record { rows = []; next_id = 1; sent = 0 };
  settings = record { rows = []; next_id = 1; sent = 0 };
}

abbrev registered_site : Site
registered_site = record empty_site {
  users = record {
    rows = user_of (codes "a") (codes "a@b.c") (codes "$pw") "email" 0 0 50 1 ∷ [];
    next_id = 2;
    sent = 3;
  };
  verifications = record {
    rows = verification_of (codes "a@b.c") (codes "444444") 50 1 ∷ [];
    next_id = 2;
    sent = 1;
  };
}

login-register_example :
    (login plain_crypto all_well (codes "a@b.c") (codes "pw") registered_site).0 ≡ err not_activated
unfolding register login generate_code text_eq take index_of_str has_prefix
login-register_example =
    login-register plain_crypto all_well 50 (codes "a@b.c") (codes "pw") (codes "pw") empty_site
      registered_site refl refl
