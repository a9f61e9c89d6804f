-- ===== src/Identity/Verified.antt =====
-- What server/internal/logic/identity/user.go promises of logins and of reviews.
use token_flux.Base.{
  ℕ, zero, suc, ◌==◌, Bool, true, false, Option, none, some, String, str_eq, ◌≡◌, refl, arith,
  first, length, inl, inr, Option-cases,
}
use token_flux.Bytes.{Text}
use token_flux.Bytes.Laws.{text_eq_refl}
use token_flux.Store.{ok, err, not_activated, not_pending}
use token_flux.Table.{first_sound, first-change}
use token_flux.Site.{UserRow, ApplicationRow, Site}
use token_flux.Identity.{
  Crypto, Fails, has_email, digit, generate_code, register, login, update_user_role,
  set_provider_share_bps, review_provider_application,
}

digit-length :
    (d : Option ℕ) (ds : Option Text) (n : ℕ) (code : Text)
    → ((rest : Text) → ds ≡ some rest → length rest ≡ n)
    → digit d ds ≡ some code
    → length code ≡ suc n
digit-length none ds n code rest h = ground arith
digit-length (some k) none n code rest h = ground arith
digit-length (some k) (some c) n code rest h = let this = rest c refl in ground (arith, this)

-- A code has as many digits as are asked for.
pub generate_code-length :
    (draw : ℕ → Option ℕ) (count i : ℕ) (code : Text)
    → generate_code draw count i ≡ some code
    → length code ≡ count
unfolding generate_code
generate_code-length draw zero i code h = ground arith
generate_code-length draw (suc count) i code h =
    digit-length (draw i) (generate_code draw count (suc i)) count code
      (generate_code-length draw count (suc i)) h

-- A login hands out a token only for an active user of that address whose password matches, and the token is the
-- one signed for that user; it changes no row of any table.
pub login_sound :
    (C : Crypto) (fails : Fails) (raw password token : Text) (r : UserRow) (s s' : Site)
    → login C fails raw password s ≡ (ok (token, r), s')
    → (has_email (C.clean raw) r ≡ true)
      × (r.status ≡ 1)
      × (C.matches r.password password ≡ true)
      × (C.sign r.id r.username r.role ≡ some token)
      × (s'.users.rows ≡ s.users.rows)
unfolding login
login_sound C fails raw password token r s s' h =
    let sound = first_sound (has_email (C.clean raw)) s.users.rows r in ground (arith, sound)

-- A user who has just registered is refused until the address is verified, whatever the password.
pub login-register :
    (C : Crypto) (fails : Fails) (now : ℕ) (raw password other : Text) (s s' : Site)
    → register C fails now raw password s ≡ (ok tt, s')
    → fails.of_users s'.users.sent ≡ false
    → (login C fails raw other s').0 ≡ err not_activated
unfolding login register
login-register C fails now raw password other s s' done sent =
    let same = text_eq_refl (C.clean raw) in ground (arith, same)

-- An application is decided once: after a review that ended well and set another status, any further review of it
-- is refused.
pub review_provider_application-again :
    (C : Crypto) (fails : Fails) (now later id : ℕ) (status again note other : String)
    (share bps : ℕ) (s s' : Site)
    → review_provider_application C fails now id status note share s ≡ (ok tt, s')
    → str_eq status "pending" ≡ false
    → fails.of_applications s'.applications.sent ≡ false
    → (review_provider_application C fails later id again other bps s').0 ≡ err not_pending
unfolding review_provider_application update_user_role set_provider_share_bps
review_provider_application-again C fails now later id status again note other share bps s s' done
      set sent =
    let test : ApplicationRow → Bool = λ r. r.id == id in
    let review : ApplicationRow → ApplicationRow =
      λ r. record r { status = status; review_note = note; reviewed_at = some now } in
    elim (Option-cases (first test s.applications.rows)) [
      | inl e ↦ ground (arith, e)
      | inr (a, e) ↦
          let row = first-change test review s.applications.rows a (λ r. refl) e in
          ground (arith, row, e)
    ]
