-- ===== src/Override/Passing.antt =====
-- Passing the client's headers on (server/internal/relay/override) never passes a header on that says who
-- the client is or how its connection is framed.
use token_flux.Base.{
  Bool, true, false, not, ◌||◌, Option, none, some, List, [], ◌∷◌, ◌≡◌, refl, ap, ◌∙◌, arith,
  Bool-cases, Option-cases, inl, inr,
}
use token_flux.Override.Text.{Text, Map, codes, text_eq, get_key, put_key, is_unsafe_header}
use token_flux.Bytes.Laws.{text_eq_sound, get_key-put_key}
use token_flux.Override.Value.{Headers, headers, Context}
use token_flux.Override.Headers.{
  headers_of, get_runtime_headers, with_headers, pass_safe, op_pass_headers, nonempty_first,
  pass_matching, pass_from,
}

pub get_runtime_headers-with_headers :
    (f : Headers → Headers) (ctx : Context)
    → get_runtime_headers (with_headers f ctx) ≡ f (get_runtime_headers ctx)
unfolding get_runtime_headers with_headers text_eq
get_runtime_headers-with_headers f ctx =
    let key = codes "header_override" in
    ap headers_of (get_key-put_key key key (headers (f (get_runtime_headers ctx))) ctx)

module _ (k : Text) (u : is_unsafe_header k ≡ true) where
  -- A safe header is another one.
  put-safe :
      (j v : Text) (h : Headers)
      → is_unsafe_header j ≡ false
      → get_key k (put_key j v h) ≡ get_key k h
  put-safe j v h s = elim (Bool-cases (text_eq j k)) [
    | inl e ↦ ground (arith, u, s, ap is_unsafe_header (text_eq_sound j k e))
    | inr e ↦ get_key-put_key k j v h ∙ rw e refl
  ]

  get_key-pass_safe : (req h : Headers) → get_key k (pass_safe req h) ≡ get_key k h
  unfolding pass_safe
  get_key-pass_safe [] h = refl
  get_key-pass_safe ((j, v) ∷ req) h = elim (Bool-cases (is_unsafe_header j)) [
    | inl e ↦ rw e (get_key-pass_safe req h)
    | inr e ↦ rw e (get_key-pass_safe req (put_key j v h) ∙ put-safe j v h e)
  ]

  get_key-pass_matching :
      (matches : Text → Bool) (req : Map (List Text)) (h : Headers)
      → get_key k (pass_matching matches req h) ≡ get_key k h
  unfolding pass_matching
  get_key-pass_matching matches [] h = refl
  get_key-pass_matching matches ((j, vs) ∷ req) h =
      elim (Bool-cases (is_unsafe_header j || not (matches j))) [
        | inl e ↦ rw e (get_key-pass_matching matches req h)
        | inr e ↦ elim (Option-cases (nonempty_first vs)) [
          | inl n ↦ rw (e, n) (get_key-pass_matching matches req h)
          | inr (v, n) ↦
              rw (e, n)
                (get_key-pass_matching matches req (put_key j v h)
                  ∙ put-safe j v h (ground (arith, e)))
        ]
      ]

  get_key-pass_from :
      (matches : Text → Bool) (req : Option (Map (List Text))) (h : Headers)
      → get_key k (pass_from matches req h) ≡ get_key k h
  get_key-pass_from matches none h = refl
  get_key-pass_from matches (some req) h = get_key-pass_matching matches req h

-- `pass_headers`, and the rules of a channel that pass on all client headers or those whose name
-- matches, leave every header with an unsafe name as it was.
pub pass_headers-safe :
    (k : Text) (ctx : Context) (matches : Text → Bool) (req : Option (Map (List Text)))
    (result : Headers)
    → is_unsafe_header k ≡ true
    → (get_key k (get_runtime_headers (op_pass_headers ctx)) ≡ get_key k (get_runtime_headers ctx))
      × (get_key k (pass_from matches req result) ≡ get_key k result)
unfolding op_pass_headers
pass_headers-safe k ctx matches req result u =
    let client = headers_of (get_key (codes "request_headers") ctx) in
    (
      ap (get_key k) (get_runtime_headers-with_headers (pass_safe client) ctx)
          ∙ get_key-pass_safe k u client (get_runtime_headers ctx),
      get_key-pass_from k u matches req result,
    )
