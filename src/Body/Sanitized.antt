-- ===== src/Body/Sanitized.antt =====
-- What `SanitizeFields` (server/internal/relay/helper/sanitize.go) leaves of a body.
use token_flux.Base.{
  Bool, true, false, not, ◌&&◌, ◌||◌, Option, none, some, ◌≡◌, refl, sym, ap, ◌∙◌, arith,
  Bool-cases, inl, inr, if◌then◌else◌,
}
use token_flux.Bytes.{Text, codes, text_eq}
use token_flux.Bytes.Laws.{text_eq_iff}
use token_flux.Json.{Value, Fields, end, field, Codec, find_field, has_field, delete_field, is_some}
use token_flux.Body.{ChannelSettings, strip_if, stripped, rewritten, sanitize_fields}

pub find_field-delete_field :
    (k name : Text) (fs : Fields)
    → find_field k (delete_field name fs) ≡ (if text_eq name k then none else find_field k fs)
unfolding find_field delete_field
find_field-delete_field k name end = ground arith
find_field-delete_field k name (field j v fs) = ground (
  arith,
  text_eq_iff j k,
  text_eq_iff j name,
  text_eq_iff name k,
  find_field-delete_field k name fs,
)

is_some-none : (o : Option Value) → is_some o ≡ false → o ≡ none
is_some-none none h = refl
is_some-none (some v) h = ground (arith, h)

module _ (name : Text) where
  -- A test removes its field, and only that; when nothing has changed, it has removed nothing.
  find_field-strip_if :
      (k : Text) (refused : Bool) (p : Fields × Bool)
      → find_field k (strip_if refused name p).0
        ≡ (if refused && text_eq name k then none else find_field k p.0)
  unfolding strip_if has_field
  find_field-strip_if k false p = refl
  find_field-strip_if k true p = elim (Bool-cases (is_some (find_field name p.0))) [
    | inl e ↦ rw e (find_field-delete_field k name p.0)
    | inr e ↦ elim (Bool-cases (text_eq name k)) [
      | inl f ↦
          rw (e, f)
            (ap (λ j. find_field j p.0) (sym ((text_eq_iff name k).0 f))
              ∙ is_some-none (find_field name p.0) e)
      | inr f ↦ rw (e, f) refl
    ]
  ]

  strip_if-same :
      (refused : Bool) (p : Fields × Bool)
      → (strip_if refused name p).1 ≡ false
      → strip_if refused name p ≡ p
  unfolding strip_if has_field
  strip_if-same false p h = refl
  strip_if-same true p h = elim (Bool-cases (is_some (find_field name p.0))) [
    | inl e ↦ let n : true ≡ false = rw e at h in absurd (ground (arith, n))
    | inr e ↦ rw e refl
  ]

  strip_if-unchanged :
      (refused : Bool) (p : Fields × Bool) → (strip_if refused name p).1 ≡ false → p.1 ≡ false
  strip_if-unchanged refused p h = sym (ap (λ q. q.1) (strip_if-same refused p h)) ∙ h

-- The fields that the settings of a channel refuse.
unfoldable pub removed : ChannelSettings → Text → Bool
removed s k =
    (not s.allow_service_tier && text_eq (codes "service_tier") k)
    || (not s.allow_inference_geo && text_eq (codes "inference_geo") k)
    || (not s.allow_speed && text_eq (codes "speed") k)
    || (s.disable_store && text_eq (codes "store") k)
    || (not s.allow_safety_identifier && text_eq (codes "safety_identifier") k)

find_field-stripped :
    (k : Text) (s : ChannelSettings) (fs : Fields)
    → find_field k (stripped s fs).0 ≡ (if removed s k then none else find_field k fs)
unfolding stripped removed
find_field-stripped k s fs =
    let tier = strip_if (not s.allow_service_tier) (codes "service_tier") (fs, false) in
    let geo = strip_if (not s.allow_inference_geo) (codes "inference_geo") tier in
    let speed = strip_if (not s.allow_speed) (codes "speed") geo in
    let store = strip_if s.disable_store (codes "store") speed in
    rw
      (
        find_field-strip_if (codes "safety_identifier") k (not s.allow_safety_identifier) store,
        find_field-strip_if (codes "store") k s.disable_store speed,
        find_field-strip_if (codes "speed") k (not s.allow_speed) geo,
        find_field-strip_if (codes "inference_geo") k (not s.allow_inference_geo) tier,
        find_field-strip_if (codes "service_tier") k (not s.allow_service_tier) (fs, false),
      )
      (ground arith)

-- A body that is left as it is has nothing to remove.
stripped-same :
    (s : ChannelSettings) (fs : Fields) → (stripped s fs).1 ≡ false → (stripped s fs).0 ≡ fs
unfolding stripped
stripped-same s fs h =
    let tier = strip_if (not s.allow_service_tier) (codes "service_tier") (fs, false) in
    let geo = strip_if (not s.allow_inference_geo) (codes "inference_geo") tier in
    let speed = strip_if (not s.allow_speed) (codes "speed") geo in
    let store = strip_if s.disable_store (codes "store") speed in
    let h4 =
      strip_if-unchanged (codes "safety_identifier") (not s.allow_safety_identifier) store h in
    let h3 = strip_if-unchanged (codes "store") s.disable_store speed h4 in
    let h2 = strip_if-unchanged (codes "speed") (not s.allow_speed) geo h3 in
    let h1 = strip_if-unchanged (codes "inference_geo") (not s.allow_inference_geo) tier h2 in
    ap (λ q. q.0)
      (strip_if-same (codes "safety_identifier") (not s.allow_safety_identifier) store h
        ∙ strip_if-same (codes "store") s.disable_store speed h4
        ∙ strip_if-same (codes "speed") (not s.allow_speed) geo h3
        ∙ strip_if-same (codes "inference_geo") (not s.allow_inference_geo) tier h2
        ∙ strip_if-same (codes "service_tier") (not s.allow_service_tier) (fs, false) h1)

decode-rewritten :
    (C : Codec) (body : C.Body) (fs : Fields) (p : Fields × Bool)
    → ((gs : Fields) → C.decode (C.encode gs) ≡ some gs)
    → C.decode body ≡ some fs
    → (p.1 ≡ false → p.0 ≡ fs)
    → C.decode (rewritten C body p) ≡ some p.0
decode-rewritten C body fs (gs, true) law d same = law gs
decode-rewritten C body fs (gs, false) law d same = d ∙ ap some (sym (same refl))

-- Where the channel does not pass bodies through, the body is a JSON object and what is encoded is decoded
-- again, the sanitized body is an object with the fields of the body, less those that the settings
-- of the channel refuse: service_tier, inference_geo, speed and safety_identifier unless they are
-- allowed, and store if it is disabled.
pub sanitize_fields-removes :
    (C : Codec) (body : C.Body) (s : ChannelSettings) (fs : Fields)
    → ((gs : Fields) → C.decode (C.encode gs) ≡ some gs)
    → s.pass_through_body_enabled ≡ false
    → C.decode body ≡ some fs
    → (gs : Fields) × (C.decode (sanitize_fields C body s) ≡ some gs)
      × ((k : Text) → find_field k gs ≡ (if removed s k then none else find_field k fs))
unfolding sanitize_fields stripped
sanitize_fields-removes C body s fs law pass d = (
  (stripped s fs).0,
  rw (pass, d, sanitize_fields)
      (decode-rewritten C body fs (stripped s fs) law d (stripped-same s fs)),
  λ k. find_field-stripped k s fs,
)
