-- ===== src/Body/CacheHash.antt =====
-- What `ComputeCacheHash` (server/internal/relay/common/cache_hash.go) does not see of a body.
use token_flux.Base.{true, false, some, List, [], ◌∷◌, ◌≡◌, refl, ap, arith, Bool-cases, inl, inr}
use token_flux.Bytes.{Text, text_eq, member}
use token_flux.Bytes.Laws.{text_eq_iff, text_eq_refl, text_eq_sound}
use token_flux.Json.{Value, Fields, end, field, Codec, set_field, delete_field}
use token_flux.Body.{
  exclude_cache_fields, delete_fields, Hashing, hash_kept, hash_fields, compute_cache_hash,
}

delete_field-set_field :
    (k : Text) (v : Value) (fs : Fields) → delete_field k (set_field k v fs) ≡ delete_field k fs
unfolding delete_field set_field
delete_field-set_field k v end = ground (arith, text_eq_iff k k)
delete_field-set_field k v (field j w fs) = elim (Bool-cases (text_eq j k)) [
  | inl e ↦ rw (e, e) refl
  | inr e ↦ rw (e, e, delete_field-set_field k v fs) refl
]

delete_field-other :
    (n k : Text) (v : Value) (fs : Fields)
    → text_eq k n ≡ false
    → delete_field n (set_field k v fs) ≡ set_field k v (delete_field n fs)
unfolding delete_field set_field
delete_field-other n k v end h = rw h refl
delete_field-other n k v (field j w fs) h = elim (Bool-cases (text_eq j k)) [
  | inl e ↦ rw (e, text_eq_sound j k e, h, text_eq_refl k) refl
  | inr e ↦ elim (Bool-cases (text_eq j n)) [
    | inl f ↦ rw (e, f) (delete_field-other n k v fs h)
    | inr f ↦ rw (e, f, e, delete_field-other n k v fs h) refl
  ]
]

delete_fields-set_field :
    (ks : List Text) (k : Text) (v : Value) (fs : Fields)
    → member k ks ≡ true
    → delete_fields ks (set_field k v fs) ≡ delete_fields ks fs
unfolding delete_fields member
delete_fields-set_field [] k v fs h = ground (arith, h)
delete_fields-set_field (n ∷ ks) k v fs h = elim (Bool-cases (text_eq k n)) [
  | inl e ↦ rw (text_eq_sound k n e, delete_field-set_field n v fs) refl
  | inr e ↦
      rw (delete_field-other n k v fs e)
        (delete_fields-set_field ks k v (delete_field n fs) (ground (arith, e, h)))
]

-- Two JSON bodies of which the second has another value for one of the fields that the source names have the
-- same hash; the fields that the source marks as ones that change the output, as temperature and
-- max_tokens, are no exception.
pub compute_cache_hash-ignores :
    (C : Codec) (h : Hashing) (bytes : C.Body → Text) (body changed : C.Body) (model_name k : Text)
    (v : Value) (fs : Fields)
    → member k exclude_cache_fields ≡ true
    → C.decode body ≡ some fs
    → C.decode changed ≡ some (set_field k v fs)
    → compute_cache_hash C h bytes changed model_name ≡ compute_cache_hash C h bytes body model_name
unfolding compute_cache_hash hash_fields
compute_cache_hash-ignores C h bytes body changed model_name k v fs m d e =
    rw (d, e, compute_cache_hash)
      (ap (hash_kept h model_name) (delete_fields-set_field exclude_cache_fields k v fs m))
