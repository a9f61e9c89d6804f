-- ===== src/Override/Ensure.antt =====
-- `opEnsurePrefix` and `opEnsureSuffix` of server/internal/relay/override/operations.go.
use token_flux.Base.{
  ◌-◌, true, Bool-cases, inl, inr, Option, none, some, ◌++◌, length, length-append, ◌≡◌, refl, ap,
  arith, if◌then◌else◌,
}
use token_flux.Override.Text.{Text, has_prefix, has_suffix}
use token_flux.Bytes.Laws.{has_prefix-append, drop-append, text_eq_refl}
use token_flux.Override.Value.{Value, text, Library, done}
use token_flux.Override.Operations.{
  written, on_string, ensured_prefix, ensured_suffix, op_ensure_prefix, op_ensure_suffix,
}

has_suffix-append : (s p : Text) → has_suffix (s ++ p) p ≡ true
unfolding has_suffix
has_suffix-append s p =
    let e : length (s ++ p) - length p ≡ length s = omega (arith, length-append s p) in
    rw (e, drop-append s p, text_eq_refl p) (ground (arith, length-append s p))

ensured_prefix-has : (p s : Text) → has_prefix (ensured_prefix p s) p ≡ true
unfolding ensured_prefix
ensured_prefix-has p s = elim (Bool-cases (has_prefix s p)) [
  | inl e ↦ rw (e, e) refl
  | inr e ↦ rw e (has_prefix-append p s)
]

ensured_suffix-has : (p s : Text) → has_suffix (ensured_suffix p s) p ≡ true
unfolding ensured_suffix
ensured_suffix-has p s = elim (Bool-cases (has_suffix s p)) [
  | inl e ↦ rw (e, e) refl
  | inr e ↦ rw e (has_suffix-append s p)
]

ensured_prefix-fixed : (p s : Text) → ensured_prefix p (ensured_prefix p s) ≡ ensured_prefix p s
unfolding ensured_prefix
ensured_prefix-fixed p s =
    ap (λ b. if b then ensured_prefix p s else p ++ ensured_prefix p s) (ensured_prefix-has p s)

ensured_suffix-fixed : (p s : Text) → ensured_suffix p (ensured_suffix p s) ≡ ensured_suffix p s
unfolding ensured_suffix
ensured_suffix-fixed p s =
    ap (λ b. if b then ensured_suffix p s else ensured_suffix p s ++ p) (ensured_suffix-has p s)

written-done : {A : Type 0} (o : Option A) (a : A) → written o ≡ done a → o ≡ some a
unfolding written
written-done none a h = ground (arith, h)
written-done (some b) a h = cc h

-- A rewritten string is there, and a rule that keeps it writes it once more.
on_string-fixed :
    (L : Library) (f : Text → Text) (body body' : L.Doc) (path s : Text)
    → ((t : Text) → L.set body path (text t) ≡ some body' → L.get body' path ≡ some (text t))
    → f (f s) ≡ f s
    → L.get body path ≡ some (text s)
    → on_string L f body path ≡ done body'
    → (L.get body' path ≡ some (text (f s)))
      × (on_string L f body' path ≡ written (L.set body' path (text (f s))))
unfolding on_string
on_string-fixed L f body body' path s put fixed g h =
    let w : written (L.set body path (text (f s))) ≡ done body' = rw (g, on_string) at h in
    let r = put (f s) (written-done (L.set body path (text (f s))) body' w) in
    (r, rw (r, on_string, fixed) refl)

-- Where the body holds a string and the written string is what is read back, a rule `ensure_prefix` that
-- succeeds leaves a string with the prefix, which the same rule would write again unchanged; and so for
-- `ensure_suffix`.
pub op_ensure-idempotent :
    (L : Library) (body first second : L.Doc) (path s : Text) (value : Value)
    → ((t : Text) (d : L.Doc) → L.set body path (text t) ≡ some d → L.get d path ≡ some (text t))
    → L.get body path ≡ some (text s)
    → op_ensure_prefix L body path value ≡ done first
    → op_ensure_suffix L body path value ≡ done second
    → ((t : Text) × (L.get first path ≡ some (text t))
        × (has_prefix t (L.sprint value) ≡ true)
        × (op_ensure_prefix L first path value ≡ written (L.set first path (text t))))
      × ((t : Text) × (L.get second path ≡ some (text t))
          × (has_suffix t (L.sprint value) ≡ true)
          × (op_ensure_suffix L second path value ≡ written (L.set second path (text t))))
unfolding op_ensure_prefix op_ensure_suffix
op_ensure-idempotent L body first second path s value put g h k =
    let p = L.sprint value in
    let (a, b) =
      on_string-fixed L (ensured_prefix p) body first path s (λ t. put t first)
        (ensured_prefix-fixed p s) g h in
    let (c, d) =
      on_string-fixed L (ensured_suffix p) body second path s (λ t. put t second)
        (ensured_suffix-fixed p s) g k in
    (
      (ensured_prefix p s, a, ensured_prefix-has p s, b),
      (ensured_suffix p s, c, ensured_suffix-has p s, d),
    )
