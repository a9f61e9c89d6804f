-- ===== src/Override/Placeholders.antt =====
-- The loop of `resolveHeaderPlaceholder` (server/internal/relay/override/header.go): when it ends, and a
-- client header on which it does not.
use token_flux.Base.{
  ℕ, zero, suc, ◌+◌, ◌<◌, ◌≤◌, ◌==◌, true, Option, none, some, [], ◌∷◌, ◌++◌, length, ◌≡◌, refl, ap,
  arith, Option-cases, inl, inr, if◌then◌else◌,
}
use token_flux.Override.Text.{Text, codes, take, drop, has_prefix, replace_all_str, index_of_str}
use token_flux.Bytes.Laws.{Absent, index_of_str-first, index_of_str-prefix, take-drop, take-append}
use token_flux.Override.Value.{Library, RelayInfo}
use token_flux.Override.Headers.{
  first_value, values_of, resolve_header_placeholder, client_header_mark, fill, fill_from,
  next_placeholder, resolve_client_headers,
}

-- The opening braces in a text.
unfoldable pub braces : Text → ℕ
braces [] = 0
braces (c ∷ s) = if c == b'{' then suc (braces s) else braces s

braces-append : (s t : Text) → braces (s ++ t) ≡ braces s + braces t
unfolding braces
braces-append [] t = omega arith
braces-append (c ∷ s) t = ground (arith, braces-append s t)

braces-drop : (n : ℕ) (s : Text) → braces (drop n s) ≤ braces s
unfolding braces drop
braces-drop zero s = omega arith
braces-drop (suc n) [] = omega arith
braces-drop (suc n) (c ∷ s) = ground (arith, braces-drop n s)

-- The mark starts with a brace.
braces-mark :
    (n : ℕ) (s : Text) → has_prefix s client_header_mark ≡ true → braces (drop (suc n) s) < braces s
unfolding braces drop has_prefix
braces-mark n [] h = ground (arith, h)
braces-mark n (c ∷ s) h = ground (arith, h, braces-drop n s)

module _ (value : Text → Text) (s t : Text) (v : (name : Text) → braces (value name) ≡ 0) where
  fill-braces :
      (start : ℕ) (o : Option ℕ)
      → index_of_str s client_header_mark ≡ some start
      → fill value s start o ≡ some t
      → braces t < braces s
  unfolding fill
  fill-braces start none i h = ground (arith, h)
  fill-braces start (some end) i h =
      let tail = drop start s in
      let name = drop (length client_header_mark) (take end tail) in
      let e : t ≡ take start s ++ value name ++ drop (suc end) tail = cc h in
      let es : braces (take start s ++ tail) ≡ braces s = ap braces (take-drop start s) in
      rw e (
        omega (
          arith,
          es,
          v name,
          braces-append (take start s) tail,
          braces-append (take start s ++ value name) (drop (suc end) tail),
          braces-append (take start s) (value name),
          braces-mark end tail (index_of_str-prefix s client_header_mark start i),
        ))

  fill_from-braces :
      (o : Option ℕ)
      → index_of_str s client_header_mark ≡ o
      → fill_from value s o ≡ some t
      → braces t < braces s
  unfolding fill_from
  fill_from-braces none i h = ground (arith, h)
  fill_from-braces (some start) i h =
      fill-braces start (index_of_str (drop start s) (codes "}")) i h

  next_placeholder-braces : next_placeholder value s ≡ some t → braces t < braces s
  unfolding next_placeholder
  next_placeholder-braces h = fill_from-braces (index_of_str s client_header_mark) refl h

resolve-some :
    (fuel : ℕ) (value : Text → Text) (s : Text)
    → ((name : Text) → braces (value name) ≡ 0)
    → braces s < fuel
    → (t : Text) × (resolve_client_headers fuel value s ≡ some t)
unfolding resolve_client_headers
resolve-some zero value s v h = absurd (omega (arith, h))
resolve-some (suc fuel) value s v h = elim (Option-cases (next_placeholder value s)) [
  | inl e ↦ (s, rw (e, resolve_client_headers) refl)
  | inr (t, e) ↦
      let (u, eu) =
        resolve-some fuel value t v (omega (arith, h, next_placeholder-braces value s t v e)) in
      (u, rw (e, resolve_client_headers) eu)
]

-- The value of a client header, as the loop looks it up.
abbrev pub client_value : Library → RelayInfo → Text → Text
client_value L info name = first_value (values_of info.request_headers (L.canonical name))

-- When no client header has an opening brace in its value, the loop that fills the placeholders of a
-- template ends: a round for each opening brace of the template in which the key has been filled in, and one, are
-- enough.
pub resolve_header_placeholder-ends :
    (L : Library) (template : Text) (info : RelayInfo)
    → ((name : Text) → braces (client_value L info name) ≡ 0)
    → (result : Text) × (resolve_header_placeholder L
          (suc (braces (replace_all_str template (codes "{api_key}") info.api_key)))
          template
          info
        ≡ some result)
unfolding resolve_header_placeholder
resolve_header_placeholder-ends L template info v =
    let s = replace_all_str template (codes "{api_key}") info.api_key in
    resolve-some (suc (braces s)) (client_value L info) s v (omega arith)

drop-past : (s : Text) (c : ℕ) → drop (suc (length s)) (s ++ c ∷ []) ≡ []
unfolding drop
drop-past [] c = refl
drop-past (b ∷ s) c = drop-past s c

append_nil : (s : Text) → s ++ [] ≡ s
append_nil [] = refl
append_nil (c ∷ s) = ap (λ t. c ∷ t) (append_nil s)

-- A template that is one placeholder is filled with the value of the header.
next_placeholder-whole :
    (value : Text → Text) (name : Text)
    → Absent b'}' name
    → next_placeholder value (client_header_mark ++ name ++ codes "}") ≡ some (value name)
unfolding next_placeholder fill_from fill index_of_str take drop has_prefix
next_placeholder-whole value name h =
    rw
      (
        index_of_str-first b'}' name [] h,
        take-append name (b'}' ∷ []),
        drop-past name b'}',
        append_nil (value name),
      )
      refl

-- When the value that a client sends for a header is the placeholder of that header, a template that is
-- this placeholder is never filled: no number of rounds is enough.
pub resolve_client_headers-spins :
    (fuel : ℕ) (value : Text → Text) (name : Text)
    → Absent b'}' name
    → value name ≡ client_header_mark ++ name ++ codes "}"
    → resolve_client_headers fuel value (client_header_mark ++ name ++ codes "}") ≡ none
unfolding resolve_client_headers
resolve_client_headers-spins zero value name h e = refl
resolve_client_headers-spins (suc fuel) value name h e =
    rw (next_placeholder-whole value name h, resolve_client_headers, e)
      (resolve_client_headers-spins fuel value name h e)
