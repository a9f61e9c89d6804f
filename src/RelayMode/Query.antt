-- ===== src/RelayMode/Query.antt =====
-- The mode of a request does not depend on the query of its path (server/internal/relay/constant/relay_mode.go).
use token_flux.Base.{
  ℕ, zero, suc, true, false, Bool-cases, inl, inr, none, [], ◌∷◌, ◌++◌, length, ◌≡◌, refl, ap, ◌∙◌,
  arith,
}
use token_flux.Bytes.{Text, codes, drop, has_prefix, trim_prefix, index_of_str}
use token_flux.Bytes.Laws.{Absent, index_of_str-first, take-append}
use token_flux.RelayMode.{without_query, trimmed, mode_of_trimmed, path_to_relay_mode}

-- A prefix without the byte `c` does not see what starts with it.
has_prefix-stop : (s p t : Text) (c : ℕ) → Absent c p → has_prefix (s ++ c ∷ t) p ≡ has_prefix s p
unfolding Absent has_prefix
has_prefix-stop [] [] t c h = refl
has_prefix-stop (a ∷ s) [] t c h = refl
has_prefix-stop [] (b ∷ p) t c (n, h) = ground (arith, n)
has_prefix-stop (a ∷ s) (b ∷ p) t c (n, h) = rw (has_prefix-stop s p t c h) refl

has_prefix-drop :
    (s p t : Text) → has_prefix s p ≡ true → drop (length p) (s ++ t) ≡ drop (length p) s ++ t
unfolding has_prefix drop
has_prefix-drop s [] t h = refl
has_prefix-drop [] (b ∷ p) t h = ground (arith, h)
has_prefix-drop (a ∷ s) (b ∷ p) t h = has_prefix-drop s p t (ground (arith, h))

Absent-drop : (c n : ℕ) (s : Text) → Absent c s → Absent c (drop n s)
unfolding Absent drop
Absent-drop c zero s h = h
Absent-drop c (suc n) [] h = h
Absent-drop c (suc n) (b ∷ s) (e, h) = Absent-drop c n s h

trim_prefix-stop :
    (s p t : Text) (c : ℕ) → Absent c p → trim_prefix (s ++ c ∷ t) p ≡ trim_prefix s p ++ c ∷ t
unfolding trim_prefix
trim_prefix-stop s p t c h = elim (Bool-cases (has_prefix s p)) [
  | inl e ↦ rw (has_prefix-stop s p t c h, e) (has_prefix-drop s p (c ∷ t) e)
  | inr e ↦ rw (has_prefix-stop s p t c h, e) refl
]

Absent-trim_prefix : (c : ℕ) (s p : Text) → Absent c s → Absent c (trim_prefix s p)
unfolding trim_prefix
Absent-trim_prefix c s p h = elim (Bool-cases (has_prefix s p)) [
  | inl e ↦ rw e (Absent-drop c (length p) s h)
  | inr e ↦ rw e h
]

without_query-cut : (s t : Text) → Absent b'?' s → without_query (s ++ b'?' ∷ t) ≡ s
unfolding without_query
without_query-cut s t h = rw (index_of_str-first b'?' s t h) (take-append s (b'?' ∷ t))

index_of_str-Absent : (c : ℕ) (s : Text) → Absent c s → index_of_str s (c ∷ []) ≡ none
unfolding Absent index_of_str has_prefix
index_of_str-Absent c [] h = refl
index_of_str-Absent c (b ∷ s) (n, h) = rw (n, index_of_str-Absent c s h) refl

without_query-same : (s : Text) → Absent b'?' s → without_query s ≡ s
unfolding without_query
without_query-same s h = rw (index_of_str-Absent b'?' s h) refl

-- What the trimming leaves of a path and a query.
trimmed-query : (path query : Text) → trimmed (path ++ b'?' ∷ query) ≡ trimmed path ++ b'?' ∷ query
unfolding trimmed Absent
trimmed-query path query =
    ap (λ s. trim_prefix s (codes "/v1"))
      (trim_prefix-stop path (codes "/v1beta") query b'?'
        (refl, (refl, (refl, (refl, (refl, (refl, (refl, tt))))))))
    ∙ trim_prefix-stop (trim_prefix path (codes "/v1beta")) (codes "/v1") query b'?'
        (refl, (refl, (refl, tt)))

mode_of_trimmed-query :
    (path query : Text)
    → Absent b'?' path
    → has_prefix path (codes "/mj/") ≡ false
    → has_prefix path (codes "/suno/") ≡ false
    → mode_of_trimmed (path ++ b'?' ∷ query) ≡ mode_of_trimmed path
unfolding mode_of_trimmed Absent
mode_of_trimmed-query path query a m s =
    rw
      (
        has_prefix-stop path (codes "/mj/") query b'?' (refl, (refl, (refl, (refl, tt)))),
        m,
        has_prefix-stop path (codes "/suno/") query b'?'
            (refl, (refl, (refl, (refl, (refl, (refl, tt)))))),
        s,
        without_query-cut path query a,
        without_query-same path a,
      )
      refl

-- The mode of a path that is not one of Midjourney's or Suno's is the same with a query as without.
pub path_to_relay_mode-query :
    (path query : Text)
    → Absent b'?' path
    → has_prefix (trimmed path) (codes "/mj/") ≡ false
    → has_prefix (trimmed path) (codes "/suno/") ≡ false
    → path_to_relay_mode (path ++ b'?' ∷ query) ≡ path_to_relay_mode path
unfolding path_to_relay_mode
path_to_relay_mode-query path query a m s =
    ap mode_of_trimmed (trimmed-query path query)
    ∙ mode_of_trimmed-query (trimmed path) query
        (Absent-trim_prefix b'?' (trim_prefix path (codes "/v1beta")) (codes "/v1")
          (Absent-trim_prefix b'?' path (codes "/v1beta") a))
        m s
