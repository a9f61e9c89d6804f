-- ===== src/Override/Replace.antt =====
-- `replaceAllStr` of server/internal/relay/override/override.go ends.
use token_flux.Base.{
  ℕ, zero, suc, ◌+◌, ◌<◌, Option, none, some, ◌++◌, length, length-append, ◌≡◌, refl, sym, ap, ◌∙◌,
  arith, Option-cases, inl, inr,
}
use token_flux.Override.Text.{
  Text, take, drop, index_of_str, prepend, replace_loop, get_or, replace_all_str,
}
use token_flux.Bytes.Laws.{length-drop, index_of_str-split}

-- After an occurrence less of the text is left.
drop-lt :
    (s p : Text) (i : ℕ)
    → index_of_str s p ≡ some i
    → 0 < length p
    → length (drop (i + length p) s) < length s
drop-lt s p i h n =
    let e : length (take i s ++ p ++ drop (i + length p) s) ≡ length s =
      ap length (index_of_str-split s p i h) in
    omega (
      arith,
      n,
      e,
      length-append (take i s ++ p) (drop (i + length p) s),
      length-append (take i s) p,
      length-drop (i + length p) s,
    )

module _ (fuel : ℕ) (s old new : Text) where
  replace_loop-none : index_of_str s old ≡ none → replace_loop (suc fuel) s old new ≡ some s
  unfolding replace_loop
  replace_loop-none e = rw (e, replace_loop) refl

  replace_loop-some :
      (i : ℕ)
      → index_of_str s old ≡ some i
      → replace_loop (suc fuel) s old new
        ≡ prepend (take i s ++ new) (replace_loop fuel (drop (i + length old) s) old new)
  unfolding replace_loop
  replace_loop-some i e = rw (e, replace_loop) refl

prepend-some :
    (s t : Text) (o : Option Text) → prepend s o ≡ some t → (u : Text) × (o ≡ some u) × (t ≡ s ++ u)
prepend-some s t none h = ground (arith, h)
prepend-some s t (some u) h = (u, refl, cc h)

replace_loop-ends :
    (fuel : ℕ) (s old new : Text)
    → 0 < length old
    → length s < fuel
    → (t : Text) × (replace_loop fuel s old new ≡ some t)
unfolding replace_loop
replace_loop-ends zero s old new n h = absurd (omega (arith, h))
replace_loop-ends (suc fuel) s old new n h = elim (Option-cases (index_of_str s old)) [
  | inl e ↦ (s, replace_loop-none fuel s old new e)
  | inr (i, e) ↦
      let (t, et) =
        replace_loop-ends fuel (drop (i + length old) s) old new n
          (omega (arith, h, drop-lt s old i e n)) in
      (
        (take i s ++ new) ++ t,
        replace_loop-some fuel s old new i e ∙ ap (prepend (take i s ++ new)) et,
      )
]

-- A text that replaces itself.
replace_loop-same : (fuel : ℕ) (s old t : Text) → replace_loop fuel s old old ≡ some t → t ≡ s
unfolding replace_loop
replace_loop-same zero s old t h = ground (arith, h)
replace_loop-same (suc fuel) s old t h = elim (Option-cases (index_of_str s old)) [
  | inl e ↦ let n : some s ≡ some t = sym (replace_loop-none fuel s old old e) ∙ h in cc n
  | inr (i, e) ↦
      let rest = drop (i + length old) s in
      let (u, eu, et) =
        prepend-some (take i s ++ old) t (replace_loop fuel rest old old)
          (sym (replace_loop-some fuel s old old i e) ∙ h) in
      et
      ∙ ap (λ v. take i s ++ old ++ v) (replace_loop-same fuel rest old u eu)
      ∙ index_of_str-split s old i e
]

-- When the searched text is not empty the loop of `replaceAllStr` ends: a round for each byte, and
-- one, give its result. When the searched text also replaces itself, the text stays what it is.
pub replace_all_str-ends :
    (s old new : Text)
    → 0 < length old
    → (replace_loop (suc (length s)) s old new ≡ some (replace_all_str s old new))
      × (replace_all_str s old old ≡ s)
unfolding replace_all_str
replace_all_str-ends s old new n =
    let (t, et) = replace_loop-ends (suc (length s)) s old new n (omega arith) in
    let (u, eu) = replace_loop-ends (suc (length s)) s old old n (omega arith) in
    (rw et refl, ap (get_or s) eu ∙ replace_loop-same (suc (length s)) s old u eu)
