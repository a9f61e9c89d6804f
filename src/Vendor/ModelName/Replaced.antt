-- ===== src/Vendor/ModelName/Replaced.antt =====
-- What the two functions that replace a model's name make of a body.
use token_flux.Base.{
  ℕ, zero, suc, ◌+◌, ◌-◌, none, some, [], ◌∷◌, ◌++◌, length, ◌≡◌, refl, ap, ap₂, sym, ◌∙◌, arith,
  length-append,
}
use mathlib.Core.List.{append_assoc}
use token_flux.Bytes.{Text, take, drop, index_of_str}
use token_flux.Bytes.Laws.{take-append, drop-append, index_of_str-first, Absent}
use token_flux.Vendor.ModelName.{
  marker, quote, at_marker, replace_value, replace_values, replace_model_name,
  replace_claude_model_name,
}

replace_values-none :
    (fuel : ℕ) (inserted body : Text)
    → index_of_str body marker ≡ none
    → replace_values fuel inserted body ≡ body
unfolding replace_values
replace_values-none zero inserted body h = refl
replace_values-none (suc fuel) inserted body h =
    ap (at_marker inserted (replace_values fuel inserted) body) h

take-prefix : (a b s : Text) → take (length a + length b) (a ++ (b ++ s)) ≡ a ++ b
take-prefix a b s = rw (sym (length-append a b), sym (append_assoc a b s)) (take-append (a ++ b) s)

drop-prefix : (a b s : Text) → drop (length a + length b) (a ++ (b ++ s)) ≡ s
drop-prefix a b s = rw (sym (length-append a b), sym (append_assoc a b s)) (drop-append (a ++ b) s)

drop-suc_append : (s : Text) (c : ℕ) (t : Text) → drop (suc (length s)) (s ++ c ∷ t) ≡ t
unfolding drop
drop-suc_append [] c t = refl
drop-suc_append (b ∷ s) c t = drop-suc_append s c t

replace_values-once :
    (fuel : ℕ) (inserted before old after : Text)
    → index_of_str (before ++ (marker ++ (old ++ b'"' ∷ after))) marker ≡ some (length before)
    → Absent b'"' old
    → index_of_str after marker ≡ none
    → replace_values (suc fuel) inserted (before ++ (marker ++ (old ++ b'"' ∷ after)))
      ≡ before ++ (marker ++ (inserted ++ after))
unfolding replace_values
replace_values-once fuel inserted before old after first_one none_in none_after =
    let again : Text → Text = replace_values fuel inserted in
    let rest : Text = old ++ b'"' ∷ after in
    ap (at_marker inserted again (before ++ (marker ++ rest))) first_one
    ∙ ap₂ (λ s t. s ++ replace_value inserted again t (index_of_str t quote))
        (take-prefix before marker rest) (drop-prefix before marker rest)
    ∙ ap (λ o. (before ++ marker) ++ replace_value inserted again rest o)
        (index_of_str-first b'"' old after none_in)
    ∙ ap (λ t. (before ++ marker) ++ (inserted ++ again t)) (drop-suc_append old b'"' after)
    ∙ ap (λ t. (before ++ marker) ++ (inserted ++ t))
        (replace_values-none fuel inserted after none_after)
    ∙ append_assoc before marker (inserted ++ after)

-- In a body with one model, whose name holds no quote, the adaptor for OpenAI puts the new name in place of the old
-- one. The adaptor for Claude leaves the marker twice, so that its body is no JSON.
pub replace_model_name-once :
    (name before old after : Text)
    → index_of_str (before ++ (marker ++ (old ++ b'"' ∷ after))) marker ≡ some (length before)
    → Absent b'"' old
    → index_of_str after marker ≡ none
    → (replace_model_name (before ++ (marker ++ (old ++ b'"' ∷ after))) name
        ≡ before ++ (marker ++ ((name ++ quote) ++ after)))
      × (replace_claude_model_name (before ++ (marker ++ (old ++ b'"' ∷ after))) name
          ≡ before ++ (marker ++ ((marker ++ (name ++ quote)) ++ after)))
unfolding replace_model_name replace_claude_model_name
replace_model_name-once name before old after first_one none_in none_after =
    let body : Text = before ++ (marker ++ (old ++ b'"' ∷ after)) in
    let rounds : length body ≡ suc (length body - 1) =
      omega (arith, length-append before (marker ++ (old ++ b'"' ∷ after))) in
    let once = λ (inserted : Text).
      ap (λ n. replace_values n inserted body) rounds
      ∙ replace_values-once (length body - 1) inserted before old after first_one none_in
          none_after in
    (once (name ++ quote), once (marker ++ (name ++ quote)))
