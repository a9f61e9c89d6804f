-- ===== src/Override/Logic.antt =====
-- What the conditions of a rule mean: `checkConditions` of server/internal/relay/override/override.go
-- against the plain reading of AND and OR.
use token_flux.Base.{
  Bool, true, false, ◌&&◌, ◌||◌, Option, none, some, List, [], ◌∷◌, ◌≡◌, refl, arith, Bool-cases,
  inl, inr, if◌then◌else◌,
}
use token_flux.Override.Text.{Text}
use token_flux.Override.Value.{Context, Entry, Condition, Library}
use token_flux.Override.Conditions.{
  is_and, resolve_context_path, condition_target, condition_matched, check_one, check_each,
  check_conditions,
}

module _ (L : Library) (body : L.Doc) (ctx : Context) where
  -- What a condition is about.
  abbrev pub target_of : Condition → Option Entry
  target_of cond = condition_target L body ctx (resolve_context_path L cond.path ctx)

  -- Whether a condition finds its value and matches it; `missing` is the answer when it finds none.
  unfoldable pub matches_or : Bool → Option Entry → Condition → Bool
  matches_or missing none cond = missing
  matches_or missing (some target) cond = condition_matched L target cond

  unfoldable pub all_match : List Condition → Bool
  all_match [] = true
  all_match (cond ∷ conds) =
      matches_or cond.pass_missing_key (target_of cond) cond && all_match conds

  unfoldable pub any_matches : List Condition → Bool
  any_matches [] = false
  any_matches (cond ∷ conds) = matches_or false (target_of cond) cond || any_matches conds

  check_one-true :
      (cond : Condition) (o : Option Entry) (rest : Bool)
      → check_one L true cond o rest ≡ (matches_or cond.pass_missing_key o cond && rest)
  unfolding check_one matches_or
  check_one-true cond none rest = ground arith
  check_one-true cond (some target) rest = ground arith

  check_one-false :
      (cond : Condition) (o : Option Entry) (rest : Bool)
      → check_one L false cond o rest ≡ (matches_or false o cond || rest)
  unfolding check_one matches_or
  check_one-false cond none rest = ground arith
  check_one-false cond (some target) rest = ground arith

  check_each-true : (conds : List Condition) → check_each L body ctx true conds ≡ all_match conds
  unfolding check_each all_match
  check_each-true [] = refl
  check_each-true (cond ∷ conds) =
      rw (check_each-true conds) (check_one-true cond (target_of cond) (all_match conds))

  check_each-false :
      (conds : List Condition) → check_each L body ctx false conds ≡ any_matches conds
  unfolding check_each any_matches
  check_each-false [] = refl
  check_each-false (cond ∷ conds) =
      rw (check_each-false conds) (check_one-false cond (target_of cond) (any_matches conds))

-- A rule without conditions applies. With the logic AND it applies exactly when every condition matches,
-- where one whose value is missing counts as its `pass_missing_key` says; with any other logic exactly
-- when some condition finds its value and matches it, whatever `pass_missing_key` says.
pub check_conditions-reference :
    (L : Library) (body : L.Doc) (ctx : Context) (conds : List Condition) (logic : Text)
    → check_conditions L body ctx conds logic ≡ elim conds [
      | [] ↦ true
      | cond ∷ rest ↦
          if is_and logic
          then all_match L body ctx (cond ∷ rest)
          else any_matches L body ctx (cond ∷ rest)
    ]
unfolding check_conditions
check_conditions-reference L body ctx [] logic = refl
check_conditions-reference L body ctx (cond ∷ rest) logic = elim (Bool-cases (is_and logic)) [
  | inl e ↦ rw e (check_each-true L body ctx (cond ∷ rest))
  | inr e ↦ rw e (check_each-false L body ctx (cond ∷ rest))
]
