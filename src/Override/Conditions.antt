-- ===== src/Override/Conditions.antt =====
-- server/internal/relay/override/override.go: when a rule applies. `checkConditions`, `evaluateCondition`,
-- `resolveContextPath` and the comparison of numbers.
use token_flux.Base.{
  ℕ, suc, ◌-◌, ℤ, pos, negsuc, ltb_ℤ, leb_ℤ, leb, ltb, ◌==◌, Bool, true, false, not, ◌&&◌, Option,
  none, some, List, [], ◌∷◌, ◌++◌, length, if◌then◌else◌,
}
use token_flux.Override.Text.{
  Text, codes, text_eq, text_ltb, take, drop, has_suffix, index_of_str, contains_str,
  replace_all_str, is_digit, get_key,
}
use token_flux.Override.Value.{Value, Entry, plain, headers, Context, Condition, Library}
use token_flux.Override.Operations.{to_string}

-- `logic == "AND"`; anything else, the empty text too, is OR.
unfoldable pub is_and : Text → Bool
is_and logic = text_eq logic (codes "AND")

-- The first position after the first full stop.
unfoldable pub after_point : Text → Text
after_point s = elim (index_of_str s (codes ".")) [ none ↦ s | some i ↦ drop (suc i) s ]

module _ (L : Library) where
  -- The inner loop of `parseFloat`.
  unfoldable pub parse_fraction : L.Float → L.Float → Text → Option L.Float
  parse_fraction f dec [] = some f
  parse_fraction f dec (c ∷ s) =
      if is_digit c
      then parse_fraction (L.add f (L.div (L.of_int (c - b'0')) dec)) (L.mul dec (L.of_int 10)) s
      else none

  -- The outer loop; `whole` is the text from its start, `n` the digits met.
  unfoldable pub parse_float_from : Text → L.Float → ℕ → Text → Option L.Float
  parse_float_from whole f n [] = some f
  parse_float_from whole f n (c ∷ s) =
      if is_digit c
      then parse_float_from whole (L.add (L.mul f (L.of_int 10)) (L.of_int (c - b'0'))) (suc n) s
      else if c == b'.' && ltb 0 n
      then parse_fraction f (L.of_int 1) (after_point whole)
      else none

  unfoldable pub parse_float : Text → Option L.Float
  parse_float s = parse_float_from s (L.of_int 0) 0 s

  unfoldable pub compare_text : Text → Text → ℤ
  compare_text a b = if text_ltb a b then negsuc 0 else if text_ltb b a then pos 1 else pos 0

  unfoldable pub compare_float : L.Float → L.Float → ℤ
  compare_float a b = if L.less a b then negsuc 0 else if L.less b a then pos 1 else pos 0

  unfoldable pub compare_numeric : Text → Text → ℤ
  compare_numeric a b = elim (parse_float a) [
    | none ↦ compare_text a b
    | some af ↦ elim (parse_float b) [ none ↦ compare_text a b | some bf ↦ compare_float af bf ]
  ]

  -- `toString` and `fmt.Sprintf("%v", v)` on what the context holds.
  unfoldable pub entry_to_string : Entry → Text
  entry_to_string (plain v) = to_string L v
  entry_to_string (headers h) = L.sprint_headers h

  unfoldable pub sprint_entry : Entry → Text
  sprint_entry (plain v) = L.sprint v
  sprint_entry (headers h) = L.sprint_headers h

  -- The switch of `evaluateCondition`, on the printed values.
  unfoldable pub compare_by : Text → Text → Text → Bool
  compare_by mode target expected =
      if text_eq mode (codes "prefix")
      then leb (length expected) (length target) && text_eq (take (length expected) target) expected
      else if text_eq mode (codes "suffix")
      then has_suffix target expected
      else if text_eq mode (codes "contains")
      then contains_str target expected
      else if text_eq mode (codes "gt")
      then ltb_ℤ (pos 0) (compare_numeric target expected)
      else if text_eq mode (codes "gte")
      then leb_ℤ (pos 0) (compare_numeric target expected)
      else if text_eq mode (codes "lt")
      then ltb_ℤ (compare_numeric target expected) (pos 0)
      else if text_eq mode (codes "lte")
      then leb_ℤ (compare_numeric target expected) (pos 0)
      else text_eq target expected

  unfoldable pub evaluate_condition : Entry → Text → Value → Bool
  evaluate_condition target mode expected =
      compare_by mode (sprint_entry target) (L.sprint expected)

  -- The loop of `resolveContextPath`. A pass over the text is skipped when the placeholder is not in it.
  unfoldable pub resolve_names : Text → Context → Text
  resolve_names path [] = path
  resolve_names path ((k, v) ∷ ctx) =
      let placeholder = codes "{" ++ k ++ codes "}" in
      resolve_names
        (if contains_str path placeholder
          then replace_all_str path placeholder (sprint_entry v)
          else path)
        ctx

  unfoldable pub resolve_context_path : Text → Context → Text
  resolve_context_path path ctx = if ltb (length path) 3 then path else resolve_names path ctx

  abbrev pub entry_of : Option Value → Option Entry
  entry_of none = none
  entry_of (some v) = some (plain v)

  -- The value a condition is about: the context's, unless it prints as nothing, or the body's.
  unfoldable pub condition_target : L.Doc → Context → Text → Option Entry
  condition_target body ctx path = elim (get_key path ctx) [
    | none ↦ entry_of (L.get body path)
    | some val ↦ if text_eq (entry_to_string val) [] then entry_of (L.get body path) else some val
  ]

  -- `matched`, with the inversion.
  unfoldable pub condition_matched : Entry → Condition → Bool
  condition_matched target cond =
      let matched = evaluate_condition target cond.mode cond.value in
      if cond.invert then not matched else matched

  -- The body of the loop of `checkConditions`; `rest` is what the loop returns on the later conditions.
  unfoldable pub check_one : Bool → Condition → Option Entry → Bool → Bool
  check_one every cond none rest =
      if cond.pass_missing_key then rest else if every then false else rest
  check_one every cond (some target) rest =
      let matched = condition_matched target cond in
      if every && not matched then false else if not every && matched then true else rest

  unfoldable pub check_each : L.Doc → Context → Bool → List Condition → Bool
  check_each body ctx every [] = every
  check_each body ctx every (cond ∷ conds) =
      check_one every cond (condition_target body ctx (resolve_context_path cond.path ctx))
        (check_each body ctx every conds)

  unfoldable pub check_conditions : L.Doc → Context → List Condition → Text → Bool
  check_conditions body ctx [] logic = true
  check_conditions body ctx (cond ∷ conds) logic = check_each body ctx (is_and logic) (cond ∷ conds)
