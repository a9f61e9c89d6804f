-- ===== src/Override/Run.antt =====
-- server/internal/relay/override/override.go: running the rules in order on the body of a request, and
-- handing the header changes back.
use token_flux.Base.{Bool, true, false, Option, none, some, List, [], ◌∷◌, if◌then◌else◌}
use token_flux.Override.Text.{codes, text_eq, get_key}
use token_flux.Override.Value.{
  end, field, Headers, Context, Operation, blocked, unknown_mode, Outcome, done, failed, RelayInfo,
  Library,
}
use token_flux.Override.Operations.{
  op_set, op_delete, op_move, op_copy, op_append, op_prepend, op_replace, op_regex_replace,
  op_to_lower, op_to_upper, op_trim_prefix, op_trim_suffix, op_ensure_prefix, op_ensure_suffix,
  op_trim_space,
}
use token_flux.Override.Conditions.{resolve_context_path, check_conditions}
use token_flux.Override.Headers.{
  put_all, headers_of, op_set_header, op_delete_header, op_copy_header, op_move_header,
  op_pass_headers,
}
use token_flux.Override.Rules.{
  try_parse_operations, apply_legacy, build_override_context, op_return_error,
}

-- What `ApplyParamOverride` does to the runtime headers of the request. A map that was there is the one
-- the rules changed, whether they fail or not; if there was none, a success stores the new one.
unfoldable pub synced : Bool → Context → Option Headers → Option Headers
synced succeeded ctx (some h) = some (headers_of (get_key (codes "header_override") ctx))
synced true ctx none = elim (headers_of (get_key (codes "header_override") ctx)) [
  | [] ↦ none
  | e ∷ es ↦ some (put_all (e ∷ es) [])
]
synced false ctx none = none

unfoldable pub succeeded : {A : Type 0} → Outcome A → Bool
succeeded (done a) = true
succeeded (failed e) = false

-- What follows a step, unless it returned an error.
unfoldable pub and_then :
    {A : Type 0} → (A → Context → Outcome A × Context) → Outcome A × Context → Outcome A × Context
and_then next (done a, ctx) = next a ctx
and_then next (failed e, ctx) = (failed e, ctx)

module _ (L : Library) where
  -- The cases of `applySingleOperation` that are about the body; any other mode is unknown.
  unfoldable pub apply_to_body : L.Doc → Operation → Context → Outcome L.Doc
  apply_to_body body op ctx =
      let path = resolve_context_path L op.path ctx in
      let from = resolve_context_path L op.from ctx in
      let to = resolve_context_path L op.to ctx in
      if text_eq op.mode (codes "set")
      then op_set L body path op.value op.keep_origin
      else if text_eq op.mode (codes "delete")
      then op_delete L body path
      else if text_eq op.mode (codes "move")
      then op_move L body from to
      else if text_eq op.mode (codes "copy")
      then op_copy L body from to
      else if text_eq op.mode (codes "append")
      then op_append L body path op.value op.keep_origin
      else if text_eq op.mode (codes "prepend")
      then op_prepend L body path op.value op.keep_origin
      else if text_eq op.mode (codes "replace")
      then op_replace L body path op.value
      else if text_eq op.mode (codes "regex_replace")
      then op_regex_replace L body path op.value
      else if text_eq op.mode (codes "to_lower")
      then op_to_lower L body path
      else if text_eq op.mode (codes "to_upper")
      then op_to_upper L body path
      else if text_eq op.mode (codes "trim_prefix")
      then op_trim_prefix L body path op.value
      else if text_eq op.mode (codes "trim_suffix")
      then op_trim_suffix L body path op.value
      else if text_eq op.mode (codes "ensure_prefix")
      then op_ensure_prefix L body path op.value
      else if text_eq op.mode (codes "ensure_suffix")
      then op_ensure_suffix L body path op.value
      else if text_eq op.mode (codes "trim_space")
      then op_trim_space L body path
      else if text_eq op.mode (codes "return_error")
      then failed (blocked (op_return_error L op.value))
      else failed (unknown_mode op.mode)

  -- The cases about the headers, which take the path as it is written; none for another mode.
  unfoldable pub apply_to_headers : Operation → Context → Option Context
  apply_to_headers op ctx =
      if text_eq op.mode (codes "set_header")
      then some (op_set_header L op.path op.value ctx)
      else if text_eq op.mode (codes "delete_header")
      then some (op_delete_header op.path ctx)
      else if text_eq op.mode (codes "copy_header")
      then some (op_copy_header op.from op.to ctx)
      else if text_eq op.mode (codes "move_header")
      then some (op_move_header op.from op.to ctx)
      else if text_eq op.mode (codes "pass_headers")
      then some (op_pass_headers ctx)
      else none

  unfoldable pub apply_single_operation : L.Doc → Operation → Context → Outcome L.Doc × Context
  unfolding apply_to_body apply_to_headers
  apply_single_operation body op ctx = elim (apply_to_headers op ctx) [
    | some ctx' ↦ (done body, ctx')
    | none ↦ (apply_to_body body op ctx, ctx)
  ]

  unfoldable pub apply_operations : L.Doc → List Operation → Context → Outcome L.Doc × Context
  unfolding and_then
  apply_operations body [] ctx = (done body, ctx)
  apply_operations body (op ∷ ops) ctx =
      if check_conditions L body ctx op.conditions op.logic
      then and_then (λ result ctx'. apply_operations result ops ctx')
          (apply_single_operation body op ctx)
      else apply_operations body ops ctx

  -- The branch on the form of the rules.
  unfoldable pub run_rules : L.Doc → RelayInfo → Context → Outcome L.Doc × Context
  run_rules body info ctx = elim (try_parse_operations L info.param_override) [
    | [] ↦ (done (apply_legacy L body info.param_override), ctx)
    | op ∷ ops ↦ apply_operations body (op ∷ ops) ctx
  ]

  -- `ApplyParamOverride`, with what it makes of `info`.
  unfoldable pub apply_param_override : L.Doc → RelayInfo → Outcome L.Doc × RelayInfo
  unfolding run_rules synced succeeded
  apply_param_override body info = elim info.param_override [
    | end ↦ (done body, info)
    | field k v fs ↦
        let (r, ctx) = run_rules body info (build_override_context L info) in
        (
          r,
          record info {
            runtime_headers_override = synced (succeeded r) ctx info.runtime_headers_override;
          },
        )
  ]
