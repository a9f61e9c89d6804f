-- ===== src/Vendor/ToClaude/Turns.antt =====
-- The turns of a request that server/internal/relay/channel/claude/converter.go makes for Claude.
use token_flux.Base.{
  Bool, true, false, not, ◌&&◌, ◌||◌, String, List, [], ◌∷◌, ◌++◌, str_eq, eq_iff, Bool-cases, inl,
  inr, ◌≡◌, refl, ◌∙◌, arith, if◌then◌else◌,
}
use token_flux.Vendor.Chat.{Message, ChatRequest, RelayInfo, is_nil}
use token_flux.Vendor.Parts.{Content, blocks, or_empty_text}
use token_flux.Vendor.ToClaude.{
  ClaudeMessage, Printing, extract_text_content, convert_user_message, convert_assistant_message,
  tool_result, merge_last, Turning, add_turn, add_message, add_messages, begin_with_user, no_turns,
  turns, convert_openai_to_claude,
}

-- Every message is of the user or of the assistant, and no two neighbours are of the same.
unfoldable pub alternates : List ClaudeMessage → Bool
alternates [] = true
alternates (m ∷ []) = str_eq m.role "user" || str_eq m.role "assistant"
alternates (m ∷ n ∷ ms) =
    (str_eq m.role "user" || str_eq m.role "assistant")
    && (not (str_eq m.role n.role) && alternates (n ∷ ms))

abbrev pub begins_with_user : List ClaudeMessage → Bool
begins_with_user [] = true
begins_with_user (m ∷ ms) = str_eq m.role "user"

unfoldable pub role_at_end : List ClaudeMessage → String
role_at_end [] = ""
role_at_end (m ∷ []) = m.role
role_at_end (m ∷ n ∷ ms) = role_at_end (n ∷ ms)

role_at_end-append :
    (ms : List ClaudeMessage) (m : ClaudeMessage) → role_at_end (ms ++ m ∷ []) ≡ m.role
unfolding role_at_end
role_at_end-append [] m = refl
role_at_end-append (n ∷ []) m = refl
role_at_end-append (n ∷ o ∷ ms) m = role_at_end-append (o ∷ ms) m

alternates-append :
    (ms : List ClaudeMessage) (m : ClaudeMessage)
    → (str_eq m.role "user" || str_eq m.role "assistant") ≡ true
    → (str_eq (role_at_end ms) m.role && not (is_nil ms)) ≡ false
    → alternates ms ≡ true
    → alternates (ms ++ m ∷ []) ≡ true
unfolding alternates role_at_end
alternates-append [] m is new h = is
alternates-append (n ∷ []) m is new h = ground (arith, is, new, h)
alternates-append (n ∷ o ∷ ms) m is new h =
    let rest = alternates-append (o ∷ ms) m is new in ground (arith, rest, h)

-- The variable of the loop is the role of the last message.
abbrev pub IsTurning : Turning → Type 0
IsTurning t = (alternates t.messages ≡ true) × (role_at_end t.messages ≡ t.last_role)

-- What holds in both branches.
if_either : (t u : Turning) (c : Bool) → IsTurning t → IsTurning u → IsTurning (if c then t else u)
if_either t u true h k = h
if_either t u false h k = k

module _ (P : Printing) where
  role_at_end-merge_last :
      (c : Content) (ms : List ClaudeMessage) → role_at_end (merge_last P c ms) ≡ role_at_end ms
  unfolding role_at_end merge_last
  role_at_end-merge_last c [] = refl
  role_at_end-merge_last c (m ∷ []) = refl
  role_at_end-merge_last c (m ∷ n ∷ []) = refl
  role_at_end-merge_last c (m ∷ n ∷ o ∷ ms) = role_at_end-merge_last c (n ∷ o ∷ ms)

  alternates-merge_last :
      (c : Content) (ms : List ClaudeMessage) → alternates (merge_last P c ms) ≡ alternates ms
  unfolding alternates merge_last
  alternates-merge_last c [] = refl
  alternates-merge_last c (m ∷ []) = refl
  alternates-merge_last c (m ∷ n ∷ []) = refl
  alternates-merge_last c (m ∷ n ∷ o ∷ ms) = rw (alternates-merge_last c (n ∷ o ∷ ms)) refl

  add_turn-IsTurning :
      (role : String) (c : Content) (t : Turning)
      → (str_eq role "user" || str_eq role "assistant") ≡ true
      → IsTurning t
      → IsTurning (add_turn P role c t)
  add_turn-IsTurning role c t is (h, last) =
      let m : ClaudeMessage = record { role = role; content = c } in
      elim (Bool-cases (str_eq t.last_role role && not (is_nil t.messages))) [
        | inl e ↦ rw e (
          alternates-merge_last c t.messages ∙ h,
          ground (arith, role_at_end-merge_last c t.messages, last, e, eq_iff t.last_role role),
        )
        | inr e ↦
            rw e (alternates-append t.messages m is (rw last e) h, role_at_end-append t.messages m)
      ]

  add_message-IsTurning : (m : Message) (t : Turning) → IsTurning t → IsTurning (add_message P m t)
  unfolding add_message
  add_message-IsTurning m t h =
      let content = or_empty_text m.content in
      if_either _ _ (str_eq m.role "system" || str_eq m.role "developer")
        (if_either _ _ (is_nil (extract_text_content P content)) h h)
        (if_either _ _ (str_eq m.role "user")
          (add_turn-IsTurning "user" (convert_user_message P content) t refl h)
          (if_either _ _ (str_eq m.role "assistant")
            (add_turn-IsTurning "assistant" (convert_assistant_message P m) t refl h)
            (if_either _ _ (str_eq m.role "tool")
              (add_turn-IsTurning "user"
                (blocks (tool_result m.tool_call_id (extract_text_content P content) ∷ [])) t refl
                h)
              h)))

  add_messages-IsTurning :
      (ms : List Message) (t : Turning) → IsTurning t → IsTurning (add_messages P ms t)
  unfolding add_messages
  add_messages-IsTurning [] t h = h
  add_messages-IsTurning (m ∷ ms) t h =
      add_messages-IsTurning ms (add_message P m t) (add_message-IsTurning m t h)

  begin_with_user-alternates :
      (ms : List ClaudeMessage)
      → alternates ms ≡ true
      → (alternates (begin_with_user ms) ≡ true) × (begins_with_user (begin_with_user ms) ≡ true)
  unfolding alternates
  begin_with_user-alternates [] h = (refl, refl)
  begin_with_user-alternates (m ∷ ms) h = elim (Bool-cases (str_eq m.role "user")) [
    | inl e ↦ rw e (h, e)
    | inr e ↦ rw e (ground (arith, h, e, eq_iff m.role "user", eq_iff "user" m.role), refl)
  ]

  -- Whatever messages a request has, the converted request begins with the user, unless it has no messages, and user
  -- and assistant take turns.
  pub convert_openai_to_claude-alternates :
      (info : RelayInfo) (r : ChatRequest)
      → (alternates (convert_openai_to_claude P info r).messages ≡ true)
        × (begins_with_user (convert_openai_to_claude P info r).messages ≡ true)
  unfolding convert_openai_to_claude alternates role_at_end
  convert_openai_to_claude-alternates info r =
      begin_with_user-alternates (turns P r.messages).messages
        (add_messages-IsTurning r.messages no_turns (refl, refl)).0
