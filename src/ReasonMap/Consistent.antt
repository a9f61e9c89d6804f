-- ===== src/ReasonMap/Consistent.antt =====
-- The translations agree with each other on the reasons the three vendors document.
use token_flux.Base.{
  ◌≡◌, refl, sym, subst, true, String, List, [], ◌∷◌, ◌++◌, str_eq, eq_iff, All, Bool-cases, inl,
  inr,
}
use token_flux.ReasonMap.{
  one_of, gemini_filtered, gemini_tool_failures, claude_turn_ends, openai_finish_reason_to_claude,
  claude_stop_reason_to_openai, gemini_finish_reason_to_openai, openai_finish_reason_to_gemini,
  claude_stop_reason_to_gemini, gemini_finish_reason_to_claude,
}

one_of-All :
    (P : String → Type 0) (r : String) (xs : List String) → All P xs → one_of r xs ≡ true → P r
unfolding one_of
one_of-All P r [] h e = absurd (cc)
one_of-All P r (x ∷ xs) h e = elim (Bool-cases (str_eq r x)) [
  | inl q ↦ subst P (sym ((eq_iff r x).0 q)) h.0
  | inr q ↦ let k : one_of r xs ≡ true = rw q at e in one_of-All P r xs h.1 k
]

abbrev pub openai_reasons : List String
openai_reasons = "stop" ∷ "length" ∷ "tool_calls" ∷ "content_filter" ∷ []

abbrev pub claude_reasons : List String
claude_reasons = claude_turn_ends ++ "max_tokens" ∷ "tool_use" ∷ "refusal" ∷ []

abbrev pub gemini_reasons : List String
gemini_reasons =
    "STOP"
    ∷ "FINISH_REASON_UNSPECIFIED"
    ∷ "MAX_TOKENS"
    ∷ "MISSING_THOUGHT_SIGNATURE"
    ∷ "MALFORMED_RESPONSE"
    ∷ (gemini_filtered ++ gemini_tool_failures)

-- One of the four reasons of OpenAI's survives the way to Claude's and back.
pub claude_openai_roundtrip :
    (r : String)
    → one_of r openai_reasons ≡ true
    → claude_stop_reason_to_openai (openai_finish_reason_to_claude r) ≡ r
unfolding one_of claude_stop_reason_to_openai openai_finish_reason_to_claude
claude_openai_roundtrip r =
    one_of-All (λ x. claude_stop_reason_to_openai (openai_finish_reason_to_claude x) ≡ x) r
      openai_reasons (refl, (refl, (refl, (refl, tt))))

-- A reason of Claude's becomes the same reason of Gemini's directly and by way of OpenAI's.
pub claude_gemini_through_openai :
    (r : String)
    → one_of r claude_reasons ≡ true
    → claude_stop_reason_to_gemini r
      ≡ openai_finish_reason_to_gemini (claude_stop_reason_to_openai r)
unfolding one_of claude_stop_reason_to_gemini openai_finish_reason_to_gemini
    claude_stop_reason_to_openai
claude_gemini_through_openai r =
    one_of-All
      (λ x.
        claude_stop_reason_to_gemini x
        ≡ openai_finish_reason_to_gemini (claude_stop_reason_to_openai x))
      r claude_reasons (refl, (refl, (refl, (refl, (refl, (refl, tt))))))

-- A reason of Gemini's that the source names becomes the same reason of Claude's directly and by way of
-- OpenAI's.
pub gemini_claude_through_openai :
    (r : String)
    → one_of r gemini_reasons ≡ true
    → gemini_finish_reason_to_claude r
      ≡ openai_finish_reason_to_claude (gemini_finish_reason_to_openai r)
unfolding one_of gemini_finish_reason_to_claude openai_finish_reason_to_claude
    gemini_finish_reason_to_openai
gemini_claude_through_openai r =
    one_of-All
      (λ x.
        gemini_finish_reason_to_claude x
        ≡ openai_finish_reason_to_claude (gemini_finish_reason_to_openai x))
      r gemini_reasons
      (
        refl,
        (
          refl,
          (
            refl,
            (
              refl,
              (
                refl,
                (
                  refl,
                  (
                    refl,
                    (
                      refl,
                      (
                        refl,
                        (
                          refl,
                          (
                            refl,
                            (
                              refl,
                              (refl, (refl, (refl, (refl, (refl, (refl, (refl, (refl, tt)))))))),
                            ),
                          ),
                        ),
                      ),
                    ),
                  ),
                ),
              ),
            ),
          ),
        ),
      )

-- A reason of Claude's becomes the same reason of Gemini's directly and by way of OpenAI's, and a reason of
-- Gemini's that the source names becomes the same reason of Claude's directly and by way of OpenAI's.
pub reasons_through_openai :
    (c g : String)
    → one_of c claude_reasons ≡ true
    → one_of g gemini_reasons ≡ true
    → (claude_stop_reason_to_gemini c
        ≡ openai_finish_reason_to_gemini (claude_stop_reason_to_openai c))
      × (gemini_finish_reason_to_claude g
          ≡ openai_finish_reason_to_claude (gemini_finish_reason_to_openai g))
reasons_through_openai c g hc hg =
    (claude_gemini_through_openai c hc, gemini_claude_through_openai g hg)
