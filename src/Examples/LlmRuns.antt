-- ===== src/Examples/LlmRuns.antt =====
-- Calls of a language model with a limit of tokens.
use jobscout.Prelude.{◌≡◌, refl, false, List, [], ◌∷◌, none, some, is_empty}
use jobscout.Prelude.Int.{ℤ, pos}
use jobscout.Text.{codes, to_lower, trim_space, lower, ◌==◌}
use jobscout.Llm.MaxTokens.{
  CallPackage, ProviderConfig, CallOption, model_max_token_cap, llm_max_token_cap,
  llm_requested_max_tokens, cap_llm_call_options,
}
use jobscout.Llm.MaxTokens.Capped.{limits_of, limits_with, least, cap_llm_call_options-IsCapped}

-- The limit is the only option.
abbrev limits : CallPackage
limits = record {
  CallOptions = ℤ;
  zero_options = pos 0;
  max_tokens = λ n. n;
  with_max_tokens = λ n opts. n;
}

abbrev gpt : ProviderConfig
gpt = record { model = codes "GPT-4"; max_tokens = some (pos 4000) }

abbrev asks_much : List (CallOption limits)
asks_much = none ∷ some (λ opts. pos 3000) ∷ []

cap_llm_call_options-IsCapped_example :
    (limits_of (codes "OpenAI") gpt ≡ []
      → cap_llm_call_options limits (codes "OpenAI") gpt asks_much ≡ asks_much)
    × (is_empty (limits_of (codes "OpenAI") gpt) ≡ false
        → llm_requested_max_tokens limits
            (cap_llm_call_options limits (codes "OpenAI") gpt asks_much)
          ≡ least (
              limits_with
                (llm_requested_max_tokens limits asks_much)
                (limits_of (codes "OpenAI") gpt)))
cap_llm_call_options-IsCapped_example =
    cap_llm_call_options-IsCapped limits (λ n opts. refl) (codes "OpenAI") gpt asks_much

-- what the model allows is less than what is configured and what is asked for
asks_2048 :
    llm_requested_max_tokens limits (cap_llm_call_options limits (codes "OpenAI") gpt asks_much)
    ≡ pos 2048
unfolding llm_requested_max_tokens cap_llm_call_options llm_max_token_cap model_max_token_cap
    trim_space to_lower lower ◌==◌
asks_2048 = refl
