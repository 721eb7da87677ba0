-- ===== src/Llm/MaxTokens/Capped.antt =====
-- What a capped call asks for.
use jobscout.Prelude.{
  ◌≡◌, refl, ap, ◌∙◌, true, false, ◌&&◌, ◌||◌, List, [], ◌∷◌, ◌++◌, arith, Option, none, some,
  is_empty, if◌then◌else◌,
}
use jobscout.Prelude.Int.{ℤ, pos, ltb_ℤ, leb_ℤ, min_ℤ}
use jobscout.Text.{Text}
use jobscout.Llm.MaxTokens.{
  CallPackage, ProviderConfig, is_zero, configured_cap, model_max_token_cap, llm_max_token_cap,
  CallOption, apply_option, apply_options, llm_requested_max_tokens, cap_llm_call_options,
}

abbrev positive : ℤ → List ℤ
positive n = if ltb_ℤ (pos 0) n then n ∷ [] else []

-- The limit of the configuration, where it sets one.
abbrev of_config : Option ℤ → List ℤ
of_config none = []
of_config (some n) = positive n

-- The limits that there are: what the model allows and what the configuration sets, where positive.
unfoldable pub limits_of : Text → ProviderConfig → List ℤ
limits_of provider cfg =
    positive (model_max_token_cap provider cfg.model) ++ of_config cfg.max_tokens

-- With what is asked for, where it is positive.
unfoldable pub limits_with : ℤ → List ℤ → List ℤ
limits_with asked limits = positive asked ++ limits

unfoldable pub least : List ℤ → ℤ
least [] = pos 0
least (n ∷ []) = n
least (n ∷ m ∷ ns) = min_ℤ n (least (m ∷ ns))

-- The cap is the least limit, and positive if there is one.
cap_of-least :
    (m : ℤ) (limit : Option ℤ)
    → (if ltb_ℤ (pos 0) m && (is_zero (configured_cap limit) || ltb_ℤ m (configured_cap limit))
        then m
        else configured_cap limit)
      ≡ least (positive m ++ of_config limit)
unfolding least
cap_of-least m none = ground arith
cap_of-least m (some n) = ground arith

least-positive :
    (m : ℤ) (limit : Option ℤ)
    → is_empty (positive m ++ of_config limit) ≡ false
    → leb_ℤ (least (positive m ++ of_config limit)) (pos 0) ≡ false
unfolding least
least-positive m none h = ground arith
least-positive m (some n) h = ground arith

least-limits_with :
    (asked : ℤ) (limits : List ℤ)
    → is_empty limits ≡ false
    → (if ltb_ℤ (pos 0) asked && ltb_ℤ asked (least limits) then asked else least limits)
      ≡ least (limits_with asked limits)
unfolding least limits_with
least-limits_with asked [] h = absurd (ground arith)
least-limits_with asked (n ∷ limits) h = ground arith

module _ (provider : Text) (cfg : ProviderConfig) where
  llm_max_token_cap-least : llm_max_token_cap provider cfg ≡ least (limits_of provider cfg)
  unfolding llm_max_token_cap limits_of
  llm_max_token_cap-least = cap_of-least (model_max_token_cap provider cfg.model) cfg.max_tokens

  cap_without_limits :
      limits_of provider cfg ≡ [] → leb_ℤ (llm_max_token_cap provider cfg) (pos 0) ≡ true
  unfolding least
  cap_without_limits h = rw (llm_max_token_cap-least, h) refl

  cap_with_limits :
      is_empty (limits_of provider cfg) ≡ false
      → leb_ℤ (llm_max_token_cap provider cfg) (pos 0) ≡ false
  unfolding limits_of
  cap_with_limits h =
      rw llm_max_token_cap-least
        (least-positive (model_max_token_cap provider cfg.model) cfg.max_tokens h)

module _ (calls : CallPackage)
    (sets : (n : ℤ) (opts : calls.CallOptions)
      → calls.max_tokens (calls.with_max_tokens n opts) ≡ n) where
  last_option_wins :
      (n : ℤ) (opts : calls.CallOptions) (options : List (CallOption calls))
      → calls.max_tokens (apply_options calls opts (options ++ some (calls.with_max_tokens n) ∷ []))
        ≡ n
  last_option_wins n opts [] = sets n opts
  last_option_wins n opts (option ∷ options) =
      last_option_wins n (apply_option calls option opts) options

  module _ (provider : Text) (cfg : ProviderConfig) (options : List (CallOption calls)) where
    abbrev cap : ℤ
    cap = llm_max_token_cap provider cfg

    abbrev asked : ℤ
    asked = llm_requested_max_tokens calls options

    uncapped : leb_ℤ cap (pos 0) ≡ true → cap_llm_call_options calls provider cfg options ≡ options
    unfolding cap_llm_call_options
    uncapped h = rw h refl

    capped :
        leb_ℤ cap (pos 0) ≡ false
        → llm_requested_max_tokens calls (cap_llm_call_options calls provider cfg options)
          ≡ (if ltb_ℤ (pos 0) asked && ltb_ℤ asked cap then asked else cap)
    unfolding cap_llm_call_options llm_requested_max_tokens
    capped h = rw h (last_option_wins _ calls.zero_options options)

    -- Where neither the model nor the configuration sets a positive limit, the options stay as they
    -- are; otherwise the capped call asks for exactly the least of the limits that are set and, where
    -- it is positive, of what the caller asked for.
    pub cap_llm_call_options-IsCapped :
        (limits_of provider cfg ≡ [] → cap_llm_call_options calls provider cfg options ≡ options)
        × (is_empty (limits_of provider cfg) ≡ false
            → llm_requested_max_tokens calls (cap_llm_call_options calls provider cfg options)
              ≡ least (limits_with asked (limits_of provider cfg)))
    cap_llm_call_options-IsCapped = (
      λ none_set. uncapped (cap_without_limits provider cfg none_set),
      λ set.
          capped (cap_with_limits provider cfg set)
          ∙ (ap (λ n. if ltb_ℤ (pos 0) asked && ltb_ℤ asked n then asked else n)
                (llm_max_token_cap-least provider cfg)
              ∙ least-limits_with asked (limits_of provider cfg) set),
    )
