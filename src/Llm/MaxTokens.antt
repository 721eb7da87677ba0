-- ===== src/Llm/MaxTokens.antt =====
-- internal/llm/llm_max_tokens.go: the options of a call, with the tokens that it may ask for. `calls` is
-- what the code uses of the package llms: the options, and the option that sets their limit of tokens.
pub mod Capped
use jobscout.Prelude.{
  Bool, true, false, not, ◌&&◌, ◌||◌, List, [], ◌∷◌, ◌++◌, Option, none, some, is_empty,
  if◌then◌else◌,
}
use jobscout.Prelude.Int.{ℤ, pos, ltb_ℤ, leb_ℤ}
use jobscout.Text.{Text, codes, ◌==◌, to_lower, trim_space, has_prefix}

pub record CallPackage : Type 1 where
  pub CallOptions : Type 0
  pub zero_options : CallOptions
  pub max_tokens : CallOptions → ℤ
  pub with_max_tokens : ℤ → CallOptions → CallOptions

-- of the configuration of a provider
pub record ProviderConfig : Type 0 where
  pub model : Text
  pub max_tokens : Option ℤ

unfoldable pub model_max_token_cap : Text → Text → ℤ
model_max_token_cap raw_provider raw_model =
    let provider = to_lower (trim_space raw_provider) in
    let model = to_lower (trim_space raw_model) in
    if not (provider == codes "openai") || is_empty model
    then pos 0
    else if model == codes "gpt-4" || has_prefix model (codes "gpt-4-0")
    then pos 2048
    else pos 0

-- the limit that is set, if it is positive
abbrev pub configured_cap : Option ℤ → ℤ
configured_cap none = pos 0
configured_cap (some n) = if ltb_ℤ (pos 0) n then n else pos 0

abbrev pub is_zero : ℤ → Bool
is_zero n = leb_ℤ n (pos 0) && leb_ℤ (pos 0) n

unfoldable pub llm_max_token_cap : Text → ProviderConfig → ℤ
llm_max_token_cap provider cfg =
    let cap = configured_cap cfg.max_tokens in
    let model_cap = model_max_token_cap provider cfg.model in
    if ltb_ℤ (pos 0) model_cap && (is_zero cap || ltb_ℤ model_cap cap) then model_cap else cap

module _ (calls : CallPackage) where
  open calls use {CallOptions, zero_options, with_max_tokens}

  -- An option, of which `none` is nil.
  abbrev pub CallOption : Type 0
  CallOption = Option (CallOptions → CallOptions)

  abbrev pub apply_option : CallOption → CallOptions → CallOptions
  apply_option none opts = opts
  apply_option (some set) opts = set opts

  abbrev pub apply_options : CallOptions → List CallOption → CallOptions
  apply_options opts [] = opts
  apply_options opts (option ∷ options) = apply_options (apply_option option opts) options

  unfoldable pub llm_requested_max_tokens : List CallOption → ℤ
  llm_requested_max_tokens options = calls.max_tokens (apply_options zero_options options)

  unfoldable pub cap_llm_call_options : Text → ProviderConfig → List CallOption → List CallOption
  unfolding llm_requested_max_tokens
  cap_llm_call_options provider cfg options =
      let cap = llm_max_token_cap provider cfg in
      let requested = llm_requested_max_tokens options in
      let least = if ltb_ℤ (pos 0) requested && ltb_ℤ requested cap then requested else cap in
      if leb_ℤ cap (pos 0) then options else options ++ some (with_max_tokens least) ∷ []
