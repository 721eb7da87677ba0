-- ===== src/Text/Fields.antt =====
-- strings.FieldsFunc: the texts between the code points that pass a test.
use jobscout.Prelude.{
  ℕ, ◌≡◌, refl, ◌∙◌, ap, Bool, true, false, List, [], ◌∷◌, ◌++◌, append-nil, append_assoc,
  if◌then◌else◌, All,
}
use jobscout.Text.{Text}

-- the field being read, unless it is empty
abbrev flush_field : Text → List Text → List Text
flush_field [] rest = rest
flush_field (c ∷ cur) rest = (c ∷ cur) ∷ rest

module _ (p : ℕ → Bool) where
  -- `cur` is the field being read
  unfoldable pub fields_func_from : Text → Text → List Text
  fields_func_from cur [] = flush_field cur []
  fields_func_from cur (c ∷ s) =
      let closed = flush_field cur (fields_func_from [] s) in
      let longer = fields_func_from (cur ++ c ∷ []) s in if p c then closed else longer

  unfoldable pub fields_func : Text → List Text
  unfolding fields_func_from
  fields_func s = fields_func_from [] s

  -- No code point passes the test.
  abbrev pub IsFree : Text → Type 0
  IsFree s = All (λ c. p c ≡ false) s

  -- What does not pass the test goes into the field being read.
  pub fields_func_from-append :
      (cur s rest : Text)
      → IsFree s
      → fields_func_from cur (s ++ rest) ≡ fields_func_from (cur ++ s) rest
  unfolding fields_func_from
  fields_func_from-append cur [] rest h = rw (append-nil cur) refl
  fields_func_from-append cur (c ∷ s) rest (h, k) = rw h (
      fields_func_from-append (cur ++ c ∷ []) s rest k
      ∙ ap (λ t. fields_func_from t rest) (append_assoc cur (c ∷ []) s))

  -- A separator ends a field that is not empty.
  pub fields_func_from-cut :
      (c : ℕ) (cur : Text) (d : ℕ) (s : Text)
      → p d ≡ true
      → fields_func_from (c ∷ cur) (d ∷ s) ≡ (c ∷ cur) ∷ fields_func_from [] s
  unfolding fields_func_from
  fields_func_from-cut c cur d s h = rw h refl
