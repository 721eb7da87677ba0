-- ===== src/Tuiapp/Tasks/Pending.antt =====
-- The fields that are shown as pending.
use jobscout.Prelude.{
  ℕ, ◌≡◌, refl, ◌∙◌, ap, inl, inr, Bool, true, false, not, ◌&&◌, ◌||◌, List, [], ◌∷◌, Option, none,
  some, arith, is_empty, Bool-cases,
}
use jobscout.Text.{Text, ◌==◌}
use jobscout.Text.Equality.{eq_iff, eq_refl}
use jobscout.Text.Dict.{text_Eq, get, get-put, get-delete}
use jobscout.Prelude.Int.{ℤ}
use jobscout.Domain.Job.{Job}
use jobscout.Domain.Website.{Url}
use jobscout.Tuiapp.Tasks.{
  Field, company_website, company_summary, company_industry, compensation, same_field, has_field,
  Pending, App, ChannelId, background_job_key, is_current, field_missing, fields_missing,
  update_pending, fields_of, settle_pending, pending_field, handle_job_enriched,
}

same_field-eq : (f g : Field) → same_field f g ≡ true → f ≡ g
same_field-eq company_website company_website h = refl
same_field-eq company_summary company_summary h = refl
same_field-eq company_industry company_industry h = refl
same_field-eq compensation compensation h = refl
same_field-eq _ _ h = cc

has_field_of_is_empty : (f : Field) (fs : List Field) → is_empty fs ≡ true → has_field f fs ≡ false
has_field_of_is_empty f [] h = refl
has_field_of_is_empty f (g ∷ fs) h = cc

and_assoc : (a b c : Bool) → (a && (b && c)) ≡ ((a && b) && c)
and_assoc true b c = refl
and_assoc false b c = refl

and-true : (b : Bool) → b ≡ (b && true)
and-true true = refl
and-true false = refl

module _ (parse_url : Text → Option Url) where
  has_field-fields_missing :
      (f : Field) (job : Job) (fs : List Field)
      → has_field f (fields_missing parse_url job fs)
        ≡ (has_field f fs && field_missing parse_url f job)
  has_field-fields_missing f job [] = refl
  has_field-fields_missing f job (g ∷ fs) = elim (Bool-cases (same_field f g)) [
    | inl e ↦ ground (
      arith,
      e,
      ap (λ x. field_missing parse_url x job) (same_field-eq f g e),
      has_field-fields_missing f job fs,
    )
    | inr e ↦ ground (arith, e, has_field-fields_missing f job fs)
  ]

  get-settle_pending_same :
      (job : Job) (pending : Pending) (f : Field) (o : Option (List Field))
      → get (background_job_key job) pending ≡ o
      → has_field f
          (fields_of (get (background_job_key job) (settle_pending parse_url job pending o)))
        ≡ (has_field f (fields_of o) && field_missing parse_url f job)
  unfolding settle_pending
  get-settle_pending_same job pending f none e = rw e refl
  get-settle_pending_same job pending f (some fields) e =
      let key = background_job_key job in
      ground (
        arith,
        e,
        eq_refl key,
        has_field-fields_missing f job fields,
        has_field_of_is_empty f fields,
        has_field_of_is_empty f (fields_missing parse_url job fields),
        get-delete key key pending,
        get-put key key (fields_missing parse_url job fields) pending,
      )

  get-settle_pending_other :
      (job : Job) (pending : Pending) (key : Text) (o : Option (List Field))
      → (background_job_key job == key) ≡ false
      → get key (settle_pending parse_url job pending o) ≡ get key pending
  unfolding settle_pending
  get-settle_pending_other job pending key none n = refl
  get-settle_pending_other job pending key (some fields) n =
      let own = background_job_key job in
      ground (
        arith,
        n,
        get-delete own key pending,
        get-put own key (fields_missing parse_url job fields) pending,
      )

  has_field-update_pending :
      (job : Job) (pending : Pending) (key : Text) (f : Field)
      → has_field f (fields_of (get key (update_pending parse_url job pending))) ≡ (
          has_field f (fields_of (get key pending))
          && (not (background_job_key job == key) || field_missing parse_url f job))
  unfolding update_pending
  has_field-update_pending job pending key f = elim (Bool-cases (background_job_key job == key)) [
    | inl t ↦
        rw (← (eq_iff (background_job_key job) key).0 t, eq_refl (background_job_key job))
          (get-settle_pending_same job pending f (get (background_job_key job) pending) refl)
    | inr n ↦ rw n (
        ap (λ o. has_field f (fields_of o))
          (get-settle_pending_other job pending key (get (background_job_key job) pending) n)
        ∙ and-true (has_field f (fields_of (get key pending))))
  ]

  module _ (score : Job → ℤ) (task_id : ℕ) (job : Job) (ch job_ch : ChannelId) (m : App) where
    -- A job that the running background task has enriched ends the waiting for exactly the fields
    -- that it now has: a field is shown as pending for a job afterwards just when it was before, and
    -- that job has another key or the enriched job still lacks the field.
    pub pending_field-handle_job_enriched :
        is_current task_id m.task ≡ true
        → (shown : Job) (f : Field)
        → pending_field (handle_job_enriched parse_url score task_id job ch job_ch m).0.task shown f
          ≡ (pending_field m.task shown f
              && (not (background_job_key job == background_job_key shown)
                  || field_missing parse_url f job))
    unfolding pending_field handle_job_enriched
    pending_field-handle_job_enriched current shown f = rw current (
        ap (λ b. m.task.active && b)
          (has_field-update_pending job m.task.pending_fields (background_job_key shown) f)
        ∙ and_assoc m.task.active _ _)
