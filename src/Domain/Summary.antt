-- ===== src/Domain/Summary.antt =====
-- internal/domain/job_merge.go: the tests on company summaries and on compensations.
use jobscout.Prelude.{
  Bool, true, false, not, ◌&&◌, ◌||◌, List, [], ◌∷◌, is_empty, ltb, length, if◌then◌else◌,
}
use jobscout.Domain.Website.{any}
use jobscout.Text.{Text, codes, ◌==◌, to_lower, trim_space, contains}
use jobscout.Domain.Job.{is_blank}

abbrev metadata_tokens : List Text
metadata_tokens =
    codes "headquarters:"
    ∷ codes "url:"
    ∷ codes "location:"
    ∷ codes "compensation:"
    ∷ codes "schedule:"
    ∷ codes "apply at"
    ∷ codes "to apply:"
    ∷ codes "<p>"
    ∷ codes "<strong>"
    ∷ codes "learn more about"
    ∷ codes "find jobs, explore benefits"
    ∷ codes "research company culture"
    ∷ codes " is hiring "
    ∷ codes "the range represents"
    ∷ codes "reasonably expects to pay"
    ∷ codes "this fully remote role"
    ∷ codes "this role "
    ∷ codes "reports to our"
    ∷ codes "candidates are required"
    ∷ codes "unable to sponsor"
    ∷ codes "you are "
    ∷ codes "you're "
    ∷ codes "you'll "
    ∷ codes "you will "
    ∷ codes "your role"
    ∷ codes "you'll deploy"
    ∷ codes "we are seeking"
    ∷ codes "we're seeking"
    ∷ codes "we're looking for engineers"
    ∷ codes "about the role"
    ∷ codes "experienced engineer"
    ∷ codes "leadership ability"
    ∷ codes "personal information"
    ∷ codes "candidate privacy"
    ∷ codes "to continue, please login"
    ∷ codes "a web browser is a piece of software"
    ∷ codes "we're sure there's lots more to know"
    ∷ codes "we don't have all the info"
    ∷ codes "@media"
    ∷ codes "transition:"
    ∷ codes "data-hover-features"
    ∷ []

abbrev company_patterns : List Text
company_patterns =
    codes " is a "
    ∷ codes " is an "
    ∷ codes " is the "
    ∷ codes " builds "
    ∷ codes " provides "
    ∷ codes " helps "
    ∷ codes " focused on "
    ∷ []

unfoldable pub looks_like_company_summary : Text → Text → Bool
unfolding any
looks_like_company_summary raw company_name =
    let text = trim_space raw in
    let lowered = to_lower text in
    let company = to_lower (trim_space company_name) in
    if ltb (length text) 50
    then false
    else if any (contains lowered) metadata_tokens
    then false
    else if not (is_empty company) && contains lowered company
    then true
    else any (contains lowered) company_patterns

unfoldable pub summary_missing_or_invalid : Text → Text → Bool
summary_missing_or_invalid summary company =
    is_blank summary || not (looks_like_company_summary summary company)

unfoldable pub compensation_missing : Text → Bool
compensation_missing raw =
    let compensation = trim_space (to_lower raw) in
    is_empty compensation
    || compensation == codes "not listed"
    || compensation == codes "n/a"
    || compensation == codes "na"
