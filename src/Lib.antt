-- ===== src/Lib.antt =====
-- jobscout, a job search tool for the terminal, in the parts that decide what happens to jobs and
-- to what is stored about them.
--
-- A fetch (internal/fetcher) yields jobs. Duplicates within the fetch and jobs that are saved
-- already are taken out, limits are applied, and the rest is merged into the saved jobs
-- (internal/domain). The stores (internal/runtime, for the interfaces of internal/storage) keep a
-- health cache, company identities, and candidates with the decisions on them. The command line
-- (internal/runtime) chooses the sources and the limits of a fetch. The application
-- (internal/tuiapp) shows the jobs in a table, whose keys mark and delete them, and runs
-- background tasks that enrich jobs or check their postings, and whose messages it handles.
--
-- Domain/Job, Domain/Unique, Domain/Metadata: internal/domain/job.go and job_metadata.go. The
--   structs are records; a pointer that may be nil is an Option, and a nil list is the empty
--   list. NormalizeJobMetadata is normalize_metadata, CloneJobMetadata is clone_metadata,
--   MergeJobMetadataFields is merge_metadata, appendUniqueNonEmptyStrings is append_unique.
-- Domain/Website, Domain/Summary, Domain/Merge: internal/domain/job_merge.go. MergeJobs is
--   merge_jobs, its loop is merge_from and its map of positions is a Dict; MergeJobIdentityFields
--   is merge_fields; IdentityRepairTargets is identity_repair_targets.
-- Fetcher/Urls: the operations of net/url that the keys use, as a parameter.
-- Fetcher/JobKey, Fetcher/Dedupe: internal/fetcher/fetched_job_dedupe.go, with the helpers it
--   calls from site_search_browser.go and structured_job_posting.go. dedupeFetchedJobs is
--   dedupe_fetched_jobs, SkipExistingFetchedJobs is skip_existing_fetched_jobs.
-- Fetcher/Policy: internal/fetcher/fetch_policy.go. siteCandidateLimiter is a record and
--   takeCount returns the limiter after it; capAcceptedFetchedJobs returns the summary after it.
-- Fetcher/Visits: internal/fetcher/url_visit_registry.go. FetchApplyPage and ProbeURL are
--   begin_visit, the fetch, and finish_visit; Flight has the step relation of any number of
--   callers.
-- Domain/Health/Fields, Domain/Health/Facts: internal/domain/company_health_facts.go.
--   ObserveFoundedYear and ObserveEmployeeCount are observe_founded_year and
--   observe_employee_count.
-- Health/Cache: internal/health/cache.go. CachedHealthForJob is cached_health_for_job.
-- Tuiapp/Table: internal/tuiapp/filters.go, with the keys of the list in update_keys.go and
--   moveCursor of overlay_actions.go. applyFilterAndSort is apply_filter_and_sort;
--   sort.SliceStable is a stable insertion sort.
-- Tuiapp/Channel: waitForBackgroundTaskProgress of internal/tuiapp/background_task.go is
--   wait_for, its loop wait_loop, and its blocking select resume; Delivery has the step relation
--   of two senders and the receiver.
-- Tuiapp/Tasks: the rest of a background task, in background_task.go, update_fetch_msgs.go and
--   model_state.go of internal/tuiapp; Tasks/Postings is posting_validation.go. Each handler of a
--   message gives the model after it and the command it asks for.
-- Tuiapp/Edits: the keys D and m of update_keys.go, deleteJob of job_editor.go and
--   handleJobEditedMsg of update_fetch_msgs.go in internal/tuiapp.
-- Fetcher/Review: internal/fetcher/fetch_review.go. NewReviewSession is new_review_session.
-- Fetcher/Validation: internal/fetcher/job_validation.go. validateFetchedJobs is
--   validate_fetched_jobs.
-- Fetcher/CandidateCache: internal/fetcher/candidate_cache.go, on the store of
--   Runtime/Stores/Candidates. RecordLLMFilterCandidateDecisions is record_llm_filter.
-- Domain/Criteria, Domain/Location, Domain/RoleFamily, Domain/Titles: criteria.go, location.go,
--   role_family.go and title_terms.go of internal/domain, and CriteriaHash of job_candidate.go.
-- Llm/MaxTokens: internal/llm/llm_max_tokens.go. capLLMCallOptions is cap_llm_call_options.
-- Tui/Popup: popup_viewport.go, popup_menu.go and popup_dropdown.go of internal/tui.
-- Runtime/Args: internal/runtime/args.go. ParseArgs is parse_args, its loop parse_from and its
--   switch parse_arg; an error is a value of ArgError.
-- Runtime/Stores: internal/runtime/memory_stores.go. Each store is its map, and each operation
--   gives the map after it; the interface of the health cache is a record of operations and laws.
-- Text, Prelude: strings, dictionaries, numbers and lists, for all of these.
-- Examples: runs of the code on small data.
--
-- Text is a list of code points. Changing the case is Go's below 256, and beyond it a code point
-- stands for itself. A number of the command line is read as Go's 64-bit int, and what is out of
-- range is an error. Lengths and counts are natural numbers: a list that fits in memory has a
-- length far below 2^63. All loops run over a list, so no fuel is needed; except that the digits
-- of a number are written on fuel, which the number itself gives and which is enough, since the
-- digits read back as the number, and that the wait for a background task loops on fuel, of which
-- one turn for each channel and one more are enough. A map is an association list, which has its
-- entries in one of the orders that Go may yield. The locks of the stores and of the limiter make
-- each call one step, so what runs together is a sequence of steps. The readings of the clock are
-- arguments. Pointers are values: that MergeJobs and NormalizeJobMetadata write through metadata
-- that others may share is not modelled.
--
-- Parameters: net/url, the call options of the package llms, the JSON encoding with the digest of
-- the criteria, the verification of a posting within its time, the answers of the network, the
-- widths and styles of the terminal, the product of floating point numbers that places a scroll
-- bar, and the scores by which jobs are sorted.
--
-- Not modelled: the browser and the network, language models, SQLite, the reading of YAML and
-- JSON, the styles of the terminal, and what of company health calls services.
pub mod Prelude
pub mod Text
pub mod Domain
pub mod Runtime
pub mod Fetcher
pub mod Health
pub mod Llm
pub mod Tui
pub mod Tuiapp
pub mod Examples
