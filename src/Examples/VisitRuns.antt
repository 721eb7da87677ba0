-- ===== src/Examples/VisitRuns.antt =====
-- The visits of a run.
use jobscout.Prelude.{◌≡◌, refl, [], ◌∷◌, none, some, arith, get_elem?, if◌then◌else◌}
use mathlib.Core.List.Perm
use jobscout.Text.{Text, codes, ◌==◌}
use jobscout.Text.Equality.{eq_iff}
use jobscout.Text.Dict.{text_Eq, get}
use jobscout.Fetcher.Visits.{
  Outcome, Visit, Registry, canceled, new_registry, should_forget, begin_visit, finish_visit, visit,
}
use jobscout.Fetcher.Visits.Key.{Values, SameValues, values_of}
use jobscout.Fetcher.Visits.Flight.{
  IsSingleFlight, Reachable, begin, finish, start, next, Reachable-IsSingleFlight,
}
use jobscout.Fetcher.Visits.Again.{visit_again}

abbrev page : Outcome Text
page = record { value = codes "<html>"; error = none }

abbrev stopped : Outcome Text
stopped = record { value = []; error = some canceled }

abbrev empty_run : Registry Text
empty_run = new_registry

abbrev one_running : Registry Text
one_running = (begin_visit (codes "html:a") empty_run).2

abbrev a_running : Visit Text
a_running = record { key = codes "html:a"; outcome = none }

one_running-Reachable : Reachable one_running
one_running-Reachable = next start (begin (codes "html:a") empty_run)

running_there : get_elem? one_running.entries 0 ≡ some a_running
unfolding begin_visit get
running_there = refl

fresh_key : get (codes "html:a") empty_run.current ≡ none
unfolding get
fresh_key = refl

Reachable-IsSingleFlight_example :
    IsSingleFlight (finish_visit 0 (codes "html:a") stopped one_running)
Reachable-IsSingleFlight_example =
    Reachable-IsSingleFlight
      (next one_running-Reachable (finish 0 a_running stopped one_running running_there refl))

visit_again_example :
    ((visit (some (codes "html:a")) stopped (visit (some (codes "html:a")) page empty_run).1).0
      ≡ some (if should_forget none then stopped else page))
    × ((visit
          (some (codes "html:a"))
          stopped
          (visit (some (codes "html:a")) page empty_run).1).1.fetches
        ≡ (if should_forget none then 2 else 1))
    × ((visit
          (some (codes "html:a"))
          stopped
          (visit (some (codes "html:a")) page empty_run).1).1.hits
        ≡ (if should_forget none then 0 else 1))
visit_again_example = visit_again (codes "html:a") page stopped empty_run fresh_key

abbrev one_order : Values
one_order = (codes "a", codes "1" ∷ []) ∷ (codes "b", codes "2" ∷ []) ∷ []

abbrev other_order : Values
other_order = (codes "b", codes "2" ∷ []) ∷ (codes "a", codes "1" ∷ []) ∷ []

values_agree : (k : Text) → values_of one_order k ≡ values_of other_order k
unfolding get ◌==◌
values_agree k = ground (arith, eq_iff (codes "a") k, eq_iff (codes "b") k)

same_values : SameValues one_order other_order
same_values = record {
  same_names = Perm.swap (codes "b") (codes "a") [];
  same_values = λ k. rw (values_agree k) Perm.rfl;
}
