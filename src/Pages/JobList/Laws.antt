-- ===== src/Pages/JobList/Laws.antt =====
-- What the job list shows after any course of events.
use mathlib.Core.List.{Memᴰ as Mem}
use emailjachai.Common.{
  ℕ, String, ◌≡◌, refl, sym, subst, ◌∙◌, Bool, true, false, Option, none, some, List, [], ◌∷◌,
}
use emailjachai.Common.Text.{nullish}
use emailjachai.Stores.Jobs.{Job, JobStore}
use emailjachai.Stores.Reply.{Reply, replied, rejected}
use emailjachai.Pages.JobList.{
  is_empty, Command, delete, retry, pause, resume, JobsPage, JobsList, shown_jobs, shown_total,
  begin_fetch, finish_fetch, mark, begin_command, finish_command,
}

-- What happens to the page while it is open: a load begins or is answered, a command is given or
-- answered, another page of the list is turned to, or a message changes the store.
pub data Event : Type 0 where
  loads : (silent : Bool) → Event
  loaded : Reply JobsList → Event
  commands : Command → (job_id : String) → Event
  commanded : Command → Reply (Unit {0}) → Event
  turns : (offset : ℕ) → Event
  messages : JobStore → Event

unfoldable pub step : Event → JobsPage → JobsPage
unfolding begin_fetch finish_fetch begin_command finish_command
step (loads silent) s = (begin_fetch silent s).0
step (loaded r) s = finish_fetch r s
step (commands c job_id) s = (begin_command c job_id s).0
step (commanded c r) s = (finish_command c r s).0
step (turns offset) s = record s { offset = offset }
step (messages store) s = record s { store = store }

unfoldable pub run : List Event → JobsPage → JobsPage
unfolding step
run [] s = s
run (e ∷ es) s = run es (step e s)

-- The rows and the total that the server rendered with the page.
abbrev rendered : JobsPage → List Job × ℕ
rendered s = (s.initial_jobs, s.initial_total)

mark-rendered :
    (c : Command) (v : Option String) (s : JobsPage) → rendered (mark c v s) ≡ rendered s
unfolding mark
mark-rendered delete v s = refl
mark-rendered retry v s = refl
mark-rendered pause v s = refl
mark-rendered resume v s = refl

finish_fetch-rendered :
    (r : Reply JobsList) (s : JobsPage) → rendered (finish_fetch r s) ≡ rendered s
unfolding finish_fetch
finish_fetch-rendered (replied true (some d) m) s = refl
finish_fetch-rendered (replied true none m) s = refl
finish_fetch-rendered (replied false body m) s = refl
finish_fetch-rendered rejected s = refl

finish_command-rendered :
    (c : Command) (r : Reply (Unit {0})) (s : JobsPage)
    → rendered (finish_command c r s).0 ≡ rendered s
unfolding finish_command mark
finish_command-rendered delete (replied true body m) s = refl
finish_command-rendered retry (replied true body m) s = refl
finish_command-rendered pause (replied true body m) s = refl
finish_command-rendered resume (replied true body m) s = refl
finish_command-rendered c (replied false body m) s = mark-rendered c none s
finish_command-rendered c rejected s = mark-rendered c none s

step-rendered : (e : Event) (s : JobsPage) → rendered (step e s) ≡ rendered s
unfolding step begin_fetch begin_command
step-rendered (loads silent) s = refl
step-rendered (loaded r) s = finish_fetch-rendered r s
step-rendered (commands c job_id) s = mark-rendered c (some job_id) s
step-rendered (commanded c r) s = finish_command-rendered c r s
step-rendered (turns offset) s = refl
step-rendered (messages store) s = refl

run-rendered : (es : List Event) (s : JobsPage) → rendered (run es s) ≡ rendered s
unfolding run
run-rendered [] s = refl
run-rendered (e ∷ es) s = run-rendered es (step e s) ∙ step-rendered e s

shown-rendered :
    (d : JobsList) (m : String) (s : JobsPage)
    → is_empty (nullish d.jobs []) ≡ true
    → (
      shown_jobs (finish_fetch (replied true (some d) m) s),
      shown_total (finish_fetch (replied true (some d) m) s),
    )
      ≡ rendered s
unfolding shown_jobs shown_total finish_fetch
shown-rendered d m s h = rw h refl

-- The events of a granted removal.
abbrev pub deletion : String → List Event
deletion job_id = commands delete job_id ∷ commanded delete (replied true none "") ∷ []

-- A job that the server rendered with the page and that was then deleted is shown again, with the total
-- of that rendering, when a reply brings an empty list, whatever happened before and after the deletion.
pub deleted_job_returns :
    (before after : List Event) (job : Job) (d : JobsList) (m : String) (s : JobsPage)
    → Mem job s.initial_jobs
    → is_empty (nullish d.jobs []) ≡ true
    → Mem job (
        shown_jobs (
          finish_fetch
            (replied true (some d) m)
            (run after (run (deletion job.job_id) (run before s)))))
      × (shown_total (
            finish_fetch
              (replied true (some d) m)
              (run after (run (deletion job.job_id) (run before s))))
          ≡ s.initial_total)
deleted_job_returns before after job d m s member h =
    subst (λ x. Mem job x.0 × (x.1 ≡ s.initial_total))
      (sym (
        shown-rendered d m (run after (run (deletion job.job_id) (run before s))) h
        ∙ run-rendered after (run (deletion job.job_id) (run before s))
        ∙ run-rendered (deletion job.job_id) (run before s)
        ∙ run-rendered before s))
      (member, refl)
