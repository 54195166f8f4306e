-- ===== src/Workspace/Tests.antt =====
-- Plans run at concrete tasks: a workspace that logs which task ran, and what the last one reads.
use mep.Prelude.{
  Bool-cases, inl, inr, true, ◌==◌, if◌then◌else◌, ℕ, ◌≡◌, ◌≢◌, refl, Option, none, some, List, [],
  ◌∷◌, ◌++◌,
}
use mathlib.Core.Option
use mep.Workspace.Plan.{Task, task_loop, SerErrInfo, set_first_error_code}
use mep.Workspace.Runner.{Schedule, wk_run}
use mep.Workspace.Total.{wk_run_total}
use mep.Workspace.Handlers.{handler_plan, handle, wk_run-handler_plan}

-- a task that logs its number, and reports the code
abbrev logger : ℕ → ℕ → Task (List ℕ)
unfolding set_first_error_code task_loop
logger n code = record {
  load_in = λ w. w;
  on_request = λ ser w b. (w ++ n ∷ [], set_first_error_code b code "failed", 0);
  load_out = λ w. w;
  rounds = 1;
  ends = λ ser w b e. cc;
}

-- the last task logs the code of the error that it reads
abbrev report : Option SerErrInfo → ℕ
report none = 99
report (some e) = e.err_code

abbrev last : Task (List ℕ)
unfolding task_loop
last = record {
  load_in = λ w. w;
  on_request = λ ser w b. (w ++ report ser ∷ [], b, 0);
  load_out = λ w. w;
  rounds = 1;
  ends = λ ser w b e. cc;
}

-- a task that asks to be run again, and then not
abbrev patient : Task (List ℕ)
unfolding task_loop
patient = record {
  load_in = λ w. w;
  on_request = λ ser w b.
      (w ++ 5 ∷ [], record b { err_msg = "again" }, (if b.err_msg == "again" then 0 else 1));
  load_out = λ w. w;
  rounds = 2;
  ends = λ ser w b. elim (Bool-cases (b.err_msg == "again")) [
    | inl second ↦ rw second (λ e. cc)
    | inr first ↦ rw first (λ e. cc)
  ];
}

repeated : handle (patient ∷ []) last [] ≡ 5 ∷ 5 ∷ 0 ∷ []
unfolding handle task_loop
repeated = refl

abbrev schedule : Schedule (List ℕ)
schedule = record { order = λ l. l; early = λ g i. true; last_order = λ l. l }

-- The second of three tasks fails with code 7: the third does not run, and the last reads 7.
handled : handle (logger 1 0 ∷ logger 2 7 ∷ logger 3 0 ∷ []) last [] ≡ 1 ∷ 2 ∷ 7 ∷ []
unfolding handle logger task_loop
handled = refl

wk_run_total_example : wk_run schedule (handler_plan (logger 1 0 ∷ logger 2 7 ∷ []) last) [] ≢ none
wk_run_total_example = wk_run_total schedule (handler_plan (logger 1 0 ∷ logger 2 7 ∷ []) last) []

wk_run-handler_plan_example :
    Option.map (λ r. r.1) (wk_run schedule (handler_plan (logger 1 0 ∷ logger 2 7 ∷ []) last) [])
    ≡ some (handle (logger 1 0 ∷ logger 2 7 ∷ []) last [])
wk_run-handler_plan_example = wk_run-handler_plan schedule (logger 1 0 ∷ logger 2 7 ∷ []) last []
