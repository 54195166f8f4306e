-- ===== src/MepServer/Sync/Terminated.antt =====
-- mepserver/mm5/task/sync.go: the wait for an application that terminates, and the jobs that its end
-- deletes.
use mep.Prelude.{
  ℕ, zero, suc, String, ◌≡◌, ◌≢◌, ◌⊎◌, refl, ap, ◌∙◌, subst⁻¹, inl, inr, ◌≤◌, true, false, none,
  some, arith, Option-cases,
}
use mep.MepServer.Backend.Laws.{IsRegistry}
use mep.MepServer.Sync.{Outcome, Outcome-cases, done, failed, panicked, Env, TaskInfo, jobs_path}
use mep.MepServer.Sync.Worker.{clean_processing_cache}
use mep.MepServer.Sync.Paths.{jobs_path-starts_with}
use mep.MepServer.Sync.Success.{clean-kv}
use mep.MepServer.Sync.Termination.{
  Notifier, response, await_response, handle_response_from_app_instance, app_termination_timeout,
  is_terminating, handle_termination_notification, handle_app_termination,
}
use mep.MepServer.Appd.{Subscriptions, is_app_instance_already_created}

module _ {B K V : Type 0} (env : Env B K V) (subs : Subscriptions B) (notifier : Notifier B K) where
  -- the store after a number of sleeps
  abbrev pub after_sleeps : ℕ → K → K
  after_sleeps zero s = s
  after_sleeps (suc n) s = after_sleeps n (notifier.sleep s)

  -- How the wait ended after `n` of at most `rounds` sleeps: the time was over, the application had
  -- confirmed, or its record could not be read; before that it had not confirmed.
  abbrev pub IsAwaited : ℕ → String → K → Outcome × K → Type 0
  IsAwaited rounds app s r =
      (n : ℕ) × (n ≤ rounds)
      × (r.1 ≡ after_sleeps n s)
      × (((n ≡ rounds) × (r.0 ≡ done))
          ⊎ ((response env subs notifier app r.1 ≡ some true) × (r.0 ≡ done))
          ⊎ ((response env subs notifier app r.1 ≡ none) × (r.0 ≡ failed)))

  await_response-IsAwaited :
      (rounds : ℕ) (app : String) (s : K)
      → IsAwaited rounds app s (await_response env subs notifier rounds app s)
  unfolding await_response
  await_response-IsAwaited zero app s = (0, omega arith, refl, inl (refl, refl))
  await_response-IsAwaited (suc rounds) app s =
      elim (Option-cases (response env subs notifier app s)) [
        | inl bad ↦
            let e : await_response env subs notifier (suc rounds) app s ≡ (failed, s) =
              rw (bad, await_response) refl in
            subst⁻¹ (IsAwaited (suc rounds) app s) e (0, omega arith, refl, inr (inr (bad, refl)))
        | inr (true, confirmed) ↦
            let e : await_response env subs notifier (suc rounds) app s ≡ (done, s) =
              rw (confirmed, await_response) refl in
            subst⁻¹ (IsAwaited (suc rounds) app s) e
              (0, omega arith, refl, inr (inl (confirmed, refl)))
        | inr (false, waiting) ↦
            let e : await_response env subs notifier (suc rounds) app s
                ≡ await_response env subs notifier rounds app (notifier.sleep s) =
              rw (waiting, await_response) refl in
            subst⁻¹ (IsAwaited (suc rounds) app s) e
              (later rounds app s _ (await_response-IsAwaited rounds app (notifier.sleep s)))
      ]
    where
      later :
          (rounds : ℕ) (app : String) (s : K) (r : Outcome × K)
          → IsAwaited rounds app (notifier.sleep s) r
          → IsAwaited (suc rounds) app s r
      later rounds app s r (n, bound, e, how) = (
        suc n,
        omega (arith, bound),
        e,
        elim how [ inl (over, ended) ↦ inl (ap suc over, ended) | inr stopped ↦ inr stopped ],
      )

  -- The wait for an application sleeps at most 50 times, and ends without an error if the time is over
  -- or the application has confirmed, and with one if its record cannot be read.
  pub handle_response_from_app_instance-IsAwaited :
      (app : String) (s : K)
      → IsAwaited app_termination_timeout app s
          (handle_response_from_app_instance env subs notifier app s)
  unfolding handle_response_from_app_instance
  handle_response_from_app_instance-IsAwaited app s =
      await_response-IsAwaited app_termination_timeout app s

  -- If the status of the task asks for the termination, its notification does not panic, no
  -- configuration of the instance is stored afterwards and deletions succeed, then nothing is left to
  -- do for the task, and the job of any application is deleted.
  pub handle_app_termination-deletes_all_jobs :
      (law : IsRegistry env.registry) (t : TaskInfo) (s : K) (app : String)
      → is_terminating env subs notifier t s ≡ true
      → (handle_termination_notification env subs notifier t.app_instance_id s).0 ≢ panicked
      → is_app_instance_already_created env t.app_instance_id
          (handle_termination_notification env subs notifier t.app_instance_id s).1
        ≡ false
      → ((p : String) (x : K) → (env.registry.delete p x).0 ≡ true)
      → ((handle_app_termination env subs notifier t s).0 ≡ some true)
        × (law.kv (handle_app_termination env subs notifier t s).1 (jobs_path app) ≡ none)
  unfolding handle_app_termination
  handle_app_termination-deletes_all_jobs law t s app asked calm missing deletes =
      let n = handle_termination_notification env subs notifier t.app_instance_id s in
      let cleaned = clean_processing_cache env "" n.1 in
      let e : handle_app_termination env subs notifier t s ≡ (some true, cleaned.1) =
        elim (Outcome-cases n.0) [
          | inl fine ↦ rw (asked, handle_app_termination) (rw fine (rw missing refl))
          | inr (inl noted) ↦ rw (asked, handle_app_termination) (rw noted (rw missing refl))
          | inr (inr crashed) ↦ absurd (calm crashed)
        ] in
      subst⁻¹ (λ r. (r.0 ≡ some true) × (law.kv r.1 (jobs_path app) ≡ none)) e
        (
          refl,
          clean-kv env t law "" n.1 (jobs_path app) (deletes (jobs_path "") n.1)
              ∙ (rw (jobs_path-starts_with app) refl),
        )
