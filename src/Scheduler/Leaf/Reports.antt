-- ===== src/Scheduler/Leaf/Reports.antt =====
-- What a candidate's attempts report about its health.
use oh_my_api.Base.{
  ℕ, suc, zero, ◌≡◌, refl, sym, ap, ◌∙◌, List, [], ◌∷◌, ◌++◌, arith, Text, All, All-append, All-map,
  length, length-append, ◌+◌, ◌≤◌, subst, leb, if◌then◌else◌,
}
use oh_my_api.Health.{
  Checker, Report, failure, marked_for, marked_escalating, apply, apply_all, make_health_key,
  report_success, report_failure, mark_unhealthy_for, mark_unhealthy_escalating,
}
use oh_my_api.Health.Invariant.{subject}
use oh_my_api.Scheduler.Types.{
  success, hard_failure, soft_failure, no_health_action, mark_unhealthy, mark_unhealthy_quota, Task,
  Outcome, result, error,
}
use oh_my_api.Scheduler.Abort.{is_context_abort}
use oh_my_api.Scheduler.Classify.{apply_health_action, quota_base_cooldown, quota_max_cooldown}
use oh_my_api.Scheduler.World.{Env, World}
use oh_my_api.Scheduler.Leaf.{
  apply_attempt_health, report_failure_unless_abort, execute_once, allow_task, passed, with_health,
  retry_after, execute_task,
}
use oh_my_api.Scheduler.Leaf.Retries.{extra_of, stops, aborted, refused, again, retry_after-cases}

abbrev pub key_of : Task → Text
key_of task = make_health_key task.provider_name task.outbound_protocol

-- A history of at most `most` reports, all about the given keys, leads from one state of the
-- checker to another.
pub record Reaches (IsKey : Text → Type 0) (most : ℕ) (c c' : Checker) : Type 0 where
  pub reports : List Report
  pub few : length reports ≤ most
  pub about : All (λ r. IsKey (subject r)) reports
  pub leads : c' ≡ apply_all reports c

apply_all-append :
    (rs qs : List Report) (c : Checker) → apply_all (rs ++ qs) c ≡ apply_all qs (apply_all rs c)
unfolding apply_all
apply_all-append [] qs c = refl
apply_all-append (r ∷ rs) qs c = apply_all-append rs qs (apply r c)

module _ {IsKey : Text → Type 0} where
  pub stay : (most : ℕ) (c : Checker) → Reaches IsKey most c c
  unfolding apply_all
  stay most c = record { reports = []; few = omega arith; about = tt; leads = refl }

  pub followed :
      {most more : ℕ} {c d e : Checker}
      → Reaches IsKey most c d
      → Reaches IsKey more d e
      → Reaches IsKey (most + more) c e
  followed {c} a b = record {
    reports = a.reports ++ b.reports;
    few = omega (arith, a.few, b.few, length-append a.reports b.reports);
    about = All-append (λ r. IsKey (subject r)) a.reports b.reports a.about b.about;
    leads =
        b.leads ∙ ap (apply_all b.reports) a.leads ∙ sym (apply_all-append a.reports b.reports c);
  }

  pub from_same :
      {most : ℕ} {c d e : Checker} → c ≡ d → Reaches IsKey most c e → Reaches IsKey most d e
  from_same {most} {e} same r = subst (λ x. Reaches IsKey most x e) same r

  pub loosened :
      {most more : ℕ} {c d : Checker}
      → most ≤ more
      → Reaches IsKey most c d
      → Reaches IsKey more c d
  loosened le r = record {
    reports = r.reports;
    few = omega (arith, r.few);
    about = r.about;
    leads = r.leads;
  }

pub wider :
    {K L : Text → Type 0} {most : ℕ} {c d : Checker}
    → ((k : Text) → K k → L k)
    → Reaches K most c d
    → Reaches L most c d
wider f r = record {
  reports = r.reports;
  few = r.few;
  about = All-map (λ q. f (subject q)) r.reports r.about;
  leads = r.leads;
}

-- The reports that one outcome makes.
abbrev reports_of : ℕ → Task → Outcome → List Report
reports_of now task (error e) = if is_context_abort e then [] else failure now (key_of task) ∷ []
reports_of now task (result r) = elim r.health_action [
  | mark_unhealthy d ↦ marked_for now (key_of task) d ∷ []
  | mark_unhealthy_quota ↦
      marked_escalating now (key_of task) quota_base_cooldown quota_max_cooldown ∷ []
  | no_health_action ↦ elim r.failure_kind [
    | success ↦ oh_my_api.Health.success (key_of task) ∷ []
    | hard_failure ↦ if leb 500 r.response.status_code then failure now (key_of task) ∷ [] else []
    | soft_failure ↦ []
  ]
]

reports_of-about :
    (now : ℕ) (task : Task) (o : Outcome)
    → All (λ r. subject r ≡ key_of task) (reports_of now task o)
reports_of-about now task (error e) = ground arith
reports_of-about now task (result r) = ground arith

reports_of-leads :
    (now : ℕ) (task : Task) (o : Outcome) (c : Checker)
    → apply_attempt_health now task o c ≡ apply_all (reports_of now task o) c
unfolding apply_attempt_health apply_health_action report_failure_unless_abort apply_all apply
reports_of-leads now task (error e) c = ground arith
reports_of-leads now task (result r) c = ground arith

reports_of-few : (now : ℕ) (task : Task) (o : Outcome) → length (reports_of now task o) ≤ 1
reports_of-few now task (error e) = ground arith
reports_of-few now task (result r) = ground arith

module _ (env : Env) where
  IsOwn : Task → Text → Type 0
  IsOwn task k = k ≡ key_of task

  with_health-Reaches :
      (task : Task) (o : Outcome) (w w' : World env)
      → w'.health ≡ w.health
      → Reaches (IsOwn task) 1 w.health (with_health env task o w').health
  unfolding with_health IsOwn
  with_health-Reaches task o w w' h = record {
    reports = reports_of (env.clock w'.net) task o;
    few = reports_of-few (env.clock w'.net) task o;
    about = reports_of-about (env.clock w'.net) task o;
    leads =
        reports_of-leads (env.clock w'.net) task o w'.health
        ∙ ap (apply_all (reports_of (env.clock w'.net) task o)) h;
  }

  allow_task-health : (task : Task) (w : World env) → (allow_task env task w).1.health ≡ w.health
  unfolding allow_task
  allow_task-health task w = refl

  execute_once-health :
      (task : Task) (w : World env) → (execute_once env task w).1.health ≡ w.health
  unfolding execute_once
  execute_once-health task w = refl

  retry_after-Reaches :
      (left : ℕ) (task : Task) (o : Outcome) (w : World env)
      → Reaches (IsOwn task) 1 w.health (retry_after env left task o w).1.health
  unfolding retry_after
  retry_after-Reaches zero task o w = with_health-Reaches task o w w refl
  retry_after-Reaches (suc left) task o w =
      let R = λ (p : Outcome × World env). Reaches (IsOwn task) 1 w.health p.1.health in
      elim (retry_after-cases env left task o w) [
        | stops e ↦ subst R (sym e) (with_health-Reaches task o w w refl)
        | aborted e ↦ subst R (sym e) (stay 1 w.health)
        | refused e ↦
            let w1 = (allow_task env task (passed env w)).1 in
            subst R (sym e)
              (with_health-Reaches task o w w1 (allow_task-health task (passed env w)))
        | again e ↦
            let w1 = (allow_task env task (passed env w)).1 in
            let next = execute_once env task w1 in
            let same = execute_once-health task w1 ∙ allow_task-health task (passed env w) in
            subst R (sym e) (from_same same (retry_after-Reaches left task next.0 next.1))
      ]

  -- However often a candidate is tried, it changes the health of the upstreams by at most one
  -- report, and that is about the candidate's own key.
  pub execute_task-Reaches :
      (task : Task) (w : World env)
      → Reaches (λ k. k ≡ key_of task) 1 w.health (execute_task env task w).1.health
  unfolding execute_task IsOwn
  execute_task-Reaches task w =
      let first = execute_once env task w in
      from_same (execute_once-health task w)
        (retry_after-Reaches (extra_of task) task first.0 first.1)
