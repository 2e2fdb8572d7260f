-- ===== src/Scheduler/Fallback/Priority.antt =====
-- Which of the recorded failures a strategy returns, and what becomes of the bodies it drops.
use mathlib.Core.List.{append-nil, append_assoc}
use oh_my_api.Base.{
  ◌≡◌, refl, Bool, true, false, Option, none, some, List, [], ◌∷◌, ◌++◌, ◌&&◌, arith, sym, ◌∙◌,
}
use oh_my_api.Scheduler.Types.{
  Err, all_rate_limited, all_providers_failed, Result, Outcome, result, error,
}
use oh_my_api.Scheduler.Fallback.{
  Fallback, new_fallback, record_rate_limit, record_hard_result, record_hard_error,
  record_soft_result, final, close_body,
}

-- What a strategy records, in the order of the attempts.
pub data Record : Type 0 where
  limited : Record
  hard : Result → Record
  failed : Err → Record
  soft : Result → Record

pub record_one : Record → Fallback → Fallback
record_one limited f = record_rate_limit f
record_one (hard r) f = record_hard_result r f
record_one (failed e) f = record_hard_error e f
record_one (soft r) f = record_soft_result r f

pub record_all : List Record → Fallback → Fallback
record_all [] f = f
record_all (r ∷ rs) f = record_all rs (record_one r f)

-- The last hard failure of a history, after `seen`; the last soft one that no hard one followed;
-- and whether nothing but rate limits was seen.
abbrev pub last_hard : Option Outcome → List Record → Option Outcome
last_hard seen [] = seen
last_hard seen (hard r ∷ rs) = last_hard (some (result r)) rs
last_hard seen (failed e ∷ rs) = last_hard (some (error e)) rs
last_hard seen (limited ∷ rs) = last_hard seen rs
last_hard seen (soft _ ∷ rs) = last_hard seen rs

abbrev pub last_soft : Option Result → List Record → Option Result
last_soft seen [] = seen
last_soft seen (soft r ∷ rs) = last_soft (some r) rs
last_soft seen (limited ∷ rs) = last_soft seen rs
last_soft seen (hard _ ∷ rs) = last_soft none rs
last_soft seen (failed _ ∷ rs) = last_soft none rs

abbrev pub only_limited : List Record → Bool
only_limited [] = true
only_limited (limited ∷ rs) = only_limited rs
only_limited (_ ∷ rs) = false

-- Hard before soft before nothing.
abbrev pub Verdict : Option Outcome → Option Result → Bool → Outcome
Verdict (some o) seen only = o
Verdict none (some r) only = result r
Verdict none none true = error all_rate_limited
Verdict none none false = error all_providers_failed

-- The three fields on hard failures hold the last of them.
abbrev Holds : Option Outcome → Fallback → Type 0
Holds none f = (f.last_hard_was_err ≡ false) × (f.last_hard_result ≡ none)
Holds (some (result r)) f = (f.last_hard_was_err ≡ false) × (f.last_hard_result ≡ some r)
Holds (some (error e)) f = (f.last_hard_was_err ≡ true) × (f.last_hard_err ≡ some e)

final-Verdict :
    (h : Option Outcome) (f : Fallback)
    → Holds h f
    → (final f).0 ≡ Verdict h f.last_soft_result f.rate_limited_only
unfolding final
final-Verdict none f k = ground arith
final-Verdict (some (result r)) f k = ground arith
final-Verdict (some (error e)) f k = ground arith

record_all-final :
    (rs : List Record) (h : Option Outcome) (f : Fallback)
    → Holds h f
    → (final (record_all rs f)).0
      ≡ Verdict
          (last_hard h rs)
          (last_soft f.last_soft_result rs)
          (f.rate_limited_only && only_limited rs)
unfolding record_all record_one record_hard_result record_hard_error record_soft_result
record_all-final [] h f k = ground (arith, final-Verdict h f k)
record_all-final (limited ∷ rs) h f k = record_all-final rs h f k
record_all-final (hard r ∷ rs) h f k =
    ground (arith, record_all-final rs (some (result r)) (record_hard_result r f) (refl, refl))
record_all-final (failed e ∷ rs) h f k =
    ground (arith, record_all-final rs (some (error e)) (record_hard_error e f) (refl, refl))
record_all-final (soft r ∷ rs) none f k =
    ground (arith, record_all-final rs none (record_soft_result r f) k)
record_all-final (soft r ∷ rs) (some (result q)) f k =
    ground (arith, record_all-final rs (some (result q)) (record_soft_result r f) k)
record_all-final (soft r ∷ rs) (some (error e)) f k =
    ground (arith, record_all-final rs (some (error e)) (record_soft_result r f) k)

-- Over any history of failures the fallback returns the last hard failure, whether it was a result
-- or an error; without one, the last soft result; without that, that all were rate limited if
-- nothing was attempted, and else that all failed.
pub final_priority :
    (rs : List Record)
    → (final (record_all rs new_fallback)).0
      ≡ Verdict (last_hard none rs) (last_soft none rs) (only_limited rs)
unfolding new_fallback
final_priority rs = record_all-final rs none new_fallback (refl, refl)

-- The soft results of a history.
abbrev pub softs : List Record → List Result
softs [] = []
softs (soft r ∷ rs) = r ∷ softs rs
softs (limited ∷ rs) = softs rs
softs (hard _ ∷ rs) = softs rs
softs (failed _ ∷ rs) = softs rs

abbrev pub held : Option Result → List Result
held none = []
held (some r) = r ∷ []

abbrev accounted : Fallback → List Result
accounted f = f.closed ++ held f.last_soft_result

close_body-held :
    (o : Option Result) (closed : List Result) → close_body o closed ≡ closed ++ held o
close_body-held none closed = sym (append-nil closed)
close_body-held (some r) closed = refl

record_one-accounted :
    (r : Record) (rs : List Record) (f : Fallback)
    → accounted (record_one r f) ++ softs rs ≡ accounted f ++ softs (r ∷ rs)
unfolding record_one record_hard_result record_hard_error record_soft_result
record_one-accounted limited rs f = refl
record_one-accounted (hard r) rs f = rw (close_body-held f.last_soft_result f.closed, append-nil)
record_one-accounted (failed e) rs f = rw (close_body-held f.last_soft_result f.closed, append-nil)
record_one-accounted (soft r) rs f = rw (close_body-held f.last_soft_result f.closed, append_assoc)

record_all-accounted :
    (rs : List Record) (f : Fallback) → accounted (record_all rs f) ≡ accounted f ++ softs rs
unfolding record_all
record_all-accounted [] f = sym (append-nil (accounted f))
record_all-accounted (r ∷ rs) f =
    record_all-accounted rs (record_one r f) ∙ record_one-accounted r rs f

-- Over any history of failures the bodies closed, and then the soft result still held, are the
-- soft results recorded, each once and in order: no soft body is lost or closed twice, and nothing
-- but soft results is closed.
pub closed_softs :
    (rs : List Record)
    → let f = record_all rs new_fallback in f.closed ++ held f.last_soft_result ≡ softs rs
unfolding new_fallback
closed_softs rs = record_all-accounted rs new_fallback
