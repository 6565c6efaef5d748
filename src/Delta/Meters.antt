-- ===== src/Delta/Meters.antt =====
-- rohmu/delta/common.py: what a `Progress` says, alone and merged.
use rohmu.Delta.{
  start, Progress, merge_into, add_total, add_fail, add_success, done, assert, new_progress,
  all_final, merge, finished_successfully,
}
use rohmu.Base.{
  ℕ, Method, List, Outcome, None, ◌≤◌, ◌∷◌, ◌≡◌, ok, resume, ◌+◌, ◌>>=◌, err, [], diverge, Bool,
  if_both, arith, Every, true, ◌==◌, not, assertion_error, ◌≢◌, ◌↔◌, false, ◌&&◌, ltb, subst, refl,
  leb, ◌∙◌, suc, zero-add, zero,
}

-- What a caller does with a meter, in order, until a call raises.
pub data Report : Type 0 where
  begin totals failures successes : ℕ → Report
  finish : Report

unfoldable pub report : Report → Method Progress None
report (begin n) s = start n s
report (totals n) s = add_total n s
report (failures n) s = add_fail n s
report (successes n) s = add_success n s
report finish s = done s

unfoldable pub report_all : List Report → Method Progress None
report_all [] s = (ok tt, s)
report_all (r ∷ rs) s = (report r >>= λ _. report_all rs) s

abbrev Sound : Outcome None × Progress → Type 0
Sound (ok _, s) = s.handled ≤ s.total
Sound (err e, s) = Unit
Sound (diverge, s) = Unit

assert-Sound :
    (test : Bool) (s : Progress) → (test ≡ true → s.handled ≤ s.total) → Sound (assert test s)
unfolding assert
assert-Sound true s h = h refl
assert-Sound false s h = tt

add_total-Sound : (n : ℕ) (s : Progress) → s.handled ≤ s.total → Sound (add_total n s)
unfolding add_total
add_total-Sound n s h =
    let added : Progress = record s { total = s.total + n } in
    if_both Sound (n == 0) (ok tt, s) (assert (not s.final) added) h
      (assert-Sound (not s.final) added (λ e. omega arith))

report-Sound : (r : Report) (s : Progress) → s.handled ≤ s.total → Sound (report r s)
unfolding report start add_fail add_success done
report-Sound (begin n) s h =
    if_both Sound (s.total == 0) (add_total n s) (err assertion_error, s) (add_total-Sound n s h) tt
report-Sound (totals n) s h = add_total-Sound n s h
report-Sound (failures n) s h =
    let added : Progress = record s { failed = s.failed + n } in
    if_both Sound (ltb 0 n) (assert (not s.final) added) (err assertion_error, s)
      (assert-Sound (not s.final) added (λ e. h)) tt
report-Sound (successes n) s h =
    let added : Progress = record s { handled = s.handled + n } in
    let test = leb (s.handled + n) s.total && not s.final in
    if_both Sound (ltb 0 n) (assert test added) (err assertion_error, s)
      (assert-Sound test added (λ e. ground arith)) tt
report-Sound finish s h =
    if_both Sound (leb s.handled s.total && not s.final) (ok tt, record s { final = true })
      (err assertion_error, s) h tt

Sound-resume :
    (f : Method Progress None)
    → ((t : Progress) → t.handled ≤ t.total → Sound (f t))
    → (x : Outcome None × Progress) → Sound x
    → Sound (resume x.0 (λ _. f) x.1)
Sound-resume f sound (ok u, t) h = sound t h
Sound-resume f sound (err e, t) h = tt
Sound-resume f sound (diverge, t) h = tt

report_all-Sound : (rs : List Report) (s : Progress) → s.handled ≤ s.total → Sound (report_all rs s)
unfolding report_all
report_all-Sound [] s h = h
report_all-Sound (r ∷ rs) s h =
    Sound-resume (report_all rs) (report_all-Sound rs) (report r s) (report-Sound r s h)

final_refuses :
    (r : Report) (s : Progress)
    → s.final ≡ true
    → r ≢ totals 0
    → r ≢ begin 0
    → (report r s).0 ≡ err assertion_error
unfolding report start add_total add_fail add_success done assert
final_refuses (begin zero) s e nt nb = absurd (nb refl)
final_refuses (begin (suc n)) s e nt nb = rw e (ground arith)
final_refuses (totals zero) s e nt nb = absurd (nt refl)
final_refuses (totals (suc n)) s e nt nb = rw e (ground arith)
final_refuses (failures n) s e nt nb = rw e (ground arith)
final_refuses (successes n) s e nt nb = rw e (ground arith)
final_refuses finish s e nt nb = rw e (ground arith)

-- A meter that is used from the start, with no call that has raised, has not handled more than there
-- is; and once it is final, every report raises an AssertionError, but for `add_total(0)` and `start(0)`.
pub progress_sound :
    (rs : List Report) (s : Progress)
    → report_all rs new_progress ≡ (ok tt, s)
    → (s.handled ≤ s.total)
      × (s.final ≡ true
          → (r : Report) → r ≢ totals 0
          → r ≢ begin 0
          → (report r s).0 ≡ err assertion_error)
unfolding report start add_total add_fail add_success done assert
progress_sound rs s h = (
  subst Sound h (report_all-Sound rs new_progress (omega arith)),
  λ final r nt nb. final_refuses r s final nt nb,
)

-- The sum of what meters say.
abbrev sums : (Progress → ℕ) → List Progress → ℕ
sums f [] = 0
sums f (p ∷ ps) = f p + sums f ps

merge_into-sums :
    (p : Progress) (ps : List Progress)
    → ((merge_into p ps).handled ≡ p.handled + sums (λ q. q.handled) ps)
      × ((merge_into p ps).failed ≡ p.failed + sums (λ q. q.failed) ps)
      × ((merge_into p ps).total ≡ p.total + sums (λ q. q.total) ps)
unfolding merge_into
merge_into-sums p [] = (omega arith, omega arith, omega arith)
merge_into-sums p (q ∷ qs) =
    let added : Progress = record p {
      handled = p.handled + q.handled;
      failed = p.failed + q.failed;
      total = p.total + q.total;
    } in
    let (h, f, t) = merge_into-sums added qs in
    (omega (arith, h), omega (arith, f), omega (arith, t))

sums_le :
    (ps : List Progress)
    → Every (λ p. p.handled ≤ p.total) ps
    → sums (λ q. q.handled) ps ≤ sums (λ q. q.total) ps
sums_le [] h = omega arith
sums_le (p ∷ ps) h = omega (arith, h.0, sums_le ps h.1)

all_finished :
    (ps : List Progress)
    → Every (λ p. p.handled ≤ p.total) ps
    → (all_final ps
          && sums (λ q. q.failed) ps == 0
          && sums (λ q. q.handled) ps == sums (λ q. q.total) ps)
        ≡ true
      ↔ Every (λ p. finished_successfully p ≡ true) ps
unfolding all_final finished_successfully
all_finished [] h = (λ e. tt, λ e. refl)
all_finished (p ∷ ps) h =
    let (to, from) = all_finished ps h.1 in
    (
      λ e. (ground (arith, h.0, sums_le ps h.1), to (ground (arith, h.0, sums_le ps h.1))),
      λ e. ground (arith, from e.1, e.0),
    )

-- Meters that have not handled more than they should are merged into one that has finished
-- successfully exactly when each of them has.
pub finished_successfully-merge :
    (ps : List Progress)
    → Every (λ p. p.handled ≤ p.total) ps
    → finished_successfully (merge ps) ≡ true ↔ Every (λ p. finished_successfully p ≡ true) ps
unfolding merge finished_successfully
finished_successfully-merge ps h =
    let (handled, failed, total) = merge_into-sums new_progress ps in
    rw
      (
        handled ∙ zero-add (sums (λ q. q.handled) ps),
        failed ∙ zero-add (sums (λ q. q.failed) ps),
        total ∙ zero-add (sums (λ q. q.total) ps),
      )
      (all_finished ps h)
