-- ===== src/Timer/Once.antt =====
-- src/timer.c: how often a timer starts its handler and gives its argument away.
use level_ip.Timer.Life.{
  Step, step, resume, life, uses, starts, starts-append, ticks, cancels, releases,
}
use level_ip.Prelude.{
  if◌then◌else◌, ℕ, ◌+◌, ◌≤◌, ◌≡◌, refl, Option, none, some, List, [], ◌∷◌, ◌++◌, arith,
}
use level_ip.Timer.{
  Event, timer_release, timer_cancel, timer_free, sweep, is_due, tick_one, spawned, arg_freed,
  timer_freed, Timer,
}

-- The starts and uses that a timer still has before it, and those of one that may be gone.
abbrev pub starts_left : Timer → ℕ
starts_left t = if t.cancelled then 0 else 1

abbrev pub uses_left : Option ℕ → ℕ
uses_left none = 0
uses_left (some a) = 1

abbrev left : (Timer → ℕ) → Option Timer → ℕ
left f none = 0
left f (some t) = f t

uses-append : (es fs : List Event) → uses (es ++ fs) ≡ uses es + uses fs
uses-append [] fs = omega arith
uses-append (spawned h none ∷ es) fs = uses-append es fs
uses-append (spawned h (some a) ∷ es) fs = omega (arith, uses-append es fs)
uses-append (arg_freed a ∷ es) fs = omega (arith, uses-append es fs)
uses-append (timer_freed ∷ es) fs = uses-append es fs

step-uses :
    (x : Step) (t : Timer)
    → let r = step x t in uses r.1 + left (λ u. uses_left u.arg) r.0 ≤ uses_left t.arg
unfolding step tick_one sweep timer_free timer_cancel timer_release
step-uses (ticks k) t = ground arith
step-uses cancels t = ground arith
step-uses releases t = ground arith

step-starts :
    (x : Step) (t : Timer) → let r = step x t in starts r.1 + left starts_left r.0 ≤ starts_left t
unfolding step tick_one sweep timer_free timer_cancel timer_release is_due
step-starts (ticks k) t = ground arith
step-starts cancels t = ground arith
step-starts releases t = ground arith

resume_bounds :
    (n m : ℕ) (f : Timer → Option Timer × List Event) (es : List Event) (r : Option Timer)
    → ((u : Timer) → (starts (f u).1 ≤ starts_left u) × (uses (f u).1 ≤ uses_left u.arg))
    → starts es + left starts_left r ≤ n
    → uses es + left (λ u. uses_left u.arg) r ≤ m
    → (starts (resume es f r).1 ≤ n) × (uses (resume es f r).1 ≤ m)
resume_bounds n m f es none h a b = (omega arith, omega arith)
resume_bounds n m f es (some u) h a b =
    (omega (arith, starts-append es (f u).1, h u), omega (arith, uses-append es (f u).1, h u))

life_bounds :
    (xs : List Step) (t : Timer)
    → let es = (life xs t).1 in (starts es ≤ starts_left t) × (uses es ≤ uses_left t.arg)
unfolding life
life_bounds [] t = omega arith
life_bounds (x ∷ xs) t =
    resume_bounds (starts_left t) (uses_left t.arg) (λ u. life xs u) (step x t).1 (step x t).0
      (λ u. life_bounds xs u) (step-starts x t) (step-uses x t)

-- A timer that was just cancelled starts nothing.
cancelled_quiet : (ys : List Step) (t : Timer) → starts (life (cancels ∷ ys) t).1 ≡ 0
unfolding life step timer_cancel
cancelled_quiet ys t = omega (arith, (life_bounds ys (timer_cancel t)).0)

resume-starts :
    (es : List Event) (f g : Timer → Option Timer × List Event) (r : Option Timer)
    → ((u : Timer) → starts (f u).1 ≡ starts (g u).1)
    → starts (resume es f r).1 ≡ starts (resume es g r).1
resume-starts es f g none h = refl
resume-starts es f g (some u) h =
    omega (arith, starts-append es (f u).1, starts-append es (g u).1, h u)

life-cancels :
    (xs ys : List Step) (t : Timer) → starts (life (xs ++ cancels ∷ ys) t).1 ≡ starts (life xs t).1
unfolding life
life-cancels [] ys t = cancelled_quiet ys t
life-cancels (x ∷ xs) ys t =
    resume-starts (step x t).1 (λ u. life (xs ++ cancels ∷ ys) u) (λ u. life xs u) (step x t).0
      (λ u. life-cancels xs ys u)

-- Whatever ticks come and whatever its owner does meanwhile: a timer starts its handler once at most,
-- and not at all any more after its owner has cancelled it, whatever comes then; and its argument is
-- handed to the handler or to arg_free, once at most for both together.
pub life-once :
    (xs ys : List Step) (t : Timer)
    → let es = (life xs t).1 in
      (starts es ≤ starts_left t)
      × (uses es ≤ uses_left t.arg)
      × (starts (life (xs ++ cancels ∷ ys) t).1 ≡ starts es)
life-once xs ys t = let b = life_bounds xs t in (b.0, b.1, life-cancels xs ys t)
