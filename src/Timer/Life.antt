-- ===== src/Timer/Life.antt =====
-- src/timer.c: the life of one timer under ticks and the calls of its owner, in any order.
use level_ip.Prelude.{ℕ, suc, ◌+◌, ◌≡◌, Option, none, some, List, [], ◌∷◌, ◌++◌, arith}
use level_ip.Timer.{
  Event, Tick, timer_release, timer_cancel, tick_one, spawned, arg_freed, timer_freed, Timer,
}

pub data Step : Type 0 where
  ticks : Tick → Step
  cancels releases : Step

unfoldable pub step : Step → Timer → Option Timer × List Event
step (ticks k) t = tick_one k t
step cancels t = (some (timer_cancel t), [])
step releases t = (some (timer_release t), [])

-- A timer that is gone has no further steps.
abbrev pub resume :
    List Event → (Timer → Option Timer × List Event) → Option Timer → Option Timer × List Event
resume es f none = (none, es)
resume es f (some u) = ((f u).0, es ++ (f u).1)

-- The steps of a life, up to the one that frees the timer.
unfoldable pub life : List Step → Timer → Option Timer × List Event
unfolding step
life [] t = (some t, [])
life (x ∷ xs) t = resume (step x t).1 (λ u. life xs u) (step x t).0

abbrev pub ticking : List Tick → List Step
ticking [] = []
ticking (k ∷ ks) = ticks k ∷ ticking ks

-- How often the argument leaves the timer: to a handler's thread, or to arg_free.
abbrev pub uses : List Event → ℕ
uses [] = 0
uses (spawned h (some a) ∷ es) = suc (uses es)
uses (arg_freed a ∷ es) = suc (uses es)
uses (_ ∷ es) = uses es

abbrev pub starts : List Event → ℕ
starts [] = 0
starts (spawned h a ∷ es) = suc (starts es)
starts (_ ∷ es) = starts es

pub starts-append : (es fs : List Event) → starts (es ++ fs) ≡ starts es + starts fs
starts-append [] fs = omega arith
starts-append (spawned h a ∷ es) fs = omega (arith, starts-append es fs)
starts-append (arg_freed a ∷ es) fs = starts-append es fs
starts-append (timer_freed ∷ es) fs = starts-append es fs
