-- ===== src/Timer.antt =====
-- src/timer.c: the list of timers, the tick, and the calls of the owners of a timer. Pointers
-- (handlers and their arguments) are numbers; a call is one step, since it takes the locks.
pub mod Life
pub mod Once
pub mod Held
use level_ip.Prelude.{
  ltb, ◌==◌, if◌then◌else◌, u32, sub32, ◌+◌, Bool, true, false, not, ◌&&◌, ◌||◌, Option, none, some,
  List, [], ◌∷◌, ◌++◌, ℕ,
}

-- struct timer. `locked` is its mutex at the end of a call, `has_free` tells whether arg_free is set.
pub record Timer : Type 0 where
  pub refcnt : ℕ  -- int, as its bit pattern
  pub expires : ℕ
  pub cancelled : Bool
  pub handler : ℕ
  pub arg : Option ℕ
  pub has_free : Bool
  pub locked : Bool

-- Starting the handler in a thread of its own, calling arg_free, giving the timer back.
pub data Event : Type 0 where
  spawned : ℕ → Option ℕ → Event
  arg_freed : ℕ → Event
  timer_freed : Event

-- What a tick meets at one timer: the counter, whether another thread holds the timer's mutex, and
-- whether pthread_create succeeds.
pub record Tick : Type 0 where
  pub now : ℕ
  pub busy : Bool
  pub creates : Bool

unfoldable pub timer_add_with_release : ℕ → ℕ → ℕ → Option ℕ → Bool → Timer
timer_add_with_release tick expire handler arg has_free = record {
  refcnt = 1;
  expires = u32 (tick + expire);
  cancelled = false;
  handler = handler;
  arg = arg;
  has_free = has_free;
  locked = false;
}

unfoldable pub timer_add : ℕ → ℕ → ℕ → Option ℕ → Timer
unfolding timer_add_with_release
timer_add tick expire handler arg = timer_add_with_release tick expire handler arg false

unfoldable pub timer_oneshot : ℕ → ℕ → ℕ → Option ℕ → Timer
timer_oneshot tick expire handler arg = record {
  refcnt = 0;
  expires = u32 (tick + expire);
  cancelled = false;
  handler = handler;
  arg = arg;
  has_free = false;
  locked = false;
}

unfoldable pub timer_release : Timer → Timer
timer_release t = record t { refcnt = sub32 t.refcnt 1 }

unfoldable pub timer_cancel : Timer → Timer
timer_cancel t = record t { refcnt = sub32 t.refcnt 1; cancelled = true }

unfoldable pub timer_free : Timer → List Event
timer_free t = elim t.arg [
  | none ↦ timer_freed ∷ []
  | some a ↦ if t.has_free then arg_freed a ∷ timer_freed ∷ [] else timer_freed ∷ []
]

-- The end of the loop body: a cancelled timer that nobody holds is taken out and freed.
unfoldable pub sweep : Timer → Option Timer × List Event
sweep t = if t.cancelled && (t.refcnt == 0) then (none, timer_free t) else (some t, [])

unfoldable pub is_due : ℕ → Timer → Bool
is_due now t = not t.cancelled && ltb t.expires now

abbrev after_event : Event → Option Timer × List Event → Option Timer × List Event
after_event e r = (r.0, e ∷ r.1)

-- The loop body of timers_tick. Where no thread can be created it goes on to the next timer without
-- giving up the mutex of this one.
unfoldable pub tick_one : Tick → Timer → Option Timer × List Event
tick_one k t =
    if t.locked || k.busy
    then (some t, [])
    else if not (is_due k.now t)
    then sweep t
    else if k.creates
    then after_event (spawned t.handler t.arg) (sweep (record t { arg = none; cancelled = true }))
    else (some (record t { locked = true }), [])

abbrev keep : Option Timer → List Timer → List Timer
keep none ts = ts
keep (some t) ts = t ∷ ts

-- timers_tick, with what it meets at each timer.
unfoldable pub timers_tick : (Timer → Tick) → List Timer → List Timer × List Event
unfolding tick_one
timers_tick env [] = ([], [])
timers_tick env (t ∷ ts) =
    let rest = timers_tick env ts in let r = tick_one (env t) t in (keep r.0 rest.0, r.1 ++ rest.1)
