-- ===== src/Tests/Timers.antt =====
-- The theorems on the life of a timer, at concrete inputs.
use level_ip.Timer.Once.{starts_left, uses_left, life-once}
use level_ip.Timer.Life.{Step, life, uses, starts, ticks, cancels, releases}
use level_ip.Prelude.{ℕ, ◌≤◌, ◌≡◌, ◌++◌, Bool, true, false, some, List, [], ◌∷◌}
use level_ip.Timer.{Timer, Tick}

abbrev at : ℕ → Bool → Tick
at now creates = record { now = now; busy = false; creates = creates }

abbrev armed : Timer
armed = record {
  refcnt = 1;
  expires = 500;
  cancelled = false;
  handler = 8;
  arg = some 9;
  has_free = true;
  locked = false;
}

abbrev steps : List Step
steps = ticks (at 490 true) ∷ ticks (at 510 true) ∷ releases ∷ ticks (at 520 true) ∷ []

life-once_example :
    let es = (life steps armed).1 in
    (starts es ≤ starts_left armed)
    × (uses es ≤ uses_left armed.arg)
    × (starts (life (steps ++ cancels ∷ ticks (at 530 true) ∷ []) armed).1 ≡ starts es)
life-once_example = life-once steps (ticks (at 530 true) ∷ []) armed
