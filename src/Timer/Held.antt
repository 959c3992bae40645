-- ===== src/Timer/Held.antt =====
-- src/timer.c: what ticks leave alone: held timers and locked timers.
use level_ip.Timer.Life.{resume, life, ticking, ticks}
use level_ip.Prelude.{
  ℕ, ◌≡◌, refl, sym, subst, ◌≢◌, true, false, Option, none, some, List, [], ◌∷◌, arith,
}
use level_ip.Timer.{Event, Tick, sweep, is_due, tick_one, Timer}

-- There is a timer, with this count of holders.
abbrev pub HeldBy : ℕ → Option Timer → Type 0
HeldBy n none = ⊥
HeldBy n (some u) = u.refcnt ≡ n

tick_one-HeldBy : (k : Tick) (t : Timer) → t.refcnt ≢ 0 → HeldBy t.refcnt (tick_one k t).0
unfolding tick_one sweep
tick_one-HeldBy k t h = ground arith

resume-HeldBy :
    (n : ℕ) (f : Timer → Option Timer × List Event) (es : List Event) (r : Option Timer)
    → ((u : Timer) → u.refcnt ≡ n → HeldBy n (f u).0)
    → HeldBy n r
    → HeldBy n (resume es f r).0
resume-HeldBy n f es none h a = a
resume-HeldBy n f es (some u) h a = h u a

-- No number of ticks frees a timer while its handle is held: the count of the holders stays too.
pub life-HeldBy :
    (n : ℕ) (ks : List Tick) (t : Timer) → t.refcnt ≡ n → n ≢ 0 → HeldBy n (life (ticking ks) t).0
unfolding life
life-HeldBy n [] t q h = q
life-HeldBy n (k ∷ ks) t q h =
    resume-HeldBy n (λ u. life (ticking ks) u) (tick_one k t).1 (tick_one k t).0
      (λ u e. life-HeldBy n ks u e h)
      (subst (λ m. HeldBy m (tick_one k t).0) q
        (tick_one-HeldBy k t (subst (λ m. m ≢ 0) (sym q) h)))

locked_tick : (k : Tick) (t : Timer) → t.locked ≡ true → tick_one k t ≡ (some t, [])
unfolding tick_one
locked_tick k t h = simp h

locked_life : (ks : List Tick) (t : Timer) → t.locked ≡ true → life (ticking ks) t ≡ (some t, [])
unfolding life
locked_life [] t h = refl
locked_life (k ∷ ks) t h = simp (locked_tick k t h, locked_life ks t h)

failed_tick :
    (k : Tick) (t : Timer)
    → t.locked ≡ false
    → k.busy ≡ false
    → is_due k.now t ≡ true
    → k.creates ≡ false
    → tick_one k t ≡ (some (record t { locked = true }), [])
unfolding tick_one
failed_tick k t l b d c = simp (l, b, d, c)

-- A due timer whose thread cannot be created keeps its mutex locked for good: no later tick starts
-- its handler, tries again or frees it.
pub life_stuck :
    (k : Tick) (ks : List Tick) (t : Timer)
    → t.locked ≡ false
    → k.busy ≡ false
    → is_due k.now t ≡ true
    → k.creates ≡ false
    → life (ticks k ∷ ticking ks) t ≡ (some (record t { locked = true }), [])
unfolding life
life_stuck k ks t l b d c =
    simp (failed_tick k t l b d c, locked_life ks (record t { locked = true }) refl)
