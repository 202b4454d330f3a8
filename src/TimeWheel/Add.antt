-- ===== src/TimeWheel/Add.antt =====
-- `AddTimer`, and `Tick` after it.
use my_little_tool.Prelude.{
  ℕ, suc, ◌+◌, ◌-◌, ◌*◌, ◌/◌, ◌%◌, ◌^◌, ◌<◌, ◌≤◌, ◌≡◌, ◌≢◌, ◌⊎◌, inl, inr, refl, sym, ◌∙◌, subst,
  arith, none, some, ◌∷◌, true, false, ltb, lt_or_ge, ◌&&◌, not, ◌==◌, ok, Returns, ◌>>=◌,
  bind_rule, weaken, if◌then◌else◌,
}
use my_little_tool.TimeWheel.{
  Ptr, null, Timer, World, TimeVal, empty, write, place, add_timer, add_timer_inner, tick,
  now_milliseconds,
}
use my_little_tool.TimeWheel.Store.{write_same}
use my_little_tool.TimeWheel.Lists.{Placed}
use my_little_tool.TimeWheel.Due.{place-Waits}
use my_little_tool.TimeWheel.Alone.{add_timer_inner-later}
use my_little_tool.TimeWheel.Firing.{Timed, waiting, tick-Timed}

module _ (gettimeofday : ℕ → TimeVal) where
  -- `AddTimer` returns NULL and changes nothing when the timeout is 0 or the option is not one of
  -- the three.
  pub add_timer_refuses :
      (fuel handler timeout data_ opt excute_times : ℕ) (w : World)
      → (timeout ≡ 0) ⊎ (3 ≤ opt)
      → add_timer gettimeofday fuel handler timeout data_ opt excute_times w ≡ ok (null, w)
  unfolding add_timer
  add_timer_refuses fuel handler timeout data_ opt excute_times w (inl e) = rw e refl
  add_timer_refuses fuel handler timeout data_ opt excute_times w (inr h) =
      elim (lt_or_ge timeout 1) [
        | inl a ↦ let f : ltb timeout 1 ≡ true = ground arith in rw f refl
        | inr a ↦
            let f : ltb timeout 1 ≡ false = ground arith in
            let g : (not (opt == 0) && not (opt == 1) && not (opt == 2)) ≡ true = ground arith in
            rw (f, g) refl
      ]

  module _ (handler timeout data_ opt excute_times : ℕ) (w : World) where
    -- The timer that `AddTimer` allocates.
    abbrev pub allocated : Timer
    allocated = record {
      handle_ = handler;
      expried_time_ = (timeout + w.tick_) % 2 ^ 64;
      data_ = data_;
      timer_options_ = record { timeout_ = timeout; execu_times_ = excute_times; flag_ = opt };
      next_ = null;
      pre_ = null;
      linked_list_ = none;
    }

    abbrev pub after_malloc : World
    after_malloc = record w { fresh = w.fresh + 1; store = write w.store w.fresh (some allocated) }

    pub add_timer-inner :
        (fuel : ℕ)
        → 1 ≤ timeout
        → opt ≤ 2
        → add_timer gettimeofday fuel handler timeout data_ opt excute_times w
          ≡ add_timer_inner gettimeofday fuel w.fresh after_malloc
    unfolding add_timer
    add_timer-inner fuel a b =
        let f : ltb timeout 1 ≡ false = ground arith in
        let g : (not (opt == 0) && not (opt == 1) && not (opt == 2)) ≡ false = ground arith in
        rw (f, g) refl

    module _ (fuel : ℕ) (two : 2 ≤ fuel) (ne : w.fresh ≢ null) where
      -- The new timer is returned, and it waits in a slot at the same tick.
      abbrev pub Added : Ptr × World → Type 0
      Added r =
          (r.0 ≡ w.fresh)
          × (r.1.tick_ ≡ w.tick_)
          × Timed gettimeofday fuel two w.fresh allocated ne w.calls w.tick_ r.1

      -- On a wheel without timers, `AddTimer` with a timeout below 2 ^ 26 milliseconds puts the
      -- timer where it waits for its expiry.
      pub add_timer-Timed :
          1 ≤ timeout
          → timeout < 2 ^ 26
          → opt ≤ 2
          → timeout + w.tick_ < 2 ^ 64
          → ((k : ℕ) → w.slots k ≡ empty)
          → Returns (add_timer gettimeofday fuel handler timeout data_ opt excute_times w) Added
      add_timer-Timed a b c d free =
          let time = timeout + w.tick_ in
          let e : time % 2 ^ 64 ≡ time = omega arith in
          let some_fuel : suc (fuel - 1) ≡ fuel = omega arith in
          let slot = place (time % 2 ^ 64 - w.tick_) (time % 2 ^ 64) in
          let waits : (r : Ptr × World)
              → (r.0 ≡ w.fresh) × Placed slot w.fresh allocated after_malloc r.1
              → Added r =
            λ r (same, p). (
              same,
              p.tick,
              waiting slot (place-Waits w.tick_ (time % 2 ^ 64) (omega arith) (omega arith))
                  (record { timer = p.timer; here = p.here; others = λ k o. p.others k o ∙ free k })
                  p.calls,
            ) in
          rw (add_timer-inner fuel a c) (
            subst (λ n. Returns (add_timer_inner gettimeofday n w.fresh after_malloc) Added)
              some_fuel
              (weaken _
                (add_timer_inner-later gettimeofday w.fresh allocated ne (fuel - 1) allocated
                  after_malloc (write_same w.store w.fresh _) (omega arith) (omega arith)
                  (free slot))
                waits))

      -- The life of a timer that runs once, on a wheel without timers and with a timeout of 1 up
      -- to 2^26 - 1 milliseconds. It is added, and then one `Tick` runs, with enough fuel, where
      -- every reading of the clock is `now`, this is not before `tick_`, and neither the expiry nor
      -- `now + 1` reaches 2^64. It ends without a fault and with `tick_` at `now + 1`, and the
      -- handler has been called exactly once if `now + 1` is at least the old `tick_` plus the
      -- timeout, and has not been called otherwise.
      pub add_timer-tick :
          (k : ℕ) (now : ℕ)
          → 1 ≤ timeout
          → timeout < 2 ^ 26
          → opt ≡ 0
          → timeout + w.tick_ < 2 ^ 64
          → ((k : ℕ) → w.slots k ≡ empty)
          → ((r : ℕ) → (gettimeofday r).tv_sec * 1000 + (gettimeofday r).tv_usec / 1000 ≡ now)
          → w.tick_ ≤ now
          → now + 1 < 2 ^ 64
          → now + 1 < w.tick_ + k
          → Returns
              (add_timer gettimeofday fuel handler timeout data_ opt excute_times w >>= λ r.
                tick gettimeofday fuel k r.1)
              (λ w'.
                (w'.tick_ ≡ now + 1)
                × (w'.calls ≡ (
                    if ltb (now + 1) (w.tick_ + timeout)
                    then w.calls
                    else (handler, data_) ∷ w.calls)))
      add_timer-tick k now a b c d free clock low small enough =
          bind_rule _ _ (add_timer-Timed a b (omega arith) d free) λ r (e, at, s).
            let reads : (now_milliseconds gettimeofday r.1).0 ≡ now =
              unfold now_milliseconds in ground (arith, clock r.1.reads) in
            weaken _
              (tick-Timed gettimeofday fuel two w.fresh allocated ne w.calls k r.1 c
                (subst (λ n. Timed gettimeofday fuel two w.fresh allocated ne w.calls n r.1)
                  (sym at) s)
                (omega (arith, reads)) (omega (arith, reads)) (omega (arith, reads)))
              λ w' (t', s', calls'). (omega (arith, reads), calls' ∙ ground (arith, reads))
