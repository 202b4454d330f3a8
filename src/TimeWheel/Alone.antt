-- ===== src/TimeWheel/Alone.antt =====
-- The operations of the wheel on one timer: placing it, moving it to a lower wheel, calling it.
use my_little_tool.Prelude.{
  ℕ, suc, ◌+◌, ◌-◌, ◌%◌, ◌^◌, ◌<◌, ◌≤◌, ◌≡◌, ◌≢◌, refl, sym, ◌∙◌, subst, arith, weaken, some, none,
  ◌∷◌, true, false, pos, of_word, leb_ℤ, ◌==◌, ok, Returns, bind_rule,
}
use my_little_tool.TimeWheel.{
  Ptr, null, Timer, empty, World, TimeVal, slot_count, place, delay, call, add_timer_inner, migrate,
  switch_oth_wheel_inner, put_list, write, add_timer_list,
}
use my_little_tool.TimeWheel.Store.{load-ok, read_list-ok, free_timer-ok, put_list_other}
use my_little_tool.TimeWheel.Lists.{linked, single, Placed, add_timer_list-Placed}
use my_little_tool.TimeWheel.Due.{place-lt}

pub delay-later :
    (time tick : ℕ) → tick < time → time < tick + 2 ^ 31 → delay time tick ≡ pos (time - tick)
unfolding delay of_word
delay-later time tick a b =
    let e : (time + 2 ^ 64 - tick) % 2 ^ 32 ≡ time - tick = omega arith in rw e (ground arith)

pub delay-now : (tick : ℕ) → tick < 2 ^ 64 → delay tick tick ≡ pos 0
unfolding delay of_word
delay-now tick h = let e : (tick + 2 ^ 64 - tick) % 2 ^ 32 ≡ 0 = omega arith in rw e refl

module _ (gettimeofday : ℕ → TimeVal) (p : Ptr) (t : Timer) (ne : p ≢ null) where
  -- Timer `p` is in slot `l`, and no other timer is in a slot.
  pub record Alone (l : ℕ) (w : World) : Type 0 where
    pub timer : w.store p ≡ some (linked l t)
    pub here : w.slots l ≡ single p
    pub others : (k : ℕ) → k ≢ l → w.slots k ≡ empty

  pub add_timer_inner-later :
      (fuel : ℕ) (t : Timer) (w : World)
      → w.store p ≡ some t
      → w.tick_ < t.expried_time_
      → t.expried_time_ < w.tick_ + 2 ^ 31
      → w.slots (place (t.expried_time_ - w.tick_) t.expried_time_) ≡ empty
      → Returns
          (add_timer_inner gettimeofday (suc fuel) p w)
          (λ r. (r.0 ≡ p) × Placed (place (t.expried_time_ - w.tick_) t.expried_time_) p t w r.1)
  unfolding add_timer_inner
  add_timer_inner-later fuel t w e a b free =
      let now = w.tick_ in
      let time = t.expried_time_ in
      let late : leb_ℤ (pos (time - now)) (pos 0) ≡ false = ground arith in
      let slot = place (time - now) time in
      let fits : slot < slot_count = omega (arith, place-lt (time - now) time) in
      rw (load-ok p w t ne e, delay-later time now a b, late)
        (bind_rule (add_timer_list slot p w) (λ w1. ok (p, w1))
          (add_timer_list-Placed slot p w t fits ne e free)
          λ w1 d. (
            (p, w1),
            refl,
            (
              refl,
              record {
                timer = d.timer;
                here = d.here;
                others = d.others;
                tick = d.tick;
                calls = d.calls;
              },
            ),
          ))

  pub add_timer_inner-due :
      (fuel l : ℕ) (w : World)
      → w.store p ≡ some (linked l t)
      → w.tick_ ≡ t.expried_time_
      → w.tick_ < 2 ^ 64
      → t.timer_options_.flag_ ≡ 0
      → add_timer_inner gettimeofday (suc fuel) p w
        ≡ ok (null, record (call (linked l t) w) { store = write w.store p none })
  unfolding add_timer_inner call
  add_timer_inner-due fuel l w e now fits flag =
      rw
        (
          load-ok p w (linked l t) ne e,
          sym now,
          delay-now w.tick_ fits,
          flag,
          free_timer-ok p (call (linked l t) w) (linked l t) ne e,
        )
        refl

  -- Every slot but `l` has no head.
  abbrev Rest : ℕ → World → Type 0
  Rest l w = (k : ℕ) → k ≢ l → (w.slots k).head_ ≡ null

  Alone-Rest : (l : ℕ) (w : World) → Alone l w → Rest l w
  Alone-Rest l w a k ne = rw (a.others k ne) refl

  migrate-end : (fuel k : ℕ) (w : World) → migrate gettimeofday fuel (suc k) null w ≡ ok w
  unfolding migrate
  migrate-end fuel k w = refl

  module _ (fuel l : ℕ) (w : World) (two : 2 ≤ fuel) (fits : l < slot_count) where
    -- A wheel is not changed by the visit of a slot without timers.
    pub visit-same : (w.slots l).head_ ≡ null → switch_oth_wheel_inner gettimeofday fuel l w ≡ ok w
    unfolding switch_oth_wheel_inner
    visit-same e =
        let is_null : ((w.slots l).head_ == null) ≡ true = ground arith in
        rw (read_list-ok l w fits, is_null) refl

    module _ (a : Alone l w) where
      pub visit-step :
          (Post : World → Type 0)
          → Returns
              (add_timer_inner gettimeofday (suc (fuel - 1)) p w)
              (λ r. Post (put_list l empty r.1))
          → Returns (switch_oth_wheel_inner gettimeofday fuel l w) Post
      unfolding switch_oth_wheel_inner
      visit-step Post (r, e, post) =
          let is_timer : (p == null) ≡ false = ground arith in
          let again : fuel ≡ suc (suc (fuel - 2)) = omega arith in
          let first : add_timer_inner gettimeofday fuel p w ≡ ok r =
            let same : suc (fuel - 1) ≡ fuel = omega arith in
            subst (λ n. add_timer_inner gettimeofday n p w ≡ ok r) same e in
          let walk : migrate gettimeofday fuel fuel p w ≡ ok r.1 =
            subst (λ n. migrate gettimeofday fuel n p w ≡ ok r.1) (sym again)
              (unfold migrate in rw (is_timer, load-ok p w (linked l t) ne a.timer, first) refl) in
          rw (read_list-ok l w fits, a.here, is_timer, walk) (put_list l empty r.1, refl, post)

      -- The visit of its slot moves a timer that is not due yet.
      pub visit-moves :
          w.tick_ < t.expried_time_
          → t.expried_time_ < w.tick_ + 2 ^ 31
          → place (t.expried_time_ - w.tick_) t.expried_time_ ≢ l
          → Returns (switch_oth_wheel_inner gettimeofday fuel l w) (λ w'.
            Alone (place (t.expried_time_ - w.tick_) t.expried_time_) w'
            × (w'.tick_ ≡ w.tick_)
            × (w'.calls ≡ w.calls))
      unfolding put_list
      visit-moves late near other =
          let slot = place (t.expried_time_ - w.tick_) t.expried_time_ in
          visit-step _ (
            weaken _
              (add_timer_inner-later (fuel - 1) (linked l t) w a.timer late near
                (a.others slot other))
              λ r (same, d). (
                record {
                  timer = d.timer;
                  here = put_list_other l empty r.1 slot other ∙ d.here;
                  others = λ k ne'. ground (arith, d.others k ne', a.others k);
                },
                d.tick,
                d.calls,
              ))

      -- The visit of its slot at its expiry calls a timer, and frees it.
      pub visit-fires :
          w.tick_ ≡ t.expried_time_
          → w.tick_ < 2 ^ 64
          → t.timer_options_.flag_ ≡ 0
          → Returns (switch_oth_wheel_inner gettimeofday fuel l w) (λ w'.
            ((k : ℕ) → (w'.slots k).head_ ≡ null)
            × (w'.store p ≡ none)
            × (w'.tick_ ≡ w.tick_)
            × (w'.calls ≡ (t.handle_, t.data_) ∷ w.calls))
      unfolding put_list call write
      visit-fires now small flag = visit-step _ (
        (null, record (call (linked l t) w) { store = write w.store p none }),
        add_timer_inner-due (fuel - 1) l w a.timer now small flag,
        ((λ k. ground (arith, Alone-Rest l w a k)), ground arith, refl, refl),
      )
