-- ===== src/TimeWheel/Lost.antt =====
-- Timers that the wheel does not call when they are due.
use my_little_tool.Prelude.{
  ℕ, zero, suc, ◌+◌, ◌-◌, ◌/◌, ◌%◌, ◌^◌, ◌<◌, ◌≤◌, ◌≡◌, ◌≢◌, refl, arith, none, some, ◌∷◌, true,
  false, pos, of_word, leb_ℤ, ◌==◌, fault, use_after_free, Returns, ◌>>=◌,
}
use my_little_tool.TimeWheel.{
  Ptr, null, Timer, World, TimeVal, empty, slot_count, tv4_, write, call, delay, place, put_list,
  add_timer_list, add_timer, add_timer_inner, switch_oth_wheel_inner, expire_slot,
}
use my_little_tool.TimeWheel.Store.{load-ok, modify-ok, free_timer-ok, read_list-ok, write_same}
use my_little_tool.TimeWheel.Lists.{linked, single}
use my_little_tool.TimeWheel.Alone.{Alone, delay-later, visit-step}
use my_little_tool.TimeWheel.Firing.{expire-once}
use my_little_tool.TimeWheel.Add.{allocated, after_malloc, add_timer-inner}
use my_little_tool.TimeWheel.Links.Dangling.{add-dangling}

module _ (gettimeofday : ℕ → TimeVal) where
  -- When `Tick` has called and freed the timer of a slot, the next `AddTimerList` to this slot
  -- writes through the tail that still points to the freed timer.
  pub expire_slot-add :
      (fuel l : ℕ) (two : 2 ≤ fuel) (p q : Ptr) (t t' : Timer) (ne : p ≢ null) (w : World)
      → l < slot_count
      → t.timer_options_.flag_ ≡ 0
      → w.store p ≡ some (linked l t)
      → w.slots l ≡ single p
      → q ≢ null
      → p ≢ q
      → w.store q ≡ some t'
      → (expire_slot gettimeofday fuel l w >>= add_timer_list l q) ≡ fault use_after_free
  unfolding expire_slot put_list call write
  expire_slot-add fuel l two p q t t' ne w fits flag e here q_ne apart at =
      let w1 : World = record (call (linked l t) w) { store = write w.store p none } in
      let w2 : World = put_list l (record { head_ = null; tail_ = p }) w1 in
      let is_timer : (p == null) ≡ false = ground arith in
      let tail : w2.slots l ≡ record { head_ = null; tail_ = p } = ground arith in
      let gone : w2.store (w2.slots l).tail_ ≡ none = ground arith in
      rw
        (
          read_list-ok l w fits,
          here,
          is_timer,
          expire-once gettimeofday fuel two p t ne w.calls l w e flag,
          read_list-ok l w1 fits,
          here,
        )
        (add-dangling l q w2 t' fits q_ne (ground arith) (ground arith) (ground arith) gone)

  -- A timeout from 2 ^ 31 up to 2 ^ 32 milliseconds becomes a negative `int`: `AddTimer` calls the
  -- handler at once, frees the timer and returns NULL, unless the timer repeats without end.
  pub add_timer-overlong :
      (fuel handler timeout data_ opt excute_times : ℕ) (w : World)
      → 1 ≤ fuel
      → w.fresh ≢ null
      → 2 ^ 31 ≤ timeout
      → timeout < 2 ^ 32
      → opt ≤ 2
      → opt ≢ 1
      → timeout + w.tick_ < 2 ^ 64
      → Returns (add_timer gettimeofday fuel handler timeout data_ opt excute_times w) (λ r.
        (r.0 ≡ null)
        × (r.1.calls ≡ (handler, data_) ∷ w.calls)
        × (r.1.store w.fresh ≡ none)
        × (r.1.tick_ ≡ w.tick_))
  unfolding add_timer_inner call
  add_timer-overlong zero handler timeout data_ opt excute_times w some_fuel ne low high kind once
        fits =
      absurd (omega arith)
  add_timer-overlong (suc fuel) handler timeout data_ opt excute_times w some_fuel ne low high kind
        once fits =
      let t = allocated gettimeofday handler timeout data_ opt excute_times w in
      let w1 = after_malloc gettimeofday handler timeout data_ opt excute_times w in
      let at : w1.store w.fresh ≡ some t = write_same w.store w.fresh _ in
      let early : leb_ℤ (delay ((timeout + w.tick_) % 2 ^ 64) w.tick_) (pos 0) ≡ true =
        unfold delay of_word in
        let e : ((timeout + w.tick_) % 2 ^ 64 + 2 ^ 64 - w.tick_) % 2 ^ 32 ≡ timeout =
          omega arith in
        ground (arith, e) in
      let not_all : (opt == 1) ≡ false = ground arith in
      rw
        (
          add_timer-inner gettimeofday handler timeout data_ opt excute_times w (suc fuel)
              (omega arith) kind,
          load-ok w.fresh w1 t ne at,
          early,
          not_all,
          free_timer-ok w.fresh (call t w1) t ne at,
        )
        (
          (null, record (call t w1) { store = write w1.store w.fresh none }),
          refl,
          (refl, refl, write_same w1.store w.fresh none, refl),
        )

  module _ (p : Ptr) (t : Timer) (ne : p ≢ null) where
    -- On a wheel with no other timer, a timer that stands in the slot of the fourth wheel that its
    -- expiry gives, and whose delay is from 2^26 up to 2^31 - 1 milliseconds, is lost when
    -- `_SwitchOthWheel` visits this slot: it is put into the same slot again, which is then
    -- emptied. The timer is still allocated, is in no slot, and the visit does not call it.
    pub visit-loses :
        (fuel : ℕ) (w : World)
        → 2 ≤ fuel
        → Alone gettimeofday p t ne (tv4_ + (t.expried_time_ / 2 ^ 26) % 2 ^ 6) w
        → w.tick_ + 2 ^ 26 ≤ t.expried_time_
        → t.expried_time_ < w.tick_ + 2 ^ 31
        → Returns
            (switch_oth_wheel_inner gettimeofday fuel (tv4_ + (t.expried_time_ / 2 ^ 26) % 2 ^ 6) w)
            (λ w'.
              ((k : ℕ) → w'.slots k ≡ empty)
              × ((c : Timer) × (w'.store p ≡ some c))
              × (w'.calls ≡ w.calls))
    unfolding add_timer_inner add_timer_list put_list
    visit-loses fuel w two a far near =
        let time = t.expried_time_ in
        let l = tv4_ + (time / 2 ^ 26) % 2 ^ 6 in
        let fits : l < slot_count = omega arith in
        let slot : place (time - w.tick_) time ≡ l = unfold place in ground arith in
        let late : leb_ℤ (pos (time - w.tick_)) (pos 0) ≡ false = ground arith in
        let some_there : (p == null) ≡ false = ground arith in
        let linked_to : Timer → Timer = λ t. record t { linked_list_ = some l } in
        let after : Timer → Timer = λ t. record t { pre_ = p; next_ = null } in
        let before : Timer → Timer = λ t. record t { next_ = p } in
        let t1 : Timer = linked_to (linked l t) in
        let w1 : World = record w { store = write w.store p (some t1) } in
        let e1 : w1.store p ≡ some t1 = write_same w.store p _ in
        let w2 : World = record w1 { store = write w1.store p (some (after t1)) } in
        let e2 : w2.store p ≡ some (after t1) = write_same w1.store p _ in
        let w3 : World = record w2 { store = write w2.store p (some (before (after t1))) } in
        let w4 : World = put_list l (record { head_ = p; tail_ = p }) w3 in
        visit-step gettimeofday p t ne fuel l w two fits a _ (
          rw
            (
              load-ok p w (linked l t) ne a.timer,
              delay-later time w.tick_ (omega arith) near,
              late,
              slot,
              modify-ok p w (linked l t) ne a.timer linked_to,
              read_list-ok l w1 fits,
              a.here,
              some_there,
              modify-ok p w1 t1 ne e1 after,
              modify-ok p w2 (after t1) ne e2 before,
            )
            (
              (p, w4),
              refl,
              (
                (λ k. ground (arith, a.others k)),
                (before (after t1), write_same w2.store p _),
                refl,
              ),
            ))
