-- ===== src/TimeWheel/Firing.antt =====
-- `Tick` with one timer: it is called at its expiry, and not before.
use my_little_tool.Prelude.{
  ℕ, zero, suc, ◌+◌, ◌-◌, ◌%◌, ◌^◌, ◌<◌, ◌≤◌, ◌≡◌, ◌≢◌, inl, inr, refl, sym, ap, ◌∙◌, subst, arith,
  none, some, List, ◌∷◌, true, false, leb, ltb, lt_or_ge, ◌==◌, ok, Returns, bind_rule, weaken,
  if◌then◌else◌,
}
use my_little_tool.TimeWheel.{
  Ptr, null, Timer, World, TimeVal, slot_count, tv1_, tv5_, write, put_list, call, expire,
  expire_slot, tick_round, tick_loop, tick, now_milliseconds,
}
use my_little_tool.TimeWheel.Store.{load-ok, read_list-ok, free_timer-ok}
use my_little_tool.TimeWheel.Lists.{linked}
use my_little_tool.TimeWheel.Due.{Waits, Waits-not_now, Waits-after, Round, Waits-Round}
use my_little_tool.TimeWheel.Alone.{Alone}
use my_little_tool.TimeWheel.Rounds.{Settled, waits, due, called, switch-same, switch-Settled}

module _ (gettimeofday : ℕ → TimeVal) (fuel : ℕ) (two : 2 ≤ fuel) (p : Ptr) (t : Timer)
    (ne : p ≢ null) (calls : List (ℕ × ℕ)) where
  -- At tick `now` the timer waits in its slot, or it has been called, once, and freed.
  pub data Timed (now : ℕ) (w : World) : Type 0 where
    waiting :
        (l : ℕ)
        → Waits now t.expried_time_ l
        → Alone gettimeofday p t ne l w
        → w.calls ≡ calls
        → Timed now w
    done :
        t.expried_time_ ≤ now
        → ((k : ℕ) → (w.slots k).head_ ≡ null)
        → w.store p ≡ none
        → w.calls ≡ (t.handle_, t.data_) ∷ calls
        → Timed now w

  pub expire_slot-same :
      (m : ℕ) (w : World)
      → m < slot_count
      → (w.slots m).head_ ≡ null
      → expire_slot gettimeofday fuel m w ≡ ok w
  unfolding expire_slot
  expire_slot-same m w fits e =
      let is_null : ((w.slots m).head_ == null) ≡ true = ground arith in
      rw (read_list-ok m w fits, is_null) refl

  pub expire-once :
      (l : ℕ) (w : World)
      → w.store p ≡ some (linked l t)
      → t.timer_options_.flag_ ≡ 0
      → expire gettimeofday fuel fuel p w
        ≡ ok (record (call (linked l t) w) { store = write w.store p none })
  unfolding expire call
  expire-once l w e flag =
      let again : suc (suc (fuel - 2)) ≡ fuel = omega arith in
      let is_timer : (p == null) ≡ false = ground arith in
      subst
        (λ n.
          expire gettimeofday fuel n p w
          ≡ ok (record (call (linked l t) w) { store = write w.store p none }))
        again
        (rw
          (
            is_timer,
            load-ok p w (linked l t) ne e,
            flag,
            free_timer-ok p (call (linked l t) w) (linked l t) ne e,
          )
          refl)

  module _ (u : ℕ) (flag : t.timer_options_.flag_ ≡ 0) where
    expire_slot-Timed :
        (w : World)
        → Settled gettimeofday fuel two p t ne calls u tv5_ w
        → Returns
            (expire_slot gettimeofday fuel (tv1_ + w.tick_ % 2 ^ 8) w)
            (λ w'. (w'.tick_ ≡ u) × Timed u w')
    unfolding expire_slot put_list call write
    expire_slot-Timed w (waits l h i a e c) =
        let apart : tv1_ + w.tick_ % 2 ^ 8 ≢ l = ground (arith, Waits-not_now i) in
        (w, expire_slot-same _ w (omega arith) (rw (a.others _ apart) refl), (e, waiting l i a c))
    expire_slot-Timed w (called h i j e c) =
        (w, expire_slot-same _ w (omega arith) (i _), (e, done (omega arith) i j c))
    expire_slot-Timed w (due l h i j a e c) =
        let slot = tv1_ + w.tick_ % 2 ^ 8 in
        let here : l ≡ slot = j ∙ ap (λ n. tv1_ + n % 2 ^ 8) (sym e) in
        let a' : Alone gettimeofday p t ne slot w =
          subst (λ m. Alone gettimeofday p t ne m w) here a in
        let fits : slot < slot_count = omega arith in
        let is_timer : (p == null) ≡ false = ground arith in
        let w1 : World = record (call (linked slot t) w) { store = write w.store p none } in
        rw
          (
            read_list-ok slot w fits,
            a'.here,
            is_timer,
            expire-once slot w a'.timer flag,
            read_list-ok slot w1 fits,
          )
          (
            put_list slot (record (w1.slots slot) { head_ = null }) w1,
            refl,
            (
              e,
              done (omega arith) (λ k. ground (arith, a'.others k)) (ground arith)
                  (ap (λ l. (t.handle_, t.data_) ∷ l) c),
            ),
          )

    tick_round-Timed :
        (w : World)
        → w.tick_ + 1 ≡ u
        → u < 2 ^ 64
        → Timed w.tick_ w
        → Returns (tick_round gettimeofday fuel w) (λ w'. (w'.tick_ ≡ u) × Timed u w')
    unfolding tick_round
    tick_round-Timed w e small (waiting l i a c) =
        let w0 : World = record w { tick_ = (w.tick_ + 1) % 2 ^ 64 } in
        let next : w0.tick_ ≡ w.tick_ + 1 = omega arith in
        let a0 : Alone gettimeofday p t ne l w0 = record {
          timer = a.timer;
          here = a.here;
          others = a.others;
        } in
        bind_rule _ _
          (switch-Settled gettimeofday fuel two p t ne calls l w0 a0 c flag (omega arith)
            (subst (λ n. Round n t.expried_time_ l) (sym next) (Waits-Round i)))
          λ w1 s.
            expire_slot-Timed w1
              (subst (λ n. Settled gettimeofday fuel two p t ne calls n tv5_ w1) (next ∙ e) s)
    tick_round-Timed w e small (done h i j c) =
        let w0 : World = record w { tick_ = (w.tick_ + 1) % 2 ^ 64 } in
        let next : w0.tick_ ≡ u = omega arith in
        bind_rule _ _
          (switch-same gettimeofday fuel two p t ne calls 0 w0
            (ground arith, ground arith, ground arith) (omega arith) (λ m apart. i m))
          λ w1 s.
            subst
              (λ v.
                Returns (expire_slot gettimeofday fuel (tv1_ + v.tick_ % 2 ^ 8) v)
                  (λ w'. (w'.tick_ ≡ u) × Timed u w'))
              (sym s)
              (w0, expire_slot-same _ w0 (omega arith) (i _), (next, done (omega arith) i j c))

  tick_loop-Timed :
      (k now : ℕ) (w : World)
      → t.timer_options_.flag_ ≡ 0
      → w.tick_ ≤ now + 1
      → now + 1 < 2 ^ 64
      → now + 1 < w.tick_ + k
      → Timed w.tick_ w
      → Returns
          (tick_loop gettimeofday fuel k now w)
          (λ w'. (w'.tick_ ≡ now + 1) × Timed (now + 1) w')
  unfolding tick_loop
  tick_loop-Timed zero now w flag low small enough s = absurd (omega arith)
  tick_loop-Timed (suc k) now w flag low small enough s = elim (lt_or_ge now w.tick_) [
    | inl over ↦
        let stop : leb w.tick_ now ≡ false = ground arith in
        let e : w.tick_ ≡ now + 1 = omega arith in
        rw stop (w, refl, (e, subst (λ n. Timed n w) e s))
    | inr more ↦
        let go : leb w.tick_ now ≡ true = ground arith in
        rw go (
          bind_rule _ _ (tick_round-Timed (w.tick_ + 1) flag w refl (omega arith) s) λ w1 (e, s1).
            tick_loop-Timed k now w1 flag (omega arith) small (omega arith)
              (subst (λ n. Timed n w1) (sym e) s1))
  ]

  Timed-calls :
      (now : ℕ) (w : World)
      → Timed now w
      → w.calls ≡ (if ltb now t.expried_time_ then calls else (t.handle_, t.data_) ∷ calls)
  Timed-calls now w (waiting l i a c) = ground (arith, Waits-after i)
  Timed-calls now w (done h i j c) = ground arith

  Timed-read : (w : World) → Timed w.tick_ w → Timed w.tick_ (now_milliseconds gettimeofday w).1
  unfolding now_milliseconds
  Timed-read w (waiting l i a c) =
      waiting l i (record { timer = a.timer; here = a.here; others = a.others }) c
  Timed-read w (done h i j c) = done h i j c

  -- `Tick`, with enough fuel and a clock reading `now` that is not before `tick_` and is below
  -- 2^64 - 1, where one timer that runs once either waits in the slot that is right for `tick_` and
  -- its expiry (by `Waits`, on a wheel with no other timer), or was called and freed. It ends
  -- without a fault, with `tick_` at `now + 1` and in such a state again, and the timer's handler
  -- has been called exactly once if the expiry is at most `now + 1`, and not at all otherwise.
  pub tick-Timed :
      (k : ℕ) (w : World)
      → t.timer_options_.flag_ ≡ 0
      → Timed w.tick_ w
      → w.tick_ ≤ (now_milliseconds gettimeofday w).0
      → (now_milliseconds gettimeofday w).0 + 1 < 2 ^ 64
      → (now_milliseconds gettimeofday w).0 + 1 < w.tick_ + k
      → Returns (tick gettimeofday fuel k w) (λ w'.
        (w'.tick_ ≡ (now_milliseconds gettimeofday w).0 + 1)
        × Timed w'.tick_ w'
        × (w'.calls
            ≡ (if ltb w'.tick_ t.expried_time_ then calls else (t.handle_, t.data_) ∷ calls)))
  unfolding tick now_milliseconds
  tick-Timed k w flag s low small enough =
      let now = (now_milliseconds gettimeofday w).0 in
      let w1 = (now_milliseconds gettimeofday w).1 in
      let go : ltb now w.tick_ ≡ false = ground arith in
      rw go (
        weaken _ (tick_loop-Timed k now w1 flag (omega arith) small (omega arith) (Timed-read w s))
          λ w' (e, s'). (
            e,
            subst (λ n. Timed n w') (sym e) s',
            Timed-calls w'.tick_ w' (subst (λ n. Timed n w') (sym e) s'),
          ))
