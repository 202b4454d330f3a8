-- ===== src/TimeWheel/Rounds.antt =====
-- The carries of one tick, and what they do to one timer.
use my_little_tool.Prelude.{
  ℕ, ◌+◌, ◌-◌, ◌/◌, ◌%◌, ◌^◌, ◌<◌, ◌≤◌, ◌≡◌, ◌≢◌, inl, inr, refl, sym, ap, subst, ◌∙◌, arith, none,
  List, ◌∷◌, lt_or_ge, Bool-cases, ◌==◌, Run, ok, Returns, bind_rule, weaken,
}
use my_little_tool.TimeWheel.{
  Ptr, null, Timer, World, TimeVal, slot_count, tv1_, tv2_, tv3_, tv4_, tv5_, place,
  switch_oth_wheel_inner, switch_oth_wheel,
}
use my_little_tool.TimeWheel.Due.{
  Waits, Carry2, Carry3, Carry4, Hidden, Round, stays, from_tv2, from_tv3, from_tv4, place-low,
  place-mid, place-high, place-Waits, Waits-lt,
}
use my_little_tool.TimeWheel.Alone.{Alone, visit-same, visit-moves, visit-fires}

module _ (gettimeofday : ℕ → TimeVal) (fuel : ℕ) where
  abbrev visit : ℕ → World → Run World
  visit = switch_oth_wheel_inner gettimeofday fuel

  -- A condition for each carry, and one for the end.
  switch_rule :
      (Q2 Q3 Q4 Post : World → Type 0) (w : World)
      → (w.tick_ % 2 ^ 8 ≢ 0 → Post w)
      → (Carry2 w.tick_
          → Returns
              (visit (tv2_ + (w.tick_ / 2 ^ 8) % 2 ^ 6) w)
              (λ w1. (w1.tick_ ≡ w.tick_) × Q2 w1))
      → ((w.tick_ / 2 ^ 8) % 2 ^ 6 ≢ 0 → (w1 : World) → Q2 w1 → Post w1)
      → (Carry3 w.tick_
          → (w1 : World) → w1.tick_ ≡ w.tick_
          → Q2 w1
          → Returns
              (visit (tv3_ + (w1.tick_ / 2 ^ 14) % 2 ^ 6) w1)
              (λ w2. (w2.tick_ ≡ w.tick_) × Q3 w2))
      → ((w.tick_ / 2 ^ 14) % 2 ^ 6 ≢ 0 → (w2 : World) → Q3 w2 → Post w2)
      → (Carry4 w.tick_
          → (w2 : World) → w2.tick_ ≡ w.tick_
          → Q3 w2
          → Returns
              (visit (tv4_ + (w2.tick_ / 2 ^ 20) % 2 ^ 6) w2)
              (λ w3. (w3.tick_ ≡ w.tick_) × Q4 w3))
      → ((w3 : World) → Q4 w3 → Post w3)
      → ((w3 : World) → Q4 w3 → Returns (visit (tv5_ + (w3.tick_ / 2 ^ 26) % 2 ^ 6) w3) Post)
      → Returns (switch_oth_wheel gettimeofday fuel w) Post
  unfolding switch_oth_wheel
  switch_rule Q2 Q3 Q4 Post w none2 at2 end2 at3 end3 at4 end4 at5 =
      elim (Bool-cases ((w.tick_ % 2 ^ 8) == 0)) [
        | inr n ↦ rw n (w, refl, none2 (ground arith))
        | inl c2 ↦ rw c2 (
            bind_rule _ _ (at2 (ground arith)) λ w1 (t1, q2).
              elim (Bool-cases (((w.tick_ / 2 ^ 8) % 2 ^ 6) == 0)) [
                | inr n ↦ rw n (w1, refl, end2 (ground arith) w1 q2)
                | inl c3 ↦ rw c3 (
                    bind_rule _ _ (at3 (ground arith, ground arith) w1 t1 q2) λ w2 (t2, q3).
                      elim (Bool-cases (((w1.tick_ / 2 ^ 14) % 2 ^ 6) == 0)) [
                        | inr n ↦ rw n (w2, refl, end3 (ground arith) w2 q3)
                        | inl c4 ↦
                            let carry : Carry4 w.tick_ =
                              ((ground arith, ground arith), (ground arith)) in
                            rw c4 (
                              bind_rule _ _ (at4 carry w2 t2 q3) λ w3 (t3, q4).
                                elim (Bool-cases (((w2.tick_ / 2 ^ 20) % 2 ^ 6) == 0)) [
                                  | inr n ↦ rw n (w3, refl, end4 w3 q4)
                                  | inl c5 ↦ rw c5 (at5 w3 q4)
                                ])
                      ])
              ])
      ]

module _ (gettimeofday : ℕ → TimeVal) (fuel : ℕ) (two : 2 ≤ fuel) (p : Ptr) (t : Timer)
    (ne : p ≢ null) (calls : List (ℕ × ℕ)) where
  -- Where one timer is after the carries of tick `u`: waiting in a slot below `b`, due in the first
  -- wheel, or called and freed.
  pub data Settled (u b : ℕ) (w : World) : Type 0 where
    waits :
        (l : ℕ)
        → l < b
        → Waits u t.expried_time_ l
        → Alone gettimeofday p t ne l w
        → w.tick_ ≡ u
        → w.calls ≡ calls
        → Settled u b w
    due :
        (l : ℕ)
        → l < b
        → u ≡ t.expried_time_
        → l ≡ tv1_ + u % 256
        → Alone gettimeofday p t ne l w
        → w.tick_ ≡ u
        → w.calls ≡ calls
        → Settled u b w
    called :
        u ≡ t.expried_time_
        → ((k : ℕ) → (w.slots k).head_ ≡ null)
        → w.store p ≡ none
        → w.tick_ ≡ u
        → w.calls ≡ (t.handle_, t.data_) ∷ calls
        → Settled u b w

  Settled-tick : {u b : ℕ} {w : World} → Settled u b w → w.tick_ ≡ u
  Settled-tick (waits l h i a e c) = e
  Settled-tick (due l h i j a e c) = e
  Settled-tick (called h i j e c) = e

  Settled-mono : {u b b' : ℕ} {w : World} → b ≤ b' → Settled u b w → Settled u b' w
  Settled-mono le (waits l h i a e c) = waits l (omega arith) i a e c
  Settled-mono le (due l h i j a e c) = due l (omega arith) i j a e c
  Settled-mono le (called h i j e c) = called h i j e c

  -- A visit from slot `b` on changes nothing.
  Settled-visit :
      (u b m : ℕ) (w : World)
      → b ≤ m
      → m < slot_count
      → Settled u b w
      → switch_oth_wheel_inner gettimeofday fuel m w ≡ ok w
  Settled-visit u b m w low high (waits l h i a e c) =
      let apart : m ≢ l = omega arith in
      visit-same gettimeofday p t ne fuel m w two high (rw (a.others m apart) refl)
  Settled-visit u b m w low high (due l h i j a e c) =
      let apart : m ≢ l = omega arith in
      visit-same gettimeofday p t ne fuel m w two high (rw (a.others m apart) refl)
  Settled-visit u b m w low high (called h i j e c) =
      visit-same gettimeofday p t ne fuel m w two high (i m)

  Settled-later :
      (u b m : ℕ) (w : World)
      → b ≤ m
      → m < slot_count
      → Settled u b w
      → Returns
          (switch_oth_wheel_inner gettimeofday fuel m w)
          (λ w'. (w'.tick_ ≡ u) × Settled u b w')
  Settled-later u b m w low high s = (w, Settled-visit u b m w low high s, (Settled-tick s, s))

  -- The visit of the timer's own slot, at a carry into it.
  visit-Settled :
      (u b m : ℕ) (w : World)
      → m < slot_count
      → Alone gettimeofday p t ne m w
      → w.tick_ ≡ u
      → w.calls ≡ calls
      → t.timer_options_.flag_ ≡ 0
      → u < 2 ^ 64
      → u ≤ t.expried_time_
      → t.expried_time_ < u + 2 ^ 20
      → b ≤ m
      → (u < t.expried_time_ → place (t.expried_time_ - u) t.expried_time_ < b)
      → Returns
          (switch_oth_wheel_inner gettimeofday fuel m w)
          (λ w'. (w'.tick_ ≡ u) × Settled u b w')
  visit-Settled u b m w fits a e c flag small after near low lower =
      elim (lt_or_ge u t.expried_time_) [
        | inl d ↦
            let go =
              visit-moves gettimeofday p t ne fuel m w two fits a (omega arith) (omega arith)
                (rw e (ground (arith, lower d))) in
            weaken _ go λ w' (a', e', c'). (
              e' ∙ e,
              waits (place (t.expried_time_ - u) t.expried_time_) (lower d)
                  (place-Waits u t.expried_time_ d (omega arith))
                  (subst
                    (λ n.
                      Alone gettimeofday p t ne (place (t.expried_time_ - n) t.expried_time_) w')
                    e a')
                  (e' ∙ e) (c' ∙ c),
            )
        | inr d ↦
            let now : u ≡ t.expried_time_ = omega arith in
            weaken _
              (visit-fires gettimeofday p t ne fuel m w two fits a (e ∙ now) (omega arith) flag)
              λ w' (h, gone, e', c').
                (e' ∙ e, called now h gone (e' ∙ e) (c' ∙ ap (λ l. (t.handle_, t.data_) ∷ l) c))
      ]

  -- The carries change nothing where they do not reach the timer's slot.
  pub switch-same :
      (l : ℕ) (w : World)
      → Hidden w.tick_ l
      → l < tv5_
      → ((m : ℕ) → m ≢ l → (w.slots m).head_ ≡ null)
      → Returns (switch_oth_wheel gettimeofday fuel w) (λ w'. w' ≡ w)
  switch-same l w (h2, h3, h4) low heads =
      let keep : (m : ℕ) (w' : World)
          → m < slot_count
          → m ≢ l
          → w' ≡ w
          → switch_oth_wheel_inner gettimeofday fuel m w' ≡ ok w' =
        λ m w' fits apart e.
          subst (λ v. switch_oth_wheel_inner gettimeofday fuel m v ≡ ok v) (sym e)
            (visit-same gettimeofday p t ne fuel m w two fits (heads m apart)) in
      switch_rule gettimeofday fuel (λ w'. w' ≡ w) (λ w'. w' ≡ w) (λ w'. w' ≡ w) (λ w'. w' ≡ w) w
        (λ n. refl) (λ c. (w, keep _ w (omega arith) (h2 c) refl, (refl, refl))) (λ n w1 e. e)
        (λ c w1 t1 e. (w1, keep _ w1 (omega arith) (rw t1 (h3 c)) e, (t1, e))) (λ n w2 e. e)
        (λ c w2 t2 e. (w2, keep _ w2 (omega arith) (rw t2 (h4 c)) e, (t2, e))) (λ w3 e. e)
        (λ w3 e. (w3, keep _ w3 (omega arith) (omega arith) e, e))

  module _ (l : ℕ) (w : World) (a : Alone gettimeofday p t ne l w) (same : w.calls ≡ calls)
      (flag : t.timer_options_.flag_ ≡ 0) (small : w.tick_ < 2 ^ 64) where
    switch-from_tv2 :
        Carry2 w.tick_
        → l ≡ tv2_ + (w.tick_ / 256) % 64
        → w.tick_ ≤ t.expried_time_
        → t.expried_time_ < w.tick_ + 2 ^ 8
        → Returns (switch_oth_wheel gettimeofday fuel w) (Settled w.tick_ tv5_)
    switch-from_tv2 c e after near =
        let u = w.tick_ in
        let up : (w' : World) → Settled u tv2_ w' → Settled u tv5_ w' =
          λ w'. Settled-mono (omega arith) in
        switch_rule gettimeofday fuel (Settled u tv2_) (Settled u tv2_) (Settled u tv2_)
          (Settled u tv5_) w (λ n. absurd (ground arith))
          (λ c'.
            visit-Settled u tv2_ _ w (omega arith) (subst (λ m. Alone gettimeofday p t ne m w) e a)
              refl same flag small after (omega arith) (omega arith)
              (λ d. place-low u t.expried_time_ d near))
          (λ n. up) (λ c' w1 t1. Settled-later u tv2_ _ w1 (omega arith) (omega arith)) (λ n. up)
          (λ c' w2 t2. Settled-later u tv2_ _ w2 (omega arith) (omega arith)) up
          (λ w3 s. (w3, Settled-visit u tv2_ _ w3 (omega arith) (omega arith) s, up w3 s))

    switch-from_tv3 :
        Carry3 w.tick_
        → l ≡ tv3_ + (w.tick_ / 16384) % 64
        → w.tick_ ≤ t.expried_time_
        → t.expried_time_ < w.tick_ + 2 ^ 14
        → Returns (switch_oth_wheel gettimeofday fuel w) (Settled w.tick_ tv5_)
    switch-from_tv3 c e after near =
        let u = w.tick_ in
        let up : (w' : World) → Settled u tv3_ w' → Settled u tv5_ w' =
          λ w'. Settled-mono (omega arith) in
        switch_rule gettimeofday fuel (λ w'. w' ≡ w) (Settled u tv3_) (Settled u tv3_)
          (Settled u tv5_) w (λ n. absurd (ground arith))
          (λ c'. (
            w,
            visit-same gettimeofday p t ne fuel _ w two (omega arith)
                (rw (a.others (tv2_ + (u / 2 ^ 8) % 2 ^ 6) (omega arith)) refl),
            (refl, refl),
          ))
          (λ n. absurd (ground arith))
          (λ c' w1 t1 s.
            subst
              (λ v.
                Returns
                  (switch_oth_wheel_inner gettimeofday fuel (tv3_ + (v.tick_ / 2 ^ 14) % 2 ^ 6) v)
                  (λ w2. (w2.tick_ ≡ u) × Settled u tv3_ w2))
              (sym s)
              (visit-Settled u tv3_ _ w (omega arith)
                (subst (λ m. Alone gettimeofday p t ne m w) e a) refl same flag small after
                (omega arith) (omega arith) (λ d. place-mid u t.expried_time_ d near)))
          (λ n. up) (λ c' w2 t2. Settled-later u tv3_ _ w2 (omega arith) (omega arith)) up
          (λ w3 s. (w3, Settled-visit u tv3_ _ w3 (omega arith) (omega arith) s, up w3 s))

    switch-from_tv4 :
        Carry4 w.tick_
        → l ≡ tv4_ + (w.tick_ / 1048576) % 64
        → w.tick_ ≤ t.expried_time_
        → t.expried_time_ < w.tick_ + 2 ^ 20
        → Returns (switch_oth_wheel gettimeofday fuel w) (Settled w.tick_ tv5_)
    switch-from_tv4 c e after near =
        let u = w.tick_ in
        let up : (w' : World) → Settled u tv4_ w' → Settled u tv5_ w' =
          λ w'. Settled-mono (omega arith) in
        switch_rule gettimeofday fuel (λ w'. w' ≡ w) (λ w'. w' ≡ w) (Settled u tv4_)
          (Settled u tv5_) w (λ n. absurd (ground arith))
          (λ c'. (
            w,
            visit-same gettimeofday p t ne fuel _ w two (omega arith)
                (rw (a.others (tv2_ + (u / 2 ^ 8) % 2 ^ 6) (omega arith)) refl),
            (refl, refl),
          ))
          (λ n. absurd (ground arith))
          (λ c' w1 t1 s. (
            w1,
            visit-same gettimeofday p t ne fuel _ w1 two (omega arith)
                (rw (s, a.others (tv3_ + (u / 2 ^ 14) % 2 ^ 6) (omega arith)) refl),
            (t1, s),
          ))
          (λ n. absurd (ground arith))
          (λ c' w2 t2 s.
            subst
              (λ v.
                Returns
                  (switch_oth_wheel_inner gettimeofday fuel (tv4_ + (v.tick_ / 2 ^ 20) % 2 ^ 6) v)
                  (λ w3. (w3.tick_ ≡ u) × Settled u tv4_ w3))
              (sym s)
              (visit-Settled u tv4_ _ w (omega arith)
                (subst (λ m. Alone gettimeofday p t ne m w) e a) refl same flag small after
                (omega arith) (omega arith) (λ d. place-high u t.expried_time_ d near)))
          up (λ w3 s. (w3, Settled-visit u tv4_ _ w3 (omega arith) (omega arith) s, up w3 s))

    heads : (m : ℕ) → m ≢ l → (w.slots m).head_ ≡ null
    heads m apart = rw (a.others m apart) refl

    -- The carries of one tick, wherever the timer waits.
    pub switch-Settled :
        Round w.tick_ t.expried_time_ l
        → Returns (switch_oth_wheel gettimeofday fuel w) (Settled w.tick_ tv5_)
    switch-Settled (stays h i) =
        weaken _ (switch-same l w h (Waits-lt i) heads)
          λ w' e. subst (Settled w.tick_ tv5_) (sym e) (Settled.waits l (Waits-lt i) i a refl same)
    switch-Settled (Round.due h i j) =
        let low : l < tv5_ = omega arith in
        weaken _ (switch-same l w h low heads)
          λ w' e. subst (Settled w.tick_ tv5_) (sym e) (Settled.due l low i j a refl same)
    switch-Settled (from_tv2 c e after near) = switch-from_tv2 c e after near
    switch-Settled (from_tv3 c e after near) = switch-from_tv3 c e after near
    switch-Settled (from_tv4 c e after near) = switch-from_tv4 c e after near
