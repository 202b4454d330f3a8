-- ===== src/TimeWheel/Tests.antt =====
-- Runs of the wheel on small states, and the theorems at concrete inputs.
use my_little_tool.Prelude.{
  ℕ, ◌+◌, ◌^◌, ◌≡◌, refl, arith, none, some, ok, [], ◌∷◌, ltb, ◌==◌, fault, use_after_free, Returns,
  ◌>>=◌, if◌then◌else◌,
}
use my_little_tool.TimeWheel.{
  null, Timer, World, TimeVal, empty, add_timer, add_timer_list, delete_timer_list, tick,
  now_milliseconds, switch_oth_wheel_inner, expire_slot,
}
use my_little_tool.TimeWheel.Lists.{linked, single}
use my_little_tool.TimeWheel.Due.{on_tv1}
use my_little_tool.TimeWheel.Alone.{Alone}
use my_little_tool.TimeWheel.Firing.{Timed, waiting, tick-Timed}
use my_little_tool.TimeWheel.Add.{add_timer-tick}
use my_little_tool.TimeWheel.Links.{IsList, SameOutside}
use my_little_tool.TimeWheel.Links.Append.{add_timer_list-IsList}
use my_little_tool.TimeWheel.Links.Delete.{Removed, delete_timer_list-Removed}
use my_little_tool.TimeWheel.Links.Dangling.{delete-add}
use my_little_tool.TimeWheel.Lost.{expire_slot-add, add_timer-overlong, visit-loses}

-- A clock that stands at 1300 milliseconds.
abbrev clock : ℕ → TimeVal
clock _ = record { tv_sec = 1; tv_usec = 300000 }

abbrev no_timers : World
no_timers = record {
  store = λ _. none;
  fresh = 1;
  slots = λ _. empty;
  tick_ = 1000;
  calls = [];
  reads = 0;
}

add_timer-tick_example :
    Returns (add_timer clock 9 7 280 8 0 0 no_timers >>= λ r. tick clock 9 400 r.1) (λ w'.
      (w'.tick_ ≡ 1301) × (w'.calls ≡ (if ltb (1300 + 1) (1000 + 280) then [] else (7, 8) ∷ [])))
add_timer-tick_example =
    add_timer-tick clock 7 280 8 0 0 no_timers 9 (omega arith) (omega arith) 400 1300 (omega arith)
      (omega arith) refl (omega arith) (λ _. refl) (λ _. refl) (omega arith) (omega arith)
      (omega arith)

abbrev timer : ℕ → ℕ → Timer
timer time n = record {
  handle_ = 7;
  expried_time_ = time;
  data_ = n;
  timer_options_ = record { timeout_ = 280; execu_times_ = 0; flag_ = 0 };
  next_ = null;
  pre_ = null;
  linked_list_ = none;
}

-- Timer 5 alone in a slot, and timer 6 in none.
abbrev one_timer : ℕ → ℕ → World
one_timer l time = record {
  store = λ a.
      if a == 5
      then some (linked l (timer time 8))
      else if a == 6
      then some (timer time 9)
      else none;
  fresh = 7;
  slots = λ k. if k == l then single 5 else empty;
  tick_ = 1000;
  calls = [];
  reads = 0;
}

one_timer-Alone : (l time : ℕ) → Alone clock 5 (timer time 8) (omega arith) l (one_timer l time)
one_timer-Alone l time = record { timer = refl; here = ground arith; others = λ k ne. ground arith }

tick-Timed_example : Returns (tick clock 9 400 (one_timer 76 1100)) (λ w'.
    (w'.tick_ ≡ 1301)
    × Timed clock 9 (omega arith) 5 (timer 1100 8) (omega arith) [] w'.tick_ w'
    × (w'.calls ≡ (if ltb w'.tick_ 1100 then [] else (7, 8) ∷ [])))
unfolding now_milliseconds
tick-Timed_example =
    tick-Timed clock 9 (omega arith) 5 (timer 1100 8) (omega arith) [] 400 (one_timer 76 1100) refl
      (waiting 76 (on_tv1 refl (omega arith) (omega arith)) (one_timer-Alone 76 1100) refl)
      (omega arith) (omega arith) (omega arith)

one_timer-IsList : IsList 76 (5 ∷ []) (one_timer 76 1100)
one_timer-IsList =
    ((refl, tt), (refl, omega arith, (linked 76 (timer 1100 8), refl, refl, refl, (refl, refl))))

add_timer_list-IsList_example :
    Returns
      (add_timer_list 76 6 (one_timer 76 1100))
      (λ w'. IsList 76 (5 ∷ 6 ∷ []) w' × SameOutside 76 (6 ∷ 5 ∷ []) (one_timer 76 1100) w')
add_timer_list-IsList_example =
    add_timer_list-IsList 76 6 (one_timer 76 1100) (5 ∷ []) (timer 1100 9) (omega arith)
      (omega arith) refl refl one_timer-IsList

delete-add_example :
    Returns (delete_timer_list 5 (one_timer 76 1100) >>= add_timer_list 76 6) (λ w'.
      (w'.slots 76 ≡ record { head_ = null; tail_ = 6 })
      × (expire_slot clock 9 76 w' ≡ ok w')
      × (switch_oth_wheel_inner clock 9 76 w' ≡ ok w'))
delete-add_example =
    delete-add clock 9 76 5 6 (one_timer 76 1100) (timer 1100 9) (omega arith) (omega arith)
      (omega arith) refl one_timer-IsList

expire_slot-add_example :
    (expire_slot clock 9 76 (one_timer 76 1100) >>= add_timer_list 76 6) ≡ fault use_after_free
expire_slot-add_example =
    expire_slot-add clock 9 76 (omega arith) 5 6 (timer 1100 8) (timer 1100 9) (omega arith)
      (one_timer 76 1100) (omega arith) refl refl refl (omega arith) (omega arith) refl

add_timer-overlong_example :
    Returns
      (add_timer clock 9 7 (2 ^ 31) 8 0 0 no_timers)
      (λ r. (r.0 ≡ null) × (r.1.calls ≡ (7, 8) ∷ []) × (r.1.store 1 ≡ none) × (r.1.tick_ ≡ 1000))
add_timer-overlong_example =
    add_timer-overlong clock 9 7 (2 ^ 31) 8 0 0 no_timers (omega arith) (omega arith) (omega arith)
      (omega arith) (omega arith) (omega arith) (omega arith)

visit-loses_example :
    Returns (switch_oth_wheel_inner clock 9 386 (one_timer 386 (2 ^ 27 + 1))) (λ w'.
      ((k : ℕ) → w'.slots k ≡ empty) × ((c : Timer) × (w'.store 5 ≡ some c)) × (w'.calls ≡ []))
visit-loses_example =
    visit-loses clock 5 (timer (2 ^ 27 + 1) 8) (omega arith) 9 (one_timer 386 (2 ^ 27 + 1))
      (omega arith) (one_timer-Alone 386 (2 ^ 27 + 1)) (omega arith) (omega arith)

-- Timers 5 and 6 in a slot.
abbrev two_timers : World
two_timers = record {
  store = λ a.
      if a == 5
      then some (record (linked 76 (timer 1100 8)) { next_ = 6 })
      else if a == 6
      then some (record (linked 76 (timer 1100 9)) { pre_ = 5 })
      else none;
  fresh = 7;
  slots = λ k. if k == 76 then record { head_ = 5; tail_ = 6 } else empty;
  tick_ = 1000;
  calls = [];
  reads = 0;
}

delete_timer_list-Removed_example :
    Returns (delete_timer_list 5 two_timers) (Removed 76 5 two_timers (omega arith) [] (6 ∷ []))
delete_timer_list-Removed_example =
    delete_timer_list-Removed 76 5 two_timers (omega arith) [] (6 ∷ []) (omega arith) (
      (refl, (refl, tt)),
      (
        refl,
        omega arith,
        (
          record (linked 76 (timer 1100 8)) { next_ = 6 },
          refl,
          refl,
          refl,
          (
            refl,
            omega arith,
            (record (linked 76 (timer 1100 9)) { pre_ = 5 }, refl, refl, refl, (refl, refl)),
          ),
        ),
      ),
    )
