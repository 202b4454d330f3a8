-- ===== src/TimeWheel.antt =====
-- co/timewheel.c and co/timewheel.h: timers in the slots of five wheels.
-- A timer is a cell of a store, `fresh` the address that `malloc` gives next. A slot is a list
-- with a head and a tail, linked both ways. The 512 slots of a wheel are numbered in the order of
-- the struct's arrays, so that `&tv2_[i]` is `tv2_ + i`. Times are 64-bit patterns. A handler is
-- its address, and a call of it is written to `calls`, the latest first.
pub mod Store
pub mod Lists
pub mod Due
pub mod Alone
pub mod Rounds
pub mod Firing
pub mod Add
pub mod Links
pub mod Lost
mod Tests
use my_little_tool.Prelude.{
  ℕ, zero, suc, ◌+◌, ◌-◌, ◌*◌, ◌/◌, ◌%◌, ◌^◌, ◌&&◌, not, Option, none, some, List, [], ◌∷◌, ℤ, pos,
  pos_part, of_word, ltb, leb, leb_ℤ, ◌==◌, if◌then◌else◌, Run, ok, fault, null_pointer,
  use_after_free, out_of_bounds, out_of_fuel, ◌>>=◌,
}

abbrev pub Ptr : Type 0
Ptr = ℕ

abbrev pub null : Ptr
null = 0

pub record TimerOptions : Type 0 where
  pub timeout_ : ℕ
  pub execu_times_ : ℕ
  pub flag_ : ℕ

pub record Timer : Type 0 where
  pub handle_ : ℕ
  pub expried_time_ : ℕ
  pub data_ : ℕ
  pub timer_options_ : TimerOptions
  pub next_ : Ptr
  pub pre_ : Ptr
  pub linked_list_ : Option ℕ

pub record TimerList : Type 0 where
  pub head_ : Ptr
  pub tail_ : Ptr

abbrev pub empty : TimerList
empty = record { head_ = null; tail_ = null }

-- The wheel and what its operations touch beside it.
pub record World : Type 0 where
  pub store : Ptr → Option Timer
  pub fresh : Ptr
  pub slots : ℕ → TimerList
  pub tick_ : ℕ
  pub calls : List (ℕ × ℕ)
  pub reads : ℕ

pub record TimeVal : Type 0 where
  pub tv_sec : ℕ
  pub tv_usec : ℕ

-- The first slot of each wheel, and the number of slots.
abbrev pub tv1_ : ℕ
tv1_ = 0

abbrev pub tv2_ : ℕ
tv2_ = 256

abbrev pub tv3_ : ℕ
tv3_ = 320

abbrev pub tv4_ : ℕ
tv4_ = 384

abbrev pub tv5_ : ℕ
tv5_ = 448

abbrev pub slot_count : ℕ
slot_count = 512

unfoldable pub write : (Ptr → Option Timer) → Ptr → Option Timer → Ptr → Option Timer
write h p c a = if a == p then c else h a

-- `*p`
unfoldable pub load : Ptr → World → Run Timer
load p w =
    if p == null
    then fault null_pointer
    else elim (w.store p) [ none ↦ fault use_after_free | some t ↦ ok t ]

-- Writing to fields of `*p`.
unfoldable pub modify : Ptr → (Timer → Timer) → World → Run World
modify p f w = do t ← load p w; ok (record w { store = write w.store p (some (f t)) })

unfoldable pub free_timer : Ptr → World → Run World
free_timer p w = do t ← load p w; ok (record w { store = write w.store p none })

unfoldable pub read_list : ℕ → World → Run TimerList
read_list l w = if ltb l slot_count then ok (w.slots l) else fault out_of_bounds

unfoldable pub put_list : ℕ → TimerList → World → World
put_list l c w = record w { slots = λ k. if k == l then c else w.slots k }

-- `handle_(data_)`
unfoldable pub call : Timer → World → World
call t w = record w { calls = (t.handle_, t.data_) ∷ w.calls }

unfoldable pub add_timer_list : ℕ → Ptr → World → Run World
add_timer_list l timer w = do
  w1 ← modify timer (λ t. record t { linked_list_ = some l }) w
  list ← read_list l w1
  if list.tail_ == null
      then modify timer (λ t. record t { pre_ = null; next_ = null })
          (put_list l (record { head_ = timer; tail_ = timer }) w1)
      else do
        w2 ← modify timer (λ t. record t { pre_ = list.tail_; next_ = null }) w1
        w3 ← modify list.tail_ (λ t. record t { next_ = timer }) w2
        ok (put_list l (record list { tail_ = timer }) w3)

-- `if(p) p->field = NULL;`
unfoldable pub modify_some : Ptr → (Timer → Timer) → World → Run World
modify_some p f w = if p == null then ok w else modify p f w

-- The three ways to take a timer out of its list.
unfoldable pub unlink_timer : Option ℕ → Ptr → Timer → World → Run World
unlink_timer none timer t w = fault null_pointer
unlink_timer (some l) timer t w = do
  list ← read_list l w
  if list.head_ == timer
      then modify_some t.next_ (λ n. record n { pre_ = null })
          (put_list l (record list { head_ = t.next_ }) w)
      else if list.tail_ == timer
      then modify_some t.pre_ (λ n. record n { next_ = null })
          (put_list l (record list { tail_ = t.pre_ }) w)
      else do
        w1 ← modify t.pre_ (λ n. record n { next_ = t.next_ }) w
        modify t.next_ (λ n. record n { pre_ = t.pre_ }) w1

unfoldable pub delete_timer_list : Ptr → World → Run World
delete_timer_list timer w = do
  t ← load timer w
  w1 ← unlink_timer t.linked_list_ timer t w
  modify timer (λ n. record n { next_ = null; pre_ = null; linked_list_ = none }) w1

-- The slot for a positive delay `idx` and an expiry time. `& TV1_MASK` is `% 2 ^ 8`.
unfoldable pub place : ℕ → ℕ → ℕ
place idx time =
    if ltb idx (2 ^ 8)
    then tv1_ + time % 2 ^ 8
    else if ltb idx (2 ^ 14)
    then tv2_ + (time / 2 ^ 8) % 2 ^ 6
    else if ltb idx (2 ^ 20)
    then tv3_ + (time / 2 ^ 14) % 2 ^ 6
    else if ltb idx (2 ^ 26)
    then tv4_ + (time / 2 ^ 20) % 2 ^ 6
    else tv4_ + (time / 2 ^ 26) % 2 ^ 6

-- `int idx = expried_time_ - tick_`
unfoldable pub delay : ℕ → ℕ → ℤ
delay time tick = of_word ((time + 2 ^ 64 - tick) % 2 ^ 32)

abbrev pub set_expiry : ℕ → Timer → Timer
set_expiry time t = record t { expried_time_ = time }

-- The clock: what each reading of `gettimeofday` gives.
module _ (gettimeofday : ℕ → TimeVal) where
  unfoldable pub now_milliseconds : World → ℕ × World
  now_milliseconds w =
      let tv = gettimeofday w.reads in
      ((tv.tv_sec * 1000 + tv.tv_usec / 1000) % 2 ^ 64, record w { reads = w.reads + 1 })

  unfoldable pub init_time_wheel : World → World
  init_time_wheel w =
      let (now, w1) = now_milliseconds w in record w1 { slots = λ _. empty; tick_ = now }

  -- `_AddTimer`, with the timer that it returns.
  unfoldable pub add_timer_inner : ℕ → Ptr → World → Run (Ptr × World)
  add_timer_inner zero timer w = fault out_of_fuel
  add_timer_inner (suc fuel) timer w = do
    t ← load timer w
    let idx = delay t.expried_time_ w.tick_
    let again : World → Run (Ptr × World) = λ w1. do
      w2 ←
          modify timer (set_expiry (((now_milliseconds w1).0 + t.timer_options_.timeout_) % 2 ^ 64))
            ((now_milliseconds w1).1)
      (_, w3) ← add_timer_inner fuel timer w2
      ok (timer, w3)
    let fire : Run (Ptr × World) =
        if t.timer_options_.flag_ == 1
        then again (call t w)
        else do w1 ← free_timer timer (call t w); ok (null, w1)
    if leb_ℤ idx (pos 0)
        then fire
        else do w1 ← add_timer_list (place (pos_part idx) t.expried_time_) timer w; ok (timer, w1)

  unfoldable pub add_timer : ℕ → ℕ → ℕ → ℕ → ℕ → ℕ → World → Run (Ptr × World)
  add_timer fuel handler timeout data_ opt excute_times w =
      if ltb timeout 1
      then ok (null, w)
      else if not (opt == 0) && not (opt == 1) && not (opt == 2)
      then ok (null, w)
      else add_timer_inner fuel w.fresh (record w {
        fresh = w.fresh + 1;
        store = write w.store w.fresh (
            some (record {
              handle_ = handler;
              expried_time_ = (timeout + w.tick_) % 2 ^ 64;
              data_ = data_;
              timer_options_ = record {
                timeout_ = timeout;
                execu_times_ = excute_times;
                flag_ = opt;
              };
              next_ = null;
              pre_ = null;
              linked_list_ = none;
            }));
      })

  -- The `while` of `_SwitchOthWheel`.
  unfoldable pub migrate : ℕ → ℕ → Ptr → World → Run World
  migrate fuel zero node w = fault out_of_fuel
  migrate fuel (suc k) node w =
      let step : Run World = do
        t ← load node w
        (_, w1) ← add_timer_inner fuel node w
        migrate fuel k t.next_ w1
      in if node == null then ok w else step

  -- `_SwitchOthWheel`
  unfoldable pub switch_oth_wheel_inner : ℕ → ℕ → World → Run World
  switch_oth_wheel_inner fuel l w = do
    list ← read_list l w
    if list.head_ == null
        then ok w
        else do w1 ← migrate fuel fuel list.head_ w; ok (put_list l empty w1)

  unfoldable pub switch_oth_wheel : ℕ → World → Run World
  switch_oth_wheel fuel w =
      let index = w.tick_ % 2 ^ 8 in
      if not (index == 0) then ok w else do
        let index = (w.tick_ / 2 ^ 8) % 2 ^ 6
        w1 ← switch_oth_wheel_inner fuel (tv2_ + index) w
        if not (index == 0) then ok w1 else do
          let index = (w1.tick_ / 2 ^ 14) % 2 ^ 6
          w2 ← switch_oth_wheel_inner fuel (tv3_ + index) w1
          if not (index == 0) then ok w2 else do
            let index = (w2.tick_ / 2 ^ 20) % 2 ^ 6
            w3 ← switch_oth_wheel_inner fuel (tv4_ + index) w2
            if not (index == 0)
                then ok w3
                else switch_oth_wheel_inner fuel (tv5_ + (w3.tick_ / 2 ^ 26) % 2 ^ 6) w3

  -- The end of a timer that has been called: set again, or freed.
  unfoldable pub rearm : ℕ → Ptr → World → Run World
  rearm fuel node w = do
    t ← load node w
    w1 ← modify node (set_expiry ((t.timer_options_.timeout_ + w.tick_) % 2 ^ 64)) w
    (_, w2) ← add_timer_inner fuel node w1
    ok w2

  -- `--execu_times_ != 0`, and what the test decides.
  unfoldable pub count_down : ℕ → Ptr → World → Run World
  count_down fuel node w = do
    t ← load node w
    let left = (t.timer_options_.execu_times_ + 2 ^ 32 - 1) % 2 ^ 32
    w1 ←
        modify node
          (λ n. record n { timer_options_ = record n.timer_options_ { execu_times_ = left } }) w
    if not (left == 0) then rearm fuel node w1 else free_timer node w1

  -- The inner `while` of `Tick`.
  unfoldable pub expire : ℕ → ℕ → Ptr → World → Run World
  expire fuel zero node w = fault out_of_fuel
  expire fuel (suc k) node w =
      let step : Run World = do
        t ← load node w
        let w1 = call t w
        w2 ←
            if t.timer_options_.flag_ == 1
            then rearm fuel node w1
            else if t.timer_options_.flag_ == 2
            then count_down fuel node w1
            else free_timer node w1
        expire fuel k t.next_ w2
      in if node == null then ok w else step

  -- The `if` of `Tick`, for the slot that is due. Only `head_` is reset.
  unfoldable pub expire_slot : ℕ → ℕ → World → Run World
  expire_slot fuel l w = do
    list ← read_list l w
    if list.head_ == null then ok w else do
      w1 ← expire fuel fuel list.head_ w
      list1 ← read_list l w1
      ok (put_list l (record list1 { head_ = null }) w1)

  -- One round of the outer `while`.
  unfoldable pub tick_round : ℕ → World → Run World
  tick_round fuel w = do
    w1 ← switch_oth_wheel fuel (record w { tick_ = (w.tick_ + 1) % 2 ^ 64 })
    expire_slot fuel (tv1_ + w1.tick_ % 2 ^ 8) w1

  unfoldable pub tick_loop : ℕ → ℕ → ℕ → World → Run World
  tick_loop fuel zero now w = fault out_of_fuel
  tick_loop fuel (suc k) now w =
      let round = tick_round fuel w >>= λ w1. tick_loop fuel k now w1 in
      if leb w.tick_ now then round else ok w

  unfoldable pub tick : ℕ → ℕ → World → Run World
  tick fuel k w =
      let (now, w1) = now_milliseconds w in
      if ltb now w1.tick_ then ok w1 else tick_loop fuel k now w1
