-- ===== src/TimeWheel/Lists.antt =====
-- A timer put into an empty slot.
use my_little_tool.Prelude.{ℕ, ◌<◌, ◌≡◌, ◌≢◌, refl, some, Returns}
use my_little_tool.TimeWheel.{
  Ptr, null, Timer, TimerList, empty, World, slot_count, write, put_list, add_timer_list,
}
use my_little_tool.TimeWheel.Store.{
  modify-ok, read_list-ok, write_same, put_list_same, put_list_other,
}

-- A timer as the only one of slot `l`.
abbrev pub linked : ℕ → Timer → Timer
linked l t = record t { linked_list_ = some l; pre_ = null; next_ = null }

abbrev pub single : Ptr → TimerList
single p = record { head_ = p; tail_ = p }

-- What putting timer `p` into the empty slot `l` does, and what it leaves.
pub record Placed (l : ℕ) (p : Ptr) (t : Timer) (w w' : World) : Type 0 where
  pub timer : w'.store p ≡ some (linked l t)
  pub here : w'.slots l ≡ single p
  pub others : (k : ℕ) → k ≢ l → w'.slots k ≡ w.slots k
  pub tick : w'.tick_ ≡ w.tick_
  pub calls : w'.calls ≡ w.calls

module _ (l : ℕ) (p : Ptr) (w : World) (t : Timer) where
  pub add_timer_list-Placed :
      l < slot_count
      → p ≢ null
      → w.store p ≡ some t
      → w.slots l ≡ empty
      → Returns (add_timer_list l p w) (Placed l p t w)
  unfolding add_timer_list put_list
  add_timer_list-Placed fits ne e free =
      let linked_to : Timer → Timer = λ t. record t { linked_list_ = some l } in
      let first : Timer → Timer = λ t. record t { pre_ = null; next_ = null } in
      let w1 : World = record w { store = write w.store p (some (linked_to t)) } in
      let w2 : World = put_list l (single p) w1 in
      let e2 : w2.store p ≡ some (linked_to t) = write_same w.store p _ in
      rw
        (
          modify-ok p w t ne e linked_to,
          read_list-ok l w1 fits,
          free,
          modify-ok p w2 (linked_to t) ne e2 first,
        )
        (
          record w2 { store = write w2.store p (some (linked l t)) },
          refl,
          record {
            timer = write_same w2.store p _;
            here = put_list_same l (single p) w1;
            others = put_list_other l (single p) w1;
            tick = refl;
            calls = refl;
          },
        )
