-- ===== src/TimeWheel/Store.antt =====
-- Single accesses to the store of timers and to the slots.
use my_little_tool.Prelude.{
  ℕ, ◌<◌, ◌≡◌, ◌≢◌, refl, arith, Option, none, some, false, lt→ltb, ◌==◌, ok, fault, use_after_free,
}
use my_little_tool.TimeWheel.{
  Ptr, null, Timer, TimerList, World, slot_count, write, load, modify, free_timer, read_list,
  put_list,
}

module _ (p : Ptr) (w : World) (t : Timer) (ne : p ≢ null) (e : w.store p ≡ some t) where
  pub load-ok : load p w ≡ ok t
  unfolding load
  load-ok = let f : (p == null) ≡ false = ground arith in rw (f, e) refl

  pub modify-ok :
      (f : Timer → Timer) → modify p f w ≡ ok (record w { store = write w.store p (some (f t)) })
  unfolding modify
  modify-ok f = rw load-ok refl

  pub free_timer-ok : free_timer p w ≡ ok (record w { store = write w.store p none })
  unfolding free_timer
  free_timer-ok = rw load-ok refl

pub read_list-ok : (l : ℕ) (w : World) → l < slot_count → read_list l w ≡ ok (w.slots l)
unfolding read_list
read_list-ok l w h = rw (lt→ltb l slot_count h) refl

module _ (h : Ptr → Option Timer) (p : Ptr) (c : Option Timer) where
  pub write_same : write h p c p ≡ c
  unfolding write
  write_same = ground arith

  pub write_other : (a : Ptr) → a ≢ p → write h p c a ≡ h a
  unfolding write
  write_other a ne = ground arith

module _ (l : ℕ) (c : TimerList) (w : World) where
  pub put_list_same : (put_list l c w).slots l ≡ c
  unfolding put_list
  put_list_same = ground arith

  pub put_list_other : (k : ℕ) → k ≢ l → (put_list l c w).slots k ≡ w.slots k
  unfolding put_list
  put_list_other k ne = ground arith

pub modify-gone :
    (p : Ptr) (w : World) (f : Timer → Timer)
    → p ≢ null
    → w.store p ≡ none
    → modify p f w ≡ fault use_after_free
unfolding modify load
modify-gone p w f ne e = let some_p : (p == null) ≡ false = ground arith in rw (some_p, e) refl
