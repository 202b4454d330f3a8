-- ===== src/TimeWheel/Links/Dangling.antt =====
-- Where `tail_` stays behind: the only timer of a slot deleted, and the timers of a slot expired.
use my_little_tool.Prelude.{
  ℕ, ◌<◌, ◌≡◌, ◌≢◌, refl, ap, ◌∙◌, arith, some, none, [], ◌∷◌, true, false, ok, ◌==◌, fault,
  use_after_free, Returns, ◌>>=◌, bind_rule, weaken,
}
use my_little_tool.TimeWheel.{
  Ptr, null, Timer, TimerList, World, slot_count, write, put_list, add_timer_list,
  delete_timer_list, TimeVal, expire_slot, switch_oth_wheel_inner,
}
use my_little_tool.TimeWheel.Store.{modify-ok, modify-gone, read_list-ok, write_same, put_list_same}
use my_little_tool.TimeWheel.Links.{IsList}
use my_little_tool.TimeWheel.Links.Delete.{cleared, delete-only}

-- `AddTimerList` where the slot has a tail: it goes through that tail, and leaves the head.
module _ (l : ℕ) (q : Ptr) (w : World) (t : Timer) (fits : l < slot_count) (ne : q ≢ null)
    (e : w.store q ≡ some t) (tail : (w.slots l).tail_ ≢ null) (apart : (w.slots l).tail_ ≢ q) where
  linked_to : Timer → Timer
  linked_to t = record t { linked_list_ = some l }

  pub add-behind :
      (c : Timer)
      → w.store (w.slots l).tail_ ≡ some c
      → Returns
          (add_timer_list l q w)
          (λ w'. w'.slots l ≡ record { head_ = (w.slots l).head_; tail_ = q })
  unfolding add_timer_list write linked_to
  add-behind c at =
      let after : Timer → Timer = λ t. record t { pre_ = (w.slots l).tail_; next_ = null } in
      let before : Timer → Timer = λ t. record t { next_ = q } in
      let w1 : World = record w { store = write w.store q (some (linked_to t)) } in
      let w2 : World = record w1 { store = write w1.store q (some (after (linked_to t))) } in
      let some_there : ((w.slots l).tail_ == null) ≡ false = ground arith in
      let e1 : w1.store q ≡ some (linked_to t) = write_same w.store q _ in
      let e2 : w2.store (w.slots l).tail_ ≡ some c = ground arith in
      let w3 : World = record w2 { store = write w2.store (w.slots l).tail_ (some (before c)) } in
      let list : TimerList = record (w.slots l) { tail_ = q } in
      rw
        (
          modify-ok q w t ne e (λ t. record t { linked_list_ = some l }),
          read_list-ok l w1 fits,
          some_there,
          modify-ok q w1 (linked_to t) ne e1 after,
          modify-ok (w.slots l).tail_ w2 c tail e2 before,
        )
        (put_list l list w3, refl, put_list_same l list w3)

  pub add-dangling : w.store (w.slots l).tail_ ≡ none → add_timer_list l q w ≡ fault use_after_free
  unfolding add_timer_list write linked_to
  add-dangling gone =
      let after : Timer → Timer = λ t. record t { pre_ = (w.slots l).tail_; next_ = null } in
      let before : Timer → Timer = λ t. record t { next_ = q } in
      let w1 : World = record w { store = write w.store q (some (linked_to t)) } in
      let w2 : World = record w1 { store = write w1.store q (some (after (linked_to t))) } in
      let some_there : ((w.slots l).tail_ == null) ≡ false = ground arith in
      let e1 : w1.store q ≡ some (linked_to t) = write_same w.store q _ in
      let e2 : w2.store (w.slots l).tail_ ≡ none = ground arith in
      rw
        (
          modify-ok q w t ne e (λ t. record t { linked_list_ = some l }),
          read_list-ok l w1 fits,
          some_there,
          modify-ok q w1 (linked_to t) ne e1 after,
          modify-gone (w.slots l).tail_ w2 before tail e2,
        )
        refl

-- A slot without a head is left alone by a tick and by a carry.
unreached :
    (gettimeofday : ℕ → TimeVal) (fuel l : ℕ) (w : World)
    → l < slot_count
    → (w.slots l).head_ ≡ null
    → (expire_slot gettimeofday fuel l w ≡ ok w)
      × (switch_oth_wheel_inner gettimeofday fuel l w ≡ ok w)
unfolding expire_slot switch_oth_wheel_inner
unreached gettimeofday fuel l w fits e =
    let no_head : ((w.slots l).head_ == null) ≡ true = ground arith in
    (rw (read_list-ok l w fits, no_head) refl, rw (read_list-ok l w fits, no_head) refl)

-- When the only timer of a slot is deleted and another allocated timer is then added to the slot,
-- the slot's head is still NULL and only its tail is the new timer. In this state the part of `Tick`
-- that calls the timers of the slot and the visit of the slot by `_SwitchOthWheel` change nothing:
-- they neither call nor move the new timer.
pub delete-add :
    (gettimeofday : ℕ → TimeVal) (fuel l : ℕ) (x q : Ptr) (w : World) (t : Timer)
    → l < slot_count
    → q ≢ null
    → x ≢ q
    → w.store q ≡ some t
    → IsList l (x ∷ []) w
    → Returns (delete_timer_list x w >>= add_timer_list l q) (λ w'.
      (w'.slots l ≡ record { head_ = null; tail_ = q })
      × (expire_slot gettimeofday fuel l w' ≡ ok w')
      × (switch_oth_wheel_inner gettimeofday fuel l w' ≡ ok w'))
delete-add gettimeofday fuel l x q w t fits ne apart e (d, s) =
    bind_rule _ _ (delete-only l x w fits (d, s))
      λ w1 (here, (c, at0, at), (others, same, moved, equal)).
        weaken _
          (add-behind l q w1 t fits ne (same q (ground arith) ∙ e) (ground (arith, here))
            (ground (arith, here)) (cleared c) (ap (λ s. w1.store s.tail_) here ∙ at))
          λ w2 e2.
            let slot : w2.slots l ≡ record { head_ = null; tail_ = q } =
              e2 ∙ ground (arith, here) in
            let (a, b) = unreached gettimeofday fuel l w2 fits (ap (λ s. s.head_) slot) in
            (slot, a, b)
