-- ===== src/TimeWheel/Links/Append.antt =====
-- `AddTimerList` appends to the list of the slot.
use my_little_tool.Prelude.{
  ℕ, ◌<◌, ◌≡◌, ◌≢◌, refl, sym, subst, arith, some, List, [], ◌∷◌, ◌++◌, true, false, ◌==◌, Returns,
}
use my_little_tool.TimeWheel.{Ptr, null, Timer, World, slot_count, write, put_list, add_timer_list}
use my_little_tool.TimeWheel.Store.{
  modify-ok, read_list-ok, write_same, put_list_same, put_list_other,
}
use my_little_tool.TimeWheel.Links.{
  has, has-append, Distinct, Seg, IsList, SameOutside, join, last-has, last-stored, relink_next,
  Relinked, Relinked-refl, Relinked-write,
}

Distinct-append :
    (q : Ptr) (xs : List Ptr) → has q xs ≡ false → Distinct xs → Distinct (xs ++ (q ∷ []))
Distinct-append q [] out d = (refl, tt)
Distinct-append q (x ∷ xs) out (o, d) =
    (ground (arith, has-append x xs (q ∷ [])), Distinct-append q xs (ground arith) d)

-- `AddTimerList` with an allocated timer that is not in the list of the slot ends normally: if the
-- slot held the timers `xs`, it then holds them in the same order with the new timer after them. Of
-- the timers only links change, and of the wheel only this slot; `tick_`, the calls made, the
-- readings of the clock and what is allocated stay as they are.
pub add_timer_list-IsList :
    (l : ℕ) (q : Ptr) (w : World) (xs : List Ptr) (t : Timer)
    → l < slot_count
    → q ≢ null
    → w.store q ≡ some t
    → has q xs ≡ false
    → IsList l xs w
    → Returns
        (add_timer_list l q w)
        (λ w'. IsList l (xs ++ (q ∷ [])) w' × SameOutside l (q ∷ xs) w w')
unfolding add_timer_list put_list write
add_timer_list-IsList l q w [] t fits ne e out (d, (f, g)) =
    let none_there : ((w.slots l).tail_ == null) ≡ true = ground arith in
    let linked_to : Timer → Timer = λ t. record t { linked_list_ = some l } in
    let first : Timer → Timer = λ t. record t { pre_ = null; next_ = null } in
    let w1 : World = record w { store = write w.store q (some (linked_to t)) } in
    let w2 : World = put_list l (record { head_ = q; tail_ = q }) w1 in
    let e2 : w2.store q ≡ some (linked_to t) = write_same w.store q _ in
    let w3 : World = record w2 { store = write w2.store q (some (first (linked_to t))) } in
    let moved : Relinked w.store w3.store =
      Relinked-write w.store w2.store q (linked_to t) _
        (Relinked-write w.store w.store q t (linked_to t) (Relinked-refl w.store) e refl) e2 refl in
    let here : w3.slots l ≡ record { head_ = q; tail_ = q } = put_list_same l _ w1 in
    rw
      (
        modify-ok q w t ne e linked_to,
        read_list-ok l w1 fits,
        none_there,
        modify-ok q w2 (linked_to t) ne e2 first,
      )
      (
        w3,
        refl,
        (
          (
            (refl, tt),
            (
              ground (arith, here),
              ne,
              (
                first (linked_to t),
                write_same w2.store q _,
                refl,
                refl,
                (refl, ground (arith, here)),
              ),
            ),
          ),
          ((λ k o. put_list_other l _ w1 k o), (λ a o. ground arith), moved, refl),
        ),
      )
add_timer_list-IsList l q w (x ∷ xs) t fits ne e out (d, s) =
    let tail = (w.slots l).tail_ in
    let (tail_ne, (c, tail_stored)) =
      last-stored l w.store null (w.slots l).head_ x xs tail null s in
    let some_there : (tail == null) ≡ false = ground arith in
    let apart : q ≢ tail =
      ground (arith, last-has l w.store null (w.slots l).head_ x xs tail null s) in
    let linked_to : Timer → Timer = λ t. record t { linked_list_ = some l } in
    let after : Timer → Timer = λ t. record t { pre_ = tail; next_ = null } in
    let before : Timer → Timer = λ t. record t { next_ = q } in
    let w1 : World = record w { store = write w.store q (some (linked_to t)) } in
    let w2 : World = record w1 { store = write w1.store q (some (after (linked_to t))) } in
    let w3 : World = record w2 { store = write w2.store tail (some (before c)) } in
    let w4 : World = put_list l (record (w.slots l) { tail_ = q }) w3 in
    let e1 : w1.store q ≡ some (linked_to t) = write_same w.store q _ in
    let e2 : w2.store tail ≡ some c = ground arith in
    let moved : Relinked w.store w4.store =
      Relinked-write w.store w2.store tail c _
        (Relinked-write w.store w1.store q (linked_to t) (after (linked_to t))
          (Relinked-write w.store w.store q t (linked_to t) (Relinked-refl w.store) e refl) e1 refl)
        e2 refl in
    let here : w4.slots l ≡ record (w.slots l) { tail_ = q } = put_list_same l _ w3 in
    let new : w4.store q ≡ some (after (linked_to t)) = ground arith in
    let prefix : Seg w4.store l null (w.slots l).head_ (x ∷ xs) tail q =
      relink_next l w.store w4.store null (w.slots l).head_ x xs tail null q c d
        (λ a o i. ground arith) tail_stored (write_same w2.store tail _) s in
    let whole : Seg w4.store l null (w.slots l).head_ ((x ∷ xs) ++ (q ∷ [])) q null =
      join l w4.store null (w.slots l).head_ (x ∷ xs) (q ∷ []) tail q q null prefix
        (refl, ne, (after (linked_to t), new, refl, refl, (refl, refl))) in
    rw
      (
        modify-ok q w t ne e linked_to,
        read_list-ok l w1 fits,
        some_there,
        modify-ok q w1 (linked_to t) ne e1 after,
        modify-ok tail w2 c tail_ne e2 before,
      )
      (
        w4,
        refl,
        (
          (
            Distinct-append q (x ∷ xs) out d,
            subst (λ c. Seg w4.store l null c.head_ ((x ∷ xs) ++ (q ∷ [])) c.tail_ null) (sym here)
                whole,
          ),
          (
            (λ k o. put_list_other l _ w3 k o),
            (λ a o. ground (arith, last-has l w.store null (w.slots l).head_ x xs tail null s)),
            moved,
            refl,
          ),
        ),
      )
