-- ===== src/TimeWheel/Links/Delete.antt =====
-- `DeleteTimerList` takes a timer out of the list of its slot.
use my_little_tool.Prelude.{
  ℕ, ◌<◌, ◌≡◌, ◌≢◌, refl, sym, ap, ◌∙◌, subst, arith, some, none, List, [], ◌∷◌, ◌++◌, true, false,
  ◌==◌, Returns, length,
}
use my_little_tool.TimeWheel.{
  Ptr, null, Timer, TimerList, World, slot_count, write, put_list, modify_some, unlink_timer,
  delete_timer_list,
}
use my_little_tool.TimeWheel.Store.{
  load-ok, modify-ok, read_list-ok, write_same, put_list_same, put_list_other,
}
use my_little_tool.TimeWheel.Links.{
  has, has-append, Distinct, Seg, IsList, SameOutside, join, split, last-has, last-stored,
  relink_next, relink_pre, Relinked, Relinked-refl, Relinked-write,
}

Distinct-left : (xs ys : List Ptr) → Distinct (xs ++ ys) → Distinct xs
Distinct-left [] ys d = tt
Distinct-left (x ∷ xs) ys (o, d) = (ground (arith, has-append x xs ys), Distinct-left xs ys d)

Distinct-right : (xs ys : List Ptr) → Distinct (xs ++ ys) → Distinct ys
Distinct-right [] ys d = d
Distinct-right (x ∷ xs) ys (o, d) = Distinct-right xs ys d

Distinct-apart :
    (a : Ptr) (xs ys : List Ptr) → Distinct (xs ++ ys) → has a ys ≡ true → has a xs ≡ false
Distinct-apart a [] ys d h = refl
Distinct-apart a (x ∷ xs) ys (o, d) h =
    ground (arith, has-append x xs ys, Distinct-apart a xs ys d h)

Distinct-remove : (x : Ptr) (xs ys : List Ptr) → Distinct (xs ++ (x ∷ ys)) → Distinct (xs ++ ys)
Distinct-remove x [] ys (o, d) = d
Distinct-remove x (y ∷ xs) ys (o, d) =
    (ground (arith, has-append y xs (x ∷ ys), has-append y xs ys), Distinct-remove x xs ys d)

-- The fields of a timer that is in no list.
abbrev pub cleared : Timer → Timer
cleared t = record t { next_ = null; pre_ = null; linked_list_ = none }

module _ (l : ℕ) (x : Ptr) (w : World) (fits : l < slot_count) where
  -- What is left when `x` is gone from the list.
  abbrev pub Removed : List Ptr → List Ptr → World → Type 0
  Removed xs ys w' =
      IsList l (xs ++ ys) w'
      × ((t : Timer) × (w.store x ≡ some t) × (w'.store x ≡ some (cleared t)))
      × SameOutside l (xs ++ (x ∷ ys)) w w'

  delete-first :
      (y : Ptr) (ys : List Ptr)
      → IsList l (x ∷ y ∷ ys) w
      → Returns (delete_timer_list x w) (Removed [] (y ∷ ys))
  unfolding delete_timer_list unlink_timer modify_some write put_list
  delete-first y ys
        (
          (out, d),
          (e, ne, (t, stored, before, owner, (e', ne', (c, stored', before', owner', rest)))),
        ) =
      let to_null : Timer → Timer = λ n. record n { pre_ = null } in
      let list : TimerList = record (w.slots l) { head_ = t.next_ } in
      let w1 : World = put_list l list w in
      let at : w1.store t.next_ ≡ some c = ap w.store e' ∙ stored' in
      let next_ne : t.next_ ≢ null = ground arith in
      let w2 : World = record w1 { store = write w.store t.next_ (some (to_null c)) } in
      let still : w2.store x ≡ some t = ground arith in
      let w3 : World = record w2 { store = write w2.store x (some (cleared t)) } in
      let is_head : ((w.slots l).head_ == x) ≡ true = ground arith in
      let more : (t.next_ == null) ≡ false = ground arith in
      let here : w3.slots l ≡ list = put_list_same l list w in
      let moved : Relinked w.store w3.store =
        Relinked-write w.store w2.store x t (cleared t)
          (Relinked-write w.store w.store t.next_ c (to_null c) (Relinked-refl w.store) at refl)
          still refl in
      let whole : Seg w3.store l null t.next_ (y ∷ ys) (w.slots l).tail_ null =
        relink_pre l w.store w3.store x t.next_ y ys (w.slots l).tail_ null null d
          (λ a o i. ground arith) (λ c' s. ground arith)
          (e', ne', (c, stored', before', owner', rest)) in
      rw
        (
          load-ok x w t ne stored,
          owner,
          read_list-ok l w fits,
          is_head,
          more,
          modify-ok t.next_ w1 c next_ne at to_null,
          modify-ok x w2 t ne still cleared,
        )
        (
          w3,
          refl,
          (
            (d, subst (λ c. Seg w3.store l null c.head_ (y ∷ ys) c.tail_ null) (sym here) whole),
            (t, stored, write_same w2.store x _),
            ((λ k o. put_list_other l list w k o), (λ a o. ground arith), moved, refl),
          ),
        )

  module _ (a : Ptr) (us : List Ptr) where
    delete-last :
        IsList l ((a ∷ us) ++ (x ∷ [])) w → Returns (delete_timer_list x w) (Removed (a ∷ us) [])
    unfolding delete_timer_list unlink_timer modify_some write put_list
    delete-last (d, s) =
        let (m, n, front, (e, ne, (t, stored, before, owner, (e', is_tail)))) =
          split l w.store null (w.slots l).head_ (a ∷ us) (x ∷ []) (w.slots l).tail_ null s in
        let (m_ne, (c, at)) = last-stored l w.store null (w.slots l).head_ a us m n front in
        let m_in = last-has l w.store null (w.slots l).head_ a us m n front in
        let out : has x (a ∷ us) ≡ false = Distinct-apart x (a ∷ us) (x ∷ []) d (ground arith) in
        let to_null : Timer → Timer = λ n. record n { next_ = null } in
        let list : TimerList = record (w.slots l) { tail_ = t.pre_ } in
        let w1 : World = put_list l list w in
        let pre_ne : t.pre_ ≢ null = ground arith in
        let at1 : w1.store t.pre_ ≡ some c = ap w.store before ∙ at in
        let w2 : World = record w1 { store = write w.store t.pre_ (some (to_null c)) } in
        let still : w2.store x ≡ some t = ground arith in
        let w3 : World = record w2 { store = write w2.store x (some (cleared t)) } in
        let not_head : ((w.slots l).head_ == x) ≡ false = ground (arith, front.0) in
        let at_tail : ((w.slots l).tail_ == x) ≡ true = ground arith in
        let more : (t.pre_ == null) ≡ false = ground arith in
        let here : w3.slots l ≡ list = put_list_same l list w in
        let moved : Relinked w.store w3.store =
          Relinked-write w.store w2.store x t (cleared t)
            (Relinked-write w.store w.store t.pre_ c (to_null c) (Relinked-refl w.store) at1 refl)
            still refl in
        let whole : Seg w3.store l null (w.slots l).head_ (a ∷ us) m null =
          relink_next l w.store w3.store null (w.slots l).head_ a us m n null c
            (Distinct-left (a ∷ us) (x ∷ []) d) (λ b o i. ground arith) at (ground arith) front in
        let all : Seg w3.store l null (w.slots l).head_ ((a ∷ us) ++ []) m null =
          join l w3.store null (w.slots l).head_ (a ∷ us) [] m null m null whole (refl, refl) in
        rw
          (
            load-ok x w t ne stored,
            owner,
            read_list-ok l w fits,
            not_head,
            at_tail,
            more,
            modify-ok t.pre_ w1 c pre_ne at1 to_null,
            modify-ok x w2 t ne still cleared,
          )
          (
            w3,
            refl,
            (
              (
                Distinct-remove x (a ∷ us) [] d,
                subst (λ c. Seg w3.store l null c.head_ ((a ∷ us) ++ []) c.tail_ null) (sym here)
                    (subst (λ k. Seg w3.store l null (w.slots l).head_ ((a ∷ us) ++ []) k null)
                      (sym before) all),
              ),
              (t, stored, write_same w2.store x _),
              (
                (λ k o. put_list_other l list w k o),
                (λ b o. ground (arith, has-append b us (x ∷ []))),
                moved,
                refl,
              ),
            ),
          )

    delete-middle :
        (y : Ptr) (ys : List Ptr)
        → IsList l ((a ∷ us) ++ (x ∷ y ∷ ys)) w
        → Returns (delete_timer_list x w) (Removed (a ∷ us) (y ∷ ys))
    unfolding delete_timer_list unlink_timer modify_some write put_list
    delete-middle y ys (d, s) =
        let tail = (w.slots l).tail_ in
        let head = (w.slots l).head_ in
        let (m, n, front, (e, ne, (t, stored, before, owner, rest))) =
          split l w.store null head (a ∷ us) (x ∷ y ∷ ys) tail null s in
        let (e', y_ne, (c', at', _, _, _)) = rest in
        let (m_ne, (c, at)) = last-stored l w.store null head a us m n front in
        let m_in = last-has l w.store null head a us m n front in
        let tail_in = last-has l w.store x t.next_ y ys tail null rest in
        let (out', d') = Distinct-right (a ∷ us) (x ∷ y ∷ ys) d in
        let out : has x (a ∷ us) ≡ false =
          Distinct-apart x (a ∷ us) (x ∷ y ∷ ys) d (ground arith) in
        let apart : (b : Ptr) → has b (y ∷ ys) ≡ true → has b (a ∷ us) ≡ false =
          λ b i. Distinct-apart b (a ∷ us) (x ∷ y ∷ ys) d (ground arith) in
        let m_out : has m (y ∷ ys) ≡ false = ground (arith, apart m) in
        let set_next : Timer → Timer = λ n. record n { next_ = t.next_ } in
        let set_pre : Timer → Timer = λ n. record n { pre_ = t.pre_ } in
        let pre_ne : t.pre_ ≢ null = ground arith in
        let next_ne : t.next_ ≢ null = ground arith in
        let at1 : w.store t.pre_ ≡ some c = ap w.store before ∙ at in
        let w1 : World = record w { store = write w.store t.pre_ (some (set_next c)) } in
        let at2 : w1.store t.next_ ≡ some c' = ground arith in
        let w2 : World = record w1 { store = write w1.store t.next_ (some (set_pre c')) } in
        let still : w2.store x ≡ some t = ground arith in
        let w3 : World = record w2 { store = write w2.store x (some (cleared t)) } in
        let not_head : (head == x) ≡ false = ground (arith, front.0) in
        let not_tail : (tail == x) ≡ false = ground arith in
        let moved : Relinked w.store w3.store =
          Relinked-write w.store w2.store x t (cleared t)
            (Relinked-write w.store w1.store t.next_ c' (set_pre c')
              (Relinked-write w.store w.store t.pre_ c (set_next c) (Relinked-refl w.store) at1
                refl)
              at2 refl)
            still refl in
        let first : Seg w3.store l null head (a ∷ us) m t.next_ =
          relink_next l w.store w3.store null head a us m n t.next_ c
            (Distinct-left (a ∷ us) (x ∷ y ∷ ys) d) (λ b o i. ground (arith, apart b)) at
            (ground (arith, apart m)) front in
        let second : Seg w3.store l m t.next_ (y ∷ ys) tail null =
          relink_pre l w.store w3.store x t.next_ y ys tail null m d'
            (λ b o i. ground (arith, apart b)) (λ k s. ground (arith, apart y)) rest in
        let all = join l w3.store null head (a ∷ us) (y ∷ ys) m t.next_ tail null first second in
        rw
          (
            load-ok x w t ne stored,
            owner,
            read_list-ok l w fits,
            not_head,
            not_tail,
            modify-ok t.pre_ w c pre_ne at1 set_next,
            modify-ok t.next_ w1 c' next_ne at2 set_pre,
            modify-ok x w2 t ne still cleared,
          )
          (
            w3,
            refl,
            (
              (Distinct-remove x (a ∷ us) (y ∷ ys) d, all),
              (t, stored, write_same w2.store x _),
              ((λ k o. refl), (λ b o. ground (arith, has-append b us (x ∷ y ∷ ys))), moved, refl),
            ),
          )

  -- `DeleteTimerList` on a timer of a slot that holds other timers too ends normally. It takes
  -- exactly this timer out of the slot's list, the others keep their order and are linked as the
  -- list that is left, and the timer's own links are cleared. Of the timers only links change, and
  -- of the wheel at most this slot; `tick_`, the calls made, the readings of the clock and what is
  -- allocated stay as they are.
  pub delete_timer_list-Removed :
      (xs ys : List Ptr)
      → 0 < length (xs ++ ys)
      → IsList l (xs ++ (x ∷ ys)) w
      → Returns (delete_timer_list x w) (Removed xs ys)
  delete_timer_list-Removed [] [] h s = absurd (omega arith)
  delete_timer_list-Removed [] (y ∷ ys) h s = delete-first y ys s
  delete_timer_list-Removed (a ∷ us) [] h s = delete-last a us s
  delete_timer_list-Removed (a ∷ us) (y ∷ ys) h s = delete-middle a us y ys s

  pub delete-only :
      IsList l (x ∷ []) w
      → Returns (delete_timer_list x w) (λ w'.
        (w'.slots l ≡ record { head_ = null; tail_ = x })
        × ((t : Timer) × (w.store x ≡ some t) × (w'.store x ≡ some (cleared t)))
        × SameOutside l (x ∷ []) w w')
  unfolding delete_timer_list unlink_timer modify_some write put_list
  delete-only (d, (e, ne, (t, stored, before, owner, (e', is_tail)))) =
      let list : TimerList = record (w.slots l) { head_ = t.next_ } in
      let w1 : World = put_list l list w in
      let w3 : World = record w1 { store = write w1.store x (some (cleared t)) } in
      let is_head : ((w.slots l).head_ == x) ≡ true = ground arith in
      let moved : Relinked w.store w3.store =
        Relinked-write w.store w.store x t (cleared t) (Relinked-refl w.store) stored refl in
      let no_more : (t.next_ == null) ≡ true = ground arith in
      rw
        (
          load-ok x w t ne stored,
          owner,
          read_list-ok l w fits,
          is_head,
          no_more,
          modify-ok x w1 t ne stored cleared,
        )
        (
          w3,
          refl,
          (
            ground (arith, put_list_same l list w),
            (t, stored, write_same w1.store x _),
            ((λ k o. put_list_other l list w k o), (λ b o. ground arith), moved, refl),
          ),
        )
