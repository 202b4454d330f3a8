-- ===== src/TimeWheel/Links.antt =====
-- The doubly linked list of a slot: segments of linked timers, and how writes change them.
pub mod Append
pub mod Delete
pub mod Dangling
use my_little_tool.Prelude.{
  ℕ, ◌≡◌, ◌≢◌, ◌⊎◌, inl, inr, refl, sym, ap, ◌∙◌, subst, arith, Option, some, none, List, [], ◌∷◌,
  ◌++◌, Bool, true, false, Bool-cases, ◌||◌, ◌==◌, if◌then◌else◌,
}
use my_little_tool.TimeWheel.{Ptr, null, TimerOptions, Timer, World, write}

abbrev pub has : Ptr → List Ptr → Bool
has a [] = false
has a (x ∷ xs) = (a == x) || has a xs

-- No timer stands twice in the list.
abbrev pub Distinct : List Ptr → Type 0
Distinct [] = Unit
Distinct (x ∷ xs) = (has x xs ≡ false) × Distinct xs

-- From `p` the timers `xs` of slot `l` are linked both ways: `pre` stands before the first of
-- them, `last` is the last one, or `pre` if there is none, and `stop` comes after it.
abbrev pub Seg : (Ptr → Option Timer) → ℕ → Ptr → Ptr → List Ptr → Ptr → Ptr → Type 0
Seg h l pre p [] last stop = (p ≡ stop) × (last ≡ pre)
Seg h l pre p (x ∷ xs) last stop =
    (p ≡ x)
    × (x ≢ null)
    × ((t : Timer) × (h x ≡ some t)
        × (t.pre_ ≡ pre)
        × (t.linked_list_ ≡ some l)
        × Seg h l x t.next_ xs last stop)

-- Slot `l` holds the timers `xs`, in this order.
abbrev pub IsList : ℕ → List Ptr → World → Type 0
IsList l xs w = Distinct xs × Seg w.store l null (w.slots l).head_ xs (w.slots l).tail_ null

pub has-append : (a : Ptr) (xs ys : List Ptr) → has a (xs ++ ys) ≡ (has a xs || has a ys)
has-append a [] ys = refl
has-append a (x ∷ xs) ys = ground (arith, has-append a xs ys)

module _ (l : ℕ) where
  pub frame :
      (h g : Ptr → Option Timer) (pre p : Ptr) (xs : List Ptr) (last stop : Ptr)
      → ((a : Ptr) → has a xs ≡ true → g a ≡ h a)
      → Seg h l pre p xs last stop
      → Seg g l pre p xs last stop
  frame h g pre p [] last stop same s = s
  frame h g pre p (x ∷ xs) last stop same (e, ne, (t, stored, before, owner, rest)) = (
    e,
    ne,
    (
      t,
      same x (ground arith) ∙ stored,
      before,
      owner,
      frame h g x t.next_ xs last stop (λ a i. same a (ground arith)) rest,
    ),
  )

  pub join :
      (h : Ptr → Option Timer) (pre p : Ptr) (xs ys : List Ptr) (m n last stop : Ptr)
      → Seg h l pre p xs m n
      → Seg h l m n ys last stop
      → Seg h l pre p (xs ++ ys) last stop
  join h pre p [] ys m n last stop (e, f) s =
      subst (λ a. Seg h l a p ys last stop) f (subst (λ a. Seg h l m a ys last stop) (sym e) s)
  join h pre p (x ∷ xs) ys m n last stop (e, ne, (t, stored, before, owner, rest)) s =
      (e, ne, (t, stored, before, owner, join h x t.next_ xs ys m n last stop rest s))

  pub split :
      (h : Ptr → Option Timer) (pre p : Ptr) (xs ys : List Ptr) (last stop : Ptr)
      → Seg h l pre p (xs ++ ys) last stop
      → (m : Ptr) × (n : Ptr) × Seg h l pre p xs m n × Seg h l m n ys last stop
  split h pre p [] ys last stop s = (pre, p, (refl, refl), s)
  split h pre p (x ∷ xs) ys last stop (e, ne, (t, stored, before, owner, rest)) =
      let (m, n, a, b) = split h x t.next_ xs ys last stop rest in
      (m, n, (e, ne, (t, stored, before, owner, a)), b)

  -- The last timer of a segment is one of its timers.
  pub last-has :
      (h : Ptr → Option Timer) (pre p x : Ptr) (xs : List Ptr) (last stop : Ptr)
      → Seg h l pre p (x ∷ xs) last stop
      → has last (x ∷ xs) ≡ true
  last-has h pre p x [] last stop (e, ne, (t, stored, before, owner, (f, g))) = ground arith
  last-has h pre p x (y ∷ ys) last stop (e, ne, (t, stored, before, owner, rest)) =
      ground (arith, last-has h x t.next_ y ys last stop rest)

  pub last-stored :
      (h : Ptr → Option Timer) (pre p x : Ptr) (xs : List Ptr) (last stop : Ptr)
      → Seg h l pre p (x ∷ xs) last stop
      → (last ≢ null) × ((t : Timer) × (h last ≡ some t))
  last-stored h pre p x [] last stop (e, ne, (t, stored, before, owner, (f, g))) =
      (ground arith, (t, ap h g ∙ stored))
  last-stored h pre p x (y ∷ ys) last stop (e, ne, (t, stored, before, owner, rest)) =
      last-stored h x t.next_ y ys last stop rest

  -- Writing `next_` of the last timer.
  pub relink_next :
      (h g : Ptr → Option Timer) (pre p x : Ptr) (xs : List Ptr) (last stop stop' : Ptr) (c : Timer)
      → Distinct (x ∷ xs)
      → ((a : Ptr) → a ≢ last → has a (x ∷ xs) ≡ true → g a ≡ h a)
      → h last ≡ some c
      → g last ≡ some (record c { next_ = stop' })
      → Seg h l pre p (x ∷ xs) last stop
      → Seg g l pre p (x ∷ xs) last stop'
  relink_next h g pre p x [] last stop stop' c d same old new
        (e, ne, (t, stored, before, owner, (f, k))) =
      let there : h last ≡ some t = ap h k ∙ stored in
      (
        e,
        ne,
        (record c { next_ = stop' }, ap g (sym k) ∙ new, ground arith, ground arith, (refl, k)),
      )
  relink_next h g pre p x (y ∷ ys) last stop stop' c (out, d) same old new
        (e, ne, (t, stored, before, owner, rest)) =
      let apart : x ≢ last = ground (arith, last-has h x t.next_ y ys last stop rest) in
      (
        e,
        ne,
        (
          t,
          same x apart (ground arith) ∙ stored,
          before,
          owner,
          relink_next h g x t.next_ y ys last stop stop' c d (λ a o i. same a o (ground arith)) old
              new rest,
        ),
      )

  -- Writing `pre_` of the first timer.
  pub relink_pre :
      (h g : Ptr → Option Timer) (pre p x : Ptr) (xs : List Ptr) (last stop pre' : Ptr)
      → Distinct (x ∷ xs)
      → ((a : Ptr) → a ≢ x → has a (x ∷ xs) ≡ true → g a ≡ h a)
      → ((c : Timer) → h x ≡ some c → g x ≡ some (record c { pre_ = pre' }))
      → Seg h l pre p (x ∷ xs) last stop
      → Seg g l pre' p (x ∷ xs) last stop
  relink_pre h g pre p x xs last stop pre' (out, d) same new
        (e, ne, (t, stored, before, owner, rest)) =
      (
        e,
        ne,
        (
          record t { pre_ = pre' },
          new t stored,
          refl,
          owner,
          frame h g x t.next_ xs last stop (λ a i. same a (ground arith) (ground arith)) rest,
        ),
      )

-- What a timer has beside its links.
abbrev pub payload : Timer → ℕ × ℕ × ℕ × TimerOptions
payload t = (t.handle_, t.expried_time_, t.data_, t.timer_options_)

-- Every timer is still stored, with at most other links.
abbrev pub Relinked : (Ptr → Option Timer) → (Ptr → Option Timer) → Type 0
Relinked h g =
    (a : Ptr) (t : Timer) → h a ≡ some t → (t' : Timer) × (g a ≡ some t') × (payload t' ≡ payload t)

pub Relinked-refl : (h : Ptr → Option Timer) → Relinked h h
Relinked-refl h a t e = (t, e, refl)

-- One more write of links.
pub Relinked-write :
    (h g : Ptr → Option Timer) (p : Ptr) (c c' : Timer)
    → Relinked h g
    → g p ≡ some c
    → payload c' ≡ payload c
    → Relinked h (write g p (some c'))
unfolding write
Relinked-write h g p c c' r at same a t e =
    let (t1, f, k) = r a t e in
    elim (Bool-cases (a == p)) [
      | inl here ↦
          let there : a ≡ p = ground arith in
          let one : some t1 ≡ some c = sym f ∙ (ap g there ∙ at) in
          let equal : t1 ≡ c = ap (λ o. elim o [ none ↦ t1 | some x ↦ x ]) one in
          (c', rw here refl, same ∙ (ap payload (sym equal) ∙ k))
      | inr other ↦ (t1, rw other f, k)
    ]

-- `w'` differs from `w` at most in slot `l` and in the links of the timers `xs`.
abbrev pub SameOutside : ℕ → List Ptr → World → World → Type 0
SameOutside l xs w w' =
    ((k : ℕ) → k ≢ l → w'.slots k ≡ w.slots k)
    × ((a : Ptr) → has a xs ≡ false → w'.store a ≡ w.store a)
    × Relinked w.store w'.store
    × (w' ≡ record w { store = w'.store; slots = w'.slots })
