-- ===== src/TimeWheel/Due.antt =====
-- Which slot a timer gets, and when the wheels reach that slot.
use my_little_tool.Prelude.{
  ℕ, ◌+◌, ◌-◌, ◌/◌, ◌%◌, ◌^◌, ◌≤◌, ◌<◌, ◌≡◌, ◌≢◌, inl, inr, sym, ap, ◌∙◌, arith, lt_or_ge,
}
use my_little_tool.TimeWheel.{tv1_, tv2_, tv3_, tv4_, tv5_, place}

-- At tick `now` slot `l` is one where a timer that expires at `time` waits: on the first wheel
-- for less than a turn, on another one until the carry into its slot, at most a turn from now.
pub data Waits (now time l : ℕ) : Type 0 where
  on_tv1 : l ≡ tv1_ + time % 256 → now < time → time < now + 256 → Waits now time l
  on_tv2 :
      l ≡ tv2_ + (time / 256) % 64
      → now / 256 < time / 256
      → time / 256 ≤ now / 256 + 64
      → Waits now time l
  on_tv3 :
      l ≡ tv3_ + (time / 16384) % 64
      → now / 16384 < time / 16384
      → time / 16384 ≤ now / 16384 + 64
      → Waits now time l
  on_tv4 :
      l ≡ tv4_ + (time / 1048576) % 64
      → now / 1048576 < time / 1048576
      → time / 1048576 ≤ now / 1048576 + 64
      → Waits now time l

-- The slot of a timer is always one of the first four wheels.
pub place-lt : (idx time : ℕ) → place idx time < tv5_
unfolding place
place-lt idx time = ground arith

module _ (now time : ℕ) (after : now < time) where
  pub place-low : time < now + 2 ^ 8 → place (time - now) time < tv2_
  unfolding place
  place-low h = ground arith

  pub place-mid : time < now + 2 ^ 14 → place (time - now) time < tv3_
  unfolding place
  place-mid h = ground arith

  pub place-high : time < now + 2 ^ 20 → place (time - now) time < tv4_
  unfolding place
  place-high h = ground arith

  pub place-Waits : time < now + 2 ^ 26 → Waits now time (place (time - now) time)
  unfolding place
  place-Waits h = elim (lt_or_ge (time - now) (2 ^ 8)) [
    | inl a ↦ on_tv1 (ground arith) after (omega arith)
    | inr a ↦ elim (lt_or_ge (time - now) (2 ^ 14)) [
      | inl b ↦ on_tv2 (ground arith) (omega arith) (omega arith)
      | inr b ↦ elim (lt_or_ge (time - now) (2 ^ 20)) [
        | inl c ↦ on_tv3 (ground arith) (omega arith) (omega arith)
        | inr c ↦ on_tv4 (ground arith) (omega arith) (omega arith)
      ]
    ]
  ]

pub Waits-not_now : {now time l : ℕ} → Waits now time l → l ≢ tv1_ + now % 256
Waits-not_now (on_tv1 e a b) = ground arith
Waits-not_now (on_tv2 e a b) = ground arith
Waits-not_now (on_tv3 e a b) = ground arith
Waits-not_now (on_tv4 e a b) = ground arith

pub Waits-lt : {now time l : ℕ} → Waits now time l → l < tv5_
Waits-lt (on_tv1 e a b) = omega arith
Waits-lt (on_tv2 e a b) = omega arith
Waits-lt (on_tv3 e a b) = omega arith
Waits-lt (on_tv4 e a b) = omega arith

-- The carries of the next tick.
abbrev pub Carry2 : ℕ → Type 0
Carry2 u = u % 256 ≡ 0

abbrev pub Carry3 : ℕ → Type 0
Carry3 u = Carry2 u × ((u / 256) % 64 ≡ 0)

abbrev pub Carry4 : ℕ → Type 0
Carry4 u = Carry3 u × ((u / 16384) % 64 ≡ 0)

-- No wheel reaches slot `l` at tick `u`.
abbrev pub Hidden : ℕ → ℕ → Type 0
Hidden u l =
    (Carry2 u → tv2_ + (u / 256) % 64 ≢ l)
    × (Carry3 u → tv3_ + (u / 16384) % 64 ≢ l)
    × (Carry4 u → tv4_ + (u / 1048576) % 64 ≢ l)

-- What happens at tick `u` to a timer in slot `l`.
pub data Round (u time l : ℕ) : Type 0 where
  stays : Hidden u l → Waits u time l → Round u time l
  due : Hidden u l → u ≡ time → l ≡ tv1_ + u % 256 → Round u time l
  from_tv2 : Carry2 u → l ≡ tv2_ + (u / 256) % 64 → u ≤ time → time < u + 2 ^ 8 → Round u time l
  from_tv3 : Carry3 u → l ≡ tv3_ + (u / 16384) % 64 → u ≤ time → time < u + 2 ^ 14 → Round u time l
  from_tv4 :
      Carry4 u → l ≡ tv4_ + (u / 1048576) % 64 → u ≤ time → time < u + 2 ^ 20 → Round u time l

Waits-Round1 :
    (now time l : ℕ)
    → l ≡ tv1_ + time % 256
    → now < time
    → time < now + 256
    → Round (now + 1) time l
Waits-Round1 now time l e a b = elim (lt_or_ge (now + 1) time) [
  | inl c ↦ stays (ground arith, ground arith, ground arith) (on_tv1 e c (omega arith))
  | inr c ↦ due (ground arith, ground arith, ground arith) (omega arith) (ground arith)
]

Waits-Round2 :
    (now time l : ℕ)
    → l ≡ tv2_ + (time / 256) % 64
    → now / 256 < time / 256
    → time / 256 ≤ now / 256 + 64
    → Round (now + 1) time l
Waits-Round2 now time l e a b = elim (lt_or_ge 0 ((now + 1) % 256)) [
  | inl c ↦ stays (ground arith, ground arith, ground arith) (on_tv2 e (omega arith) (omega arith))
  | inr c ↦ elim (lt_or_ge ((now + 1) / 256) (time / 256)) [
    | inl d ↦
        let apart : ((now + 1) / 256) % 64 ≢ (time / 256) % 64 = omega arith in
        stays (ground arith, ground arith, ground arith) (on_tv2 e d (omega arith))
    | inr d ↦
        let same : (now + 1) / 256 ≡ time / 256 = omega arith in
        from_tv2 (omega arith) (e ∙ ap (λ k. tv2_ + k % 64) (sym same)) (omega arith) (omega arith)
  ]
]

Waits-Round3 :
    (now time l : ℕ)
    → l ≡ tv3_ + (time / 16384) % 64
    → now / 16384 < time / 16384
    → time / 16384 ≤ now / 16384 + 64
    → Round (now + 1) time l
Waits-Round3 now time l e a b = elim (lt_or_ge 0 ((now + 1) % 16384)) [
  | inl c ↦
      let none : ¬ (Carry3 (now + 1)) = ground arith in
      stays (ground arith, ground (arith, none), ground arith)
        (on_tv3 e (omega arith) (omega arith))
  | inr c ↦ elim (lt_or_ge ((now + 1) / 16384) (time / 16384)) [
    | inl d ↦
        let apart : ((now + 1) / 16384) % 64 ≢ (time / 16384) % 64 = omega arith in
        stays (ground arith, ground arith, ground arith) (on_tv3 e d (omega arith))
    | inr d ↦
        let same : (now + 1) / 16384 ≡ time / 16384 = omega arith in
        from_tv3 (omega arith, omega arith) (e ∙ ap (λ k. tv3_ + k % 64) (sym same)) (omega arith)
          (omega arith)
  ]
]

Waits-Round4 :
    (now time l : ℕ)
    → l ≡ tv4_ + (time / 1048576) % 64
    → now / 1048576 < time / 1048576
    → time / 1048576 ≤ now / 1048576 + 64
    → Round (now + 1) time l
Waits-Round4 now time l e a b = elim (lt_or_ge 0 ((now + 1) % 1048576)) [
  | inl c ↦
      let none : ¬ (Carry4 (now + 1)) = ground arith in
      stays (ground arith, ground arith, ground (arith, none))
        (on_tv4 e (omega arith) (omega arith))
  | inr c ↦ elim (lt_or_ge ((now + 1) / 1048576) (time / 1048576)) [
    | inl d ↦
        let apart : ((now + 1) / 1048576) % 64 ≢ (time / 1048576) % 64 = omega arith in
        stays (ground arith, ground arith, ground arith) (on_tv4 e d (omega arith))
    | inr d ↦
        let same : (now + 1) / 1048576 ≡ time / 1048576 = omega arith in
        from_tv4 ((omega arith, omega arith), omega arith) (e ∙ ap (λ k. tv4_ + k % 64) (sym same))
          (omega arith) (omega arith)
  ]
]

-- A timer stays in its slot until its expiry or a carry, and a carry takes it out of its wheel.
pub Waits-Round : {now time l : ℕ} → Waits now time l → Round (now + 1) time l
Waits-Round {now} {time} {l} (on_tv1 e a b) = Waits-Round1 now time l e a b
Waits-Round {now} {time} {l} (on_tv2 e a b) = Waits-Round2 now time l e a b
Waits-Round {now} {time} {l} (on_tv3 e a b) = Waits-Round3 now time l e a b
Waits-Round {now} {time} {l} (on_tv4 e a b) = Waits-Round4 now time l e a b

pub Waits-after : {now time l : ℕ} → Waits now time l → now < time
Waits-after (on_tv1 e a b) = a
Waits-after (on_tv2 e a b) = omega arith
Waits-after (on_tv3 e a b) = omega arith
Waits-after (on_tv4 e a b) = omega arith
