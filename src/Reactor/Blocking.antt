-- ===== src/Reactor/Blocking.antt =====
-- When a socket is reported to be in non-blocking mode.
use my_little_tool.Prelude.{
  zero, suc, [], ◌∷◌, ◌⊎◌, inl, inr, Bool-cases, ◌≢◌, ap, ℕ, ◌≤◌, ◌<◌, ◌≡◌, refl, arith, false,
  List, none, some, ℤ, pos, negsuc, eq_ℤ, eq_ℤ_iff, ltb, set, length, length-set, cell, ok, fault,
  out_of_bounds, fetch, fetch-ok, assign-ok,
}
use my_little_tool.Reactor.{
  max_socket_size, SocketInfo, EpollControler, get_socket, with_nonblock, set_flag, set_flags,
  set_socket_block,
}

-- The table has its full size, and the socket of a descriptor stands in it.
pub record Registered (ep : EpollControler) (fd : ℕ) (sf : SocketInfo) : Type 0 where
  pub size : length ep.sockets_ ≡ max_socket_size
  pub inside : fd < max_socket_size
  pub entry : cell none ep.sockets_ fd ≡ some sf

set_flag-ok :
    (ep : EpollControler) (fd : ℕ) (sf : SocketInfo) (flag : ℤ)
    → fd < length ep.sockets_
    → set_flag ep fd sf flag
      ≡ ok (record ep { sockets_ = set ep.sockets_ fd (some (record sf { flag_ = flag })) })
unfolding set_flag
set_flag-ok ep fd sf flag l =
    rw (assign-ok ep.sockets_ fd (some (record sf { flag_ = flag })) l) refl

get_socket-ok :
    (ep : EpollControler) (fd : ℕ) (sf : SocketInfo)
    → Registered ep fd sf
    → get_socket ep (pos fd) ≡ ok (some sf)
unfolding get_socket
get_socket-ok ep fd sf h =
    let low : ltb max_socket_size fd ≡ false = let m = h.inside in ground arith in
    rw (low, fetch-ok none ep.sockets_ fd (omega (arith, h.size, h.inside)), h.entry) refl

fetch_outside :
    {A : Type 0} (xs : List A) (i : ℕ) → length xs ≤ i → fetch xs i ≡ fault out_of_bounds
unfolding fetch
fetch_outside [] i l = refl
fetch_outside (x ∷ xs) zero l = absurd (omega arith)
fetch_outside (x ∷ xs) (suc i) l = fetch_outside xs i (omega arith)

-- In a table of full size, the descriptor just behind the last passes the test of `GetSocket`, and
-- the entry behind the array is read.
get_socket_end :
    (ep : EpollControler)
    → length ep.sockets_ ≡ max_socket_size
    → get_socket ep (pos max_socket_size) ≡ fault out_of_bounds
unfolding get_socket
get_socket_end ep size = fetch_outside ep.sockets_ max_socket_size (omega (arith, size))

set_twice : {A : Type 0} (xs : List A) (i : ℕ) (x y : A) → set (set xs i x) i y ≡ set xs i y
set_twice [] i x y = refl
set_twice (z ∷ xs) zero x y = refl
set_twice (z ∷ xs) (suc i) x y = ap (◌∷◌ z) (set_twice xs i x y)

-- For a descriptor whose socket is in a table of full size, if `F_GETFL` succeeds, and if `F_SETFL`
-- gives 0 for success or -1 for failure: `SetSocketBlock` reports success with 0 in both cases, and
-- the flags with O_NONBLOCK are stored in the socket.
pub set_socket_block_reports :
    (getfl : ℤ → ℤ) (setfl : ℤ → ℤ → ℤ) (ep : EpollControler) (fd : ℕ) (sf : SocketInfo)
    → Registered ep fd sf
    → getfl (pos fd) ≢ negsuc 0
    → (setfl (pos fd) (with_nonblock (getfl (pos fd))) ≡ pos 0)
      ⊎ (setfl (pos fd) (with_nonblock (getfl (pos fd))) ≡ negsuc 0)
    → set_socket_block getfl setfl ep (pos fd)
      ≡ ok (
        pos 0,
        record ep {
          sockets_ =
              set ep.sockets_ fd (some (record sf { flag_ = with_nonblock (getfl (pos fd)) }));
        },
      )
unfolding set_socket_block set_flags eq_ℤ
set_socket_block_reports getfl setfl ep fd sf h got gave =
    let flag = getfl (pos fd) in
    let low : ltb max_socket_size fd ≡ false = let m = h.inside in ground arith in
    let fits : fd < length ep.sockets_ = omega (arith, h.size, h.inside) in
    let ep1 = record ep { sockets_ = set ep.sockets_ fd (some (record sf { flag_ = flag })) } in
    let fits1 : fd < length ep1.sockets_ =
      omega (arith, length-set ep.sockets_ fd (some (record sf { flag_ = flag })), fits) in
    let fine : eq_ℤ flag (negsuc 0) ≡ false = elim (Bool-cases (eq_ℤ flag (negsuc 0))) [
      | inl e ↦ absurd (got ((eq_ℤ_iff _ _).0 e))
      | inr n ↦ n
    ] in
    let not_one : eq_ℤ (setfl (pos fd) (with_nonblock flag)) (pos 1) ≡ false = elim gave [
      | inl e ↦ rw e refl
      | inr e ↦ rw e refl
    ] in
    rw
      (
        low,
        get_socket-ok ep fd sf h,
        set_flag-ok ep fd sf flag fits,
        fine,
        set_flag-ok ep1 fd (record sf { flag_ = flag }) (with_nonblock flag) fits1,
        not_one,
        set_twice ep.sockets_ fd (some (record sf { flag_ = flag }))
            (some (record sf { flag_ = with_nonblock flag })),
      )
      refl
