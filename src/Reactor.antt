-- ===== src/Reactor.antt =====
-- co/Reactor.c: the table of sockets and the switch to non-blocking mode.
-- `fcntl` is two parameters: what `F_GETFL` gives for a descriptor, and `F_SETFL` for a descriptor
-- and flags. The events and the time wheel that the controler also holds are left out.
pub mod Blocking
mod Tests
use Prim.Native.Nat.{bit_or}
use my_little_tool.Prelude.{
  ℕ, ◌+◌, ◌-◌, ◌*◌, ◌/◌, ◌%◌, Bool, true, false, List, Option, none, some, ℤ, pos, negsuc, eq_ℤ,
  ltb, if◌then◌else◌, set, replicate, Run, ok, ◌>>=◌, fetch, assign,
}
use my_little_tool.TimeWheel.{TimeVal}

abbrev pub max_socket_size : ℕ
max_socket_size = 1024 * 10

abbrev pub o_nonblock : ℕ
o_nonblock = 2048

pub record SocketInfo : Type 0 where
  pub socket_fd_ : ℤ
  pub read_timeout_ : TimeVal
  pub write_timeout_ : TimeVal
  pub flag_ : ℤ

pub record EpollControler : Type 0 where
  pub epoll_fd_ : ℤ
  pub sockets_ : List (Option SocketInfo)

-- `epoll_fd` is what `epoll_create` gives.
unfoldable pub epoll_controler_init : ℤ → EpollControler
epoll_controler_init epoll_fd = record {
  epoll_fd_ = epoll_fd;
  sockets_ = replicate max_socket_size none;
}

-- `NULL` is `none`.
unfoldable pub get_socket : EpollControler → ℤ → Run (Option SocketInfo)
get_socket ep (negsuc n) = ok none
get_socket ep (pos fd) = if ltb max_socket_size fd then ok none else fetch ep.sockets_ fd

-- `flag|O_NONBLOCK` on an int in two's complement
unfoldable pub with_nonblock : ℤ → ℤ
with_nonblock (pos n) = pos (bit_or n o_nonblock)
with_nonblock (negsuc n) = negsuc (n - n / o_nonblock % 2 * o_nonblock)

unfoldable pub set_flag : EpollControler → ℕ → SocketInfo → ℤ → Run EpollControler
set_flag ep fd sf flag = do
  sockets ← assign ep.sockets_ fd (some (record sf { flag_ = flag }))
  ok (record ep { sockets_ = sockets })

-- Behind the test that there is a socket
unfoldable pub set_flags :
    (ℤ → ℤ) → (ℤ → ℤ → ℤ) → EpollControler → ℕ → SocketInfo → Run (ℤ × EpollControler)
set_flags getfl setfl ep fd sf = do
  let flag = getfl (pos fd)
  ep1 ← set_flag ep fd sf flag
  if eq_ℤ flag (negsuc 0) then ok (negsuc 0, ep1) else (do
    ep2 ← set_flag ep1 fd (record sf { flag_ = flag }) (with_nonblock flag)
    if eq_ℤ (setfl (pos fd) (with_nonblock flag)) (pos 1)
        then ok (negsuc 0, ep2)
        else ok (pos 0, ep2))

unfoldable pub set_socket_block :
    (ℤ → ℤ) → (ℤ → ℤ → ℤ) → EpollControler → ℤ → Run (ℤ × EpollControler)
set_socket_block getfl setfl ep (negsuc n) = ok (negsuc 0, ep)
set_socket_block getfl setfl ep (pos fd) = if ltb max_socket_size fd then ok (negsuc 0, ep) else (do
  found ← get_socket ep (pos fd)
  elim found [ none ↦ ok (negsuc 0, ep) | some sf ↦ set_flags getfl setfl ep fd sf ])
