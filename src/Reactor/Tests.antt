-- ===== src/Reactor/Tests.antt =====
-- A socket in the table, and the theorems about it.
use my_little_tool.Prelude.{
  Option, ◌≡◌, refl, arith, none, some, inr, pos, negsuc, set, length-replicate, length-set, cell,
  ok, ◌∙◌,
}
use my_little_tool.TimeWheel.{TimeVal}
use my_little_tool.Reactor.{
  max_socket_size, SocketInfo, EpollControler, epoll_controler_init, with_nonblock,
  set_socket_block,
}
use my_little_tool.Reactor.Blocking.{Registered, set_socket_block_reports}

abbrev no_time : TimeVal
no_time = record { tv_sec = 0; tv_usec = 0 }

abbrev socket : SocketInfo
socket = record {
  socket_fd_ = pos 3;
  read_timeout_ = no_time;
  write_timeout_ = no_time;
  flag_ = pos 0;
}

abbrev one_socket : EpollControler
one_socket = record {
  epoll_fd_ = pos 7;
  sockets_ = set (epoll_controler_init (pos 7)).sockets_ 3 (some socket);
}

one_socket-Registered : Registered one_socket 3 socket
unfolding epoll_controler_init cell
one_socket-Registered = record {
  size =
      length-set (epoll_controler_init (pos 7)).sockets_ 3 (some socket)
      ∙ length-replicate {A = Option SocketInfo} max_socket_size none;
  inside = omega arith;
  entry = refl;
}

-- `F_SETFL` fails, and success is reported.
set_socket_block_reports_example :
    set_socket_block (λ fd. pos 2) (λ fd flag. negsuc 0) one_socket (pos 3)
    ≡ ok (
      pos 0,
      record one_socket {
        sockets_ =
            set one_socket.sockets_ 3 (some (record socket { flag_ = with_nonblock (pos 2) }));
      },
    )
set_socket_block_reports_example =
    set_socket_block_reports (λ fd. pos 2) (λ fd flag. negsuc 0) one_socket 3 socket
      one_socket-Registered (λ e. absurd (ground (arith, e))) (inr refl)
