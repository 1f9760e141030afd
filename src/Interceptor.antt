-- ===== src/Interceptor.antt =====
-- interceptor/: the library that stands between a process and the C library, sends the calls on its
-- own descriptors to muQuinetd, and passes the others on. fd-assigner.c and fd2channel.c here, the
-- rest in child modules.
pub mod Recv
pub mod Calls
pub mod Fds
pub mod Replies
pub mod Start
use mu_quinet.Prelude.{
  ℕ, suc, ◌+◌, ◌-◌, List, Bool, ◌&&◌, Option, none, some, ◌==◌, ltb, leb, if◌then◌else◌, get_elem?,
  set, take,
}

-- The members of `struct glibc_socket_funcs`, each the C library's function of the same name.
pub data GlibcFunc : Type 0 where
  socket connect close read write send sendto recv recvfrom : GlibcFunc
  poll select getpeername getsockname getsockopt setsockopt fcntl : GlibcFunc

-- `g_startfd`, `g_fd_count`, `last_fd_assigned` and `g_fd2channelVector`.
pub record Interceptor : Type 0 where
  pub startfd : ℕ
  pub count : ℕ
  pub last_fd_assigned : ℕ
  pub vector : List ℕ

-- What `ask_muquientd_fd_range` makes of the answer, with the memory that `reserve_fd_range` gets;
-- `none` is a failed assertion.
unfoldable pub fd_range : ℕ → ℕ → List ℕ → Option Interceptor
fd_range startfd count memory =
    if startfd == 0
    then none
    else if count == 0
    then none
    else some (record {
      startfd = startfd;
      count = count;
      last_fd_assigned = startfd - 1;
      vector = take count memory;
    })

unfoldable pub is_assigned_by_muquinet : Interceptor → ℕ → Bool
is_assigned_by_muquinet i fd = leb i.startfd fd && ltb fd (i.startfd + i.count)

unfoldable pub next_avail_fd : Interceptor → ℕ
next_avail_fd i = i.last_fd_assigned + 1

-- `none` is a read out of the vector.
unfoldable pub fd2channel : Interceptor → ℕ → Option ℕ
fd2channel i fd = if ltb fd i.startfd then none else get_elem? i.vector (fd - i.startfd)

unfoldable pub set_fd2channel : Interceptor → ℕ → ℕ → Interceptor
set_fd2channel i fd ch = record i { vector = set i.vector (fd - i.startfd) ch }

unfoldable pub unset_fd2channel : Interceptor → ℕ → Interceptor
unset_fd2channel i fd = record i { vector = set i.vector (fd - i.startfd) 0 }
