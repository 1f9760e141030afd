-- ===== src/Interceptor/Start.antt =====
-- The start of a process with the interceptor: interceptor_init of interceptor.c, new_channel and
-- channel_send of req-resp-channel.c, ask_muquientd_fd_range of fd-assigner.c and
-- fd2channel_module_init of fd2channel.c.
pub mod Answered
use mu_quinet.Prelude.{ℕ, List, Bool, Option, none, some, ◌==◌, leb, if◌then◌else◌, take}
use mu_quinet.Mux.Rpc.{Calling, Request, Response, Returning}
use mu_quinet.Mux.Channels.Messages.{message_max_size}
use mu_quinet.Interceptor.{Interceptor, GlibcFunc, fd_range}
use mu_quinet.Interceptor.Recv.{ReadResult, Received, channel_recv}

-- The encoding of a request and the decoding of an answer, by protobuf-c.
pub record Client : Type 0 where
  pub packed_size : Request → ℕ
  pub pack : Request → List ℕ
  pub unpack : List ℕ → Response

-- What the C library and the kernel answer during the start.
pub record System : Type 0 where
  -- `dlsym`, by the name that is asked for.
  pub dlsym : GlibcFunc → Option ℕ
  pub sockfd : Option ℕ
  pub connected : Bool
  -- What `write` returns, `none` for -1.
  pub written : Option ℕ
  pub reads : List ReadResult
  -- What the memory that `malloc` gives holds.
  pub memory : List ℕ

-- `glibc_funcs`, `g_proc_channel` and the descriptors, and the bytes that went to muQuinetd.
pub record Started : Type 0 where
  pub glibc_funcs : GlibcFunc → Option ℕ
  pub proc_channel : ℕ
  pub interceptor : Interceptor
  pub sent : List ℕ

-- `crashed` is a call of a null function pointer or a read through a null pointer, `blocked` a read
-- that does not return.
pub data Start : Type 0 where
  crashed exited aborted blocked : Start
  started : Started → Start

pub data Connection : Type 0 where
  crashed exited : Connection
  opened : (fd : ℕ) → Connection

-- `new_channel`
unfoldable pub new_channel :
    (GlibcFunc → Option ℕ) → (sockfd : Option ℕ) → (connected : Bool) → Connection
new_channel glibc_funcs sockfd connected = elim (glibc_funcs GlibcFunc.socket) [
  | none ↦ Connection.crashed
  | some _ ↦ elim sockfd [
    | none ↦ Connection.exited
    | some fd ↦ elim (glibc_funcs GlibcFunc.connect) [
      | none ↦ Connection.crashed
      | some _ ↦ if connected then Connection.opened fd else Connection.exited
    ]
  ]
]

pub data Sent : Type 0 where
  crashed aborted : Sent
  sent : List ℕ → Sent

-- `channel_send`, as far as the bytes that the system takes.
unfoldable pub channel_send :
    Client → (GlibcFunc → Option ℕ) → (written : Option ℕ) → Request → Sent
channel_send client glibc_funcs written req =
    let bufsize = client.packed_size req in
    if leb bufsize message_max_size
    then elim (glibc_funcs GlibcFunc.write) [
      | none ↦ Sent.crashed
      | some _ ↦ elim written [
        | none ↦ Sent.aborted
        | some n ↦ if n == bufsize then Sent.sent (take bufsize (client.pack req)) else Sent.aborted
      ]
    ]
    else Sent.aborted

abbrev pub atstart : ℕ → List ℕ → Request
atstart pid progname = record { pid = pid; calling = Calling.atstart_action progname }

-- The answer's `atstartaction`, which is null in an answer of another kind.
unfoldable pub take_range : (Interceptor → Started) → Returning → List ℕ → Start
unfolding fd_range
take_range make (Returning.atstart_ret startfd count) memory =
    elim (fd_range startfd count memory) [ none ↦ Start.aborted | some i ↦ Start.started (make i) ]
take_range make _ memory = Start.crashed

-- The end of `ask_muquientd_fd_range`, once the request is sent.
unfoldable pub await_range : (Interceptor → Started) → (GlibcFunc → Option ℕ) → System → Start
unfolding channel_recv take_range
await_range make glibc_funcs system = elim (glibc_funcs GlibcFunc.read) [
  | none ↦ Start.crashed
  | some _ ↦ elim (channel_recv system.reads) [
    | Received.blocked ↦ Start.blocked
    | Received.aborted ↦ Start.aborted
    | Received.got resp rest ↦ take_range make resp.returning system.memory
  ]
]

-- `ask_muquientd_fd_range`, on the channel `ch`.
unfoldable pub ask_fd_range : Client → System → ℕ → List ℕ → (GlibcFunc → Option ℕ) → ℕ → Start
unfolding channel_send await_range
ask_fd_range client system pid progname glibc_funcs ch =
    elim (channel_send client glibc_funcs system.written (atstart pid progname)) [
      | Sent.crashed ↦ Start.crashed
      | Sent.aborted ↦ Start.aborted
      | Sent.sent bytes ↦
          await_range
            (λ i. record {
              glibc_funcs = glibc_funcs;
              proc_channel = ch;
              interceptor = i;
              sent = bytes;
            })
            glibc_funcs system
    ]

-- `fd2channel_module_init`
unfoldable pub module_init : Client → System → ℕ → List ℕ → (GlibcFunc → Option ℕ) → Start
unfolding new_channel ask_fd_range
module_init client system pid progname glibc_funcs =
    elim (new_channel glibc_funcs system.sockfd system.connected) [
      | Connection.crashed ↦ Start.crashed
      | Connection.exited ↦ Start.exited
      | Connection.opened fd ↦ ask_fd_range client system pid progname glibc_funcs fd
    ]

-- The members of `glibc_funcs`, by what `dlsym` gives.
unfoldable pub find_funcs : (GlibcFunc → Option ℕ) → GlibcFunc → Option ℕ
find_funcs dlsym GlibcFunc.socket = dlsym GlibcFunc.socket
find_funcs dlsym GlibcFunc.connect = dlsym GlibcFunc.connect
find_funcs dlsym GlibcFunc.close = dlsym GlibcFunc.close
find_funcs dlsym GlibcFunc.read = dlsym GlibcFunc.read
find_funcs dlsym GlibcFunc.write = dlsym GlibcFunc.write
find_funcs dlsym GlibcFunc.send = dlsym GlibcFunc.send
find_funcs dlsym GlibcFunc.sendto = dlsym GlibcFunc.sendto
find_funcs dlsym GlibcFunc.recv = dlsym GlibcFunc.recv
find_funcs dlsym GlibcFunc.recvfrom = dlsym GlibcFunc.recvfrom
find_funcs dlsym GlibcFunc.poll = dlsym GlibcFunc.poll
find_funcs dlsym GlibcFunc.select = dlsym GlibcFunc.select
find_funcs dlsym GlibcFunc.getpeername = dlsym GlibcFunc.getpeername
find_funcs dlsym GlibcFunc.getsockname = dlsym GlibcFunc.getsockname
find_funcs dlsym GlibcFunc.getsockopt = dlsym GlibcFunc.getsockopt
find_funcs dlsym GlibcFunc.setsockopt = dlsym GlibcFunc.setsockopt
find_funcs dlsym GlibcFunc.fcntl = dlsym GlibcFunc.fcntl

-- `interceptor_init`: all members are looked up first.
unfoldable pub interceptor_init : Client → System → ℕ → List ℕ → Start
unfolding module_init find_funcs
interceptor_init client system pid progname =
    module_init client system pid progname (find_funcs system.dlsym)
