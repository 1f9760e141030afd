-- ===== src/Interceptor/Start/Answered.antt =====
-- The start of a process, with the daemon's handling of its first request.
use mu_quinet.Prelude.{
  ℕ, ◌≤◌, ◌<◌, ◌≡◌, refl, sym, ap, ◌∙◌, ◌↔◌, List, [], ◌∷◌, true, Option, some, arith, length, take,
  take-length,
}
use mu_quinet.Tcp.{TcpPcb}
use mu_quinet.Mux.Rpc.{Request, Response, Returning, is_initialized}
use mu_quinet.Mux.Socket.{RecvQueue}
use mu_quinet.Mux.Handler
use mu_quinet.Mux.Handler.{Channel, handle_request, atstart_action, ok}
use mu_quinet.Mux.Channels.Messages.{
  Codec, CodecLaws, Read, Reading, message_max_size, on_read_ready, on_read_ready-encode,
}
use mu_quinet.Interceptor.{Interceptor, GlibcFunc, is_assigned_by_muquinet}
use mu_quinet.Interceptor.Recv.{ReadResult, Received, channel_recv}
use mu_quinet.Interceptor.Fds.{IsValid, fd_range-IsValid}
use mu_quinet.Interceptor.Start.{
  Client, System, Started, Start, Connection, Sent, atstart, new_channel, channel_send, take_range,
  await_range, ask_fd_range, module_init, find_funcs, interceptor_init,
}

-- The two sides encode and decode the same messages.
pub record Agree (client : Client) (codec : Codec) : Type 0 where
  pub laws : CodecLaws codec client.pack
  pub unpack-serialize :
      (resp : Response) → is_initialized resp ≡ true → client.unpack (codec.serialize resp) ≡ resp
  pub length-pack : (req : Request) → length (client.pack req) ≡ client.packed_size req

-- The C library has all functions, and the kernel connects the socket `fd` and takes `req` whole.
pub record Works (client : Client) (system : System) (fd : ℕ) (req : Request) : Type 0 where
  pub finds : (f : GlibcFunc) → (p : ℕ) × (system.dlsym f ≡ some p)
  pub sockfd : system.sockfd ≡ some fd
  pub connected : system.connected ≡ true
  pub written : system.written ≡ some (client.packed_size req)
  pub memory : 1024 ≤ length system.memory

find_funcs_lem : (dlsym : GlibcFunc → Option ℕ) (f : GlibcFunc) → find_funcs dlsym f ≡ dlsym f
unfolding find_funcs
find_funcs_lem dlsym GlibcFunc.socket = refl
find_funcs_lem dlsym GlibcFunc.connect = refl
find_funcs_lem dlsym GlibcFunc.close = refl
find_funcs_lem dlsym GlibcFunc.read = refl
find_funcs_lem dlsym GlibcFunc.write = refl
find_funcs_lem dlsym GlibcFunc.send = refl
find_funcs_lem dlsym GlibcFunc.sendto = refl
find_funcs_lem dlsym GlibcFunc.recv = refl
find_funcs_lem dlsym GlibcFunc.recvfrom = refl
find_funcs_lem dlsym GlibcFunc.poll = refl
find_funcs_lem dlsym GlibcFunc.select = refl
find_funcs_lem dlsym GlibcFunc.getpeername = refl
find_funcs_lem dlsym GlibcFunc.getsockname = refl
find_funcs_lem dlsym GlibcFunc.getsockopt = refl
find_funcs_lem dlsym GlibcFunc.setsockopt = refl
find_funcs_lem dlsym GlibcFunc.fcntl = refl

new_channel-opened :
    (client : Client) (system : System) (fd : ℕ) (req : Request)
    → Works client system fd req
    → new_channel (find_funcs system.dlsym) system.sockfd system.connected ≡ Connection.opened fd
unfolding new_channel find_funcs
new_channel-opened client system fd req w =
    let (p, a) = w.finds GlibcFunc.socket in
    let (q, b) = w.finds GlibcFunc.connect in ground (arith, w.sockfd, w.connected, a, b)

channel_send-sent :
    (client : Client) (codec : Codec) (system : System) (fd : ℕ) (req : Request)
    → Agree client codec
    → Works client system fd req
    → client.packed_size req ≤ message_max_size
    → channel_send client (find_funcs system.dlsym) system.written req ≡ Sent.sent (client.pack req)
unfolding channel_send find_funcs
channel_send-sent client codec system fd req g w h =
    let (p, a) = w.finds GlibcFunc.write in
    let same : take (client.packed_size req) (client.pack req) ≡ client.pack req =
      ap (λ n. take n (client.pack req)) (sym (g.length-pack req))
      ∙ take-length (client.pack req) in
    ground (arith, w.written, a, h, same)

fd_range-started :
    (make : Interceptor → Started) (memory : List ℕ)
    → 1024 ≤ length memory
    → (i : Interceptor) × (take_range make (Returning.atstart_ret 4096 1024) memory
        ≡ Start.started (make i))
      × IsValid i
      × ((fd : ℕ) → (is_assigned_by_muquinet i fd ≡ true) ↔ (4096 ≤ fd) × (fd < 5120))
unfolding take_range
fd_range-started make memory h =
    let (i, e, v, r) = fd_range-IsValid memory h in (i, ground (arith, e), v, r)

-- The answer, as the process reads it.
abbrev range_answer : Response
range_answer = ok (Returning.atstart_ret 4096 1024)

received :
    (resp : Response)
    → resp ≡ range_answer
    → channel_recv (ReadResult.message resp ∷ []) ≡ Received.got range_answer []
unfolding channel_recv
received resp e = ap (λ x. channel_recv (ReadResult.message x ∷ [])) e

-- The process's side, with an answer that it reads as the range.
started :
    (client : Client) (codec : Codec) (system : System) (fd pid : ℕ) (progname : List ℕ)
    (resp : Response) (i : Interceptor)
    → Agree client codec
    → Works client system fd (atstart pid progname)
    → client.packed_size (atstart pid progname) ≤ message_max_size
    → resp ≡ range_answer
    → let made : Started = record {
      glibc_funcs = find_funcs system.dlsym;
      proc_channel = fd;
      interceptor = i;
      sent = client.pack (atstart pid progname);
    } in
      take_range
          (λ i. record made { interceptor = i })
          (Returning.atstart_ret 4096 1024)
          system.memory
        ≡ Start.started made
      → interceptor_init client
          (record system { reads = ReadResult.message resp ∷ [] })
          pid
          progname
        ≡ Start.started made
unfolding interceptor_init module_init ask_fd_range await_range
started client codec system fd pid progname resp i g w fits same e =
    let (q, f) = w.finds GlibcFunc.read in
    ground (
      arith,
      new_channel-opened client system fd (atstart pid progname) w,
      channel_send-sent client codec system fd (atstart pid progname) g w fits,
      find_funcs_lem system.dlsym GlibcFunc.read,
      f,
      received resp same,
      e,
    )

module _ {Q : Type 0} (ops : RecvQueue Q) (garbage : TcpPcb) (codec : Codec) where
  -- The daemon answers the first request of a process, and the process is set up by the answer.
  abbrev pub Registers : Client → System → ℕ → ℕ → List ℕ → Handler.Stack → Channel Q → Type 0
  Registers client system fd pid progname s c =
      (c' : Channel Q) × (out : List ℕ) × (p : Started) × (on_read_ready ops garbage codec s c
          (Read.got (client.pack (atstart pid progname)))
        ≡ Reading.writes s c' out)
      × (c'.peer ≡ progname)
      × (c'.peer_pid ≡ pid)
      × (interceptor_init client
            (record system { reads = ReadResult.message (client.unpack out) ∷ [] }) pid progname
          ≡ Start.started p)
      × (p.sent ≡ client.pack (atstart pid progname))
      × (p.proc_channel ≡ fd)
      × ((f : GlibcFunc) → p.glibc_funcs f ≡ system.dlsym f)
      × IsValid p.interceptor
      × ((x : ℕ) → (is_assigned_by_muquinet p.interceptor x ≡ true) ↔ (4096 ≤ x) × (x < 5120))

  -- The start of a process: its first request, as it packs it, is answered by the daemon, which notes
  -- its name and number, and with that answer the process has all functions of the C library and a
  -- valid table of the 1024 descriptors from 4096. The two sides encode the same messages, which fit;
  -- the C library has the functions, and the kernel connects the socket and takes the request whole.
  pub interceptor_init-on_read_ready :
      (client : Client) (system : System) (fd pid : ℕ) (progname : List ℕ) (s : Handler.Stack)
      (c : Channel Q)
      → Agree client codec
      → Works client system fd (atstart pid progname)
      → 0 < client.packed_size (atstart pid progname)
      → client.packed_size (atstart pid progname) ≤ message_max_size
      → codec.byte_size (ok (Returning.atstart_ret 4096 1024)) ≤ message_max_size
      → Registers client system fd pid progname s c
  unfolding interceptor_init module_init ask_fd_range await_range handle_request atstart_action
      is_initialized
  interceptor_init-on_read_ready client system fd pid progname s c g w some_bytes fits fits' =
      let req : Request = atstart pid progname in
      let make : Interceptor → Started = λ i. record {
        glibc_funcs = find_funcs system.dlsym;
        proc_channel = fd;
        interceptor = i;
        sent = client.pack req;
      } in
      let (i, e, v, r) = fd_range-started make system.memory w.memory in
      (
        record c { peer = progname; peer_pid = pid },
        codec.serialize range_answer,
        make i,
        on_read_ready-encode ops garbage codec client.pack g.laws s c req s
            (record c { peer = progname; peer_pid = pid }) range_answer
            (ground (arith, g.length-pack req, some_bytes)) refl refl fits',
        refl,
        refl,
        started client codec system fd pid progname _ i g w fits
            (g.unpack-serialize range_answer refl) e,
        refl,
        refl,
        find_funcs_lem system.dlsym,
        v,
        r,
      )
