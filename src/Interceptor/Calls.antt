-- ===== src/Interceptor/Calls.antt =====
-- interceptor.c: the calls that it takes over. Each is given the reads of the answer's channel, and
-- leaves the descriptors' table, what it sent on which channel, and its outcome.
use mu_quinet.Prelude.{
  ℕ, zero, suc, List, [], ◌∷◌, Bool, true, false, ◌&&◌, not, Option, none, some, ◌==◌, ltb,
  if◌then◌else◌, ℤ, pos, negsuc, test_bit, length,
}
use mu_quinet.Mux.Rpc.{SockAddr, Calling, Request, Returning}
use mu_quinet.Interceptor.{
  Interceptor, GlibcFunc, is_assigned_by_muquinet, next_avail_fd, fd2channel, set_fd2channel,
  unset_fd2channel,
}
use mu_quinet.Interceptor.Recv.{ReadResult, Received, channel_recv}

-- What a call returns: `ret`, `errno` if it set that, the bytes it wrote to the caller's buffer from
-- its start, and the address that it wrote.
pub record Ret : Type 0 where
  pub ret : ℤ
  pub errno : Option ℕ
  pub written : List ℕ
  pub addr : Option SockAddr

-- `passed`: a function of the C library is called, with the same arguments. `no_value`: the call ends
-- without a `return`, and its caller gets what happens to be there.
pub data Outcome : Type 0 where
  passed : GlibcFunc → Outcome
  blocked aborted no_value : Outcome
  returned : Ret → Outcome

pub record Effect : Type 0 where
  pub after : Interceptor
  pub sent : List (ℕ × Request)
  pub outcome : Outcome

abbrev pub untouched : Interceptor → Outcome → Effect
untouched i o = record { after = i; sent = []; outcome = o }

-- INTERCEPTOR_RETURN__RET_AND_ERRNO.
unfoldable pub ret_and_errno : ℤ → Option ℕ → List ℕ → Option SockAddr → Outcome
ret_and_errno (pos n) e written addr =
    Outcome.returned (record { ret = pos n; errno = none; written = written; addr = addr })
ret_and_errno (negsuc (suc n)) e written addr =
    Outcome.returned (record { ret = negsuc (suc n); errno = none; written = written; addr = addr })
ret_and_errno (negsuc zero) none written addr = Outcome.aborted
ret_and_errno (negsuc zero) (some e) written addr =
    Outcome.returned (record { ret = negsuc zero; errno = some e; written = written; addr = addr })

-- `channel_send` and `channel_recv` on one channel, and what `reply` makes of the answer.
unfoldable pub exchange :
    ℕ → Request → List ReadResult → (Returning → Outcome) → List (ℕ × Request) × Outcome
unfolding channel_recv
exchange ch req reads reply = (
  (ch, req) ∷ [],
  elim (channel_recv reads) [
    | Received.blocked ↦ Outcome.blocked
    | Received.aborted ↦ Outcome.aborted
    | Received.got r rest ↦ reply r.returning
  ],
)

-- A call on an assigned descriptor; a channel that is not in the vector is a read out of bounds.
unfoldable pub on_channel :
    Interceptor → ℕ → Request → List ReadResult → (Returning → Outcome) → Effect
unfolding fd2channel exchange
on_channel i fd req reads reply = elim (fd2channel i fd) [
  | none ↦ untouched i Outcome.aborted
  | some ch ↦
      let (sent, o) = exchange ch req reads reply in record { after = i; sent = sent; outcome = o }
]

-- A call that the C library's function `f` does on a descriptor that is not the interceptor's.
unfoldable pub intercept :
    GlibcFunc → Interceptor → ℕ → Request → List ReadResult → (Returning → Outcome) → Effect
unfolding is_assigned_by_muquinet on_channel
intercept f i fd req reads reply =
    if is_assigned_by_muquinet i fd
    then on_channel i fd req reads reply
    else untouched i (Outcome.passed f)

-- The replies: an answer of another kind fails the assertion.
unfoldable pub socket_reply : ℕ → Returning → Outcome
socket_reply connfd (Returning.socket_ret (negsuc zero) none) = Outcome.aborted
socket_reply connfd (Returning.socket_ret (negsuc zero) (some e)) =
    Outcome.returned (record { ret = negsuc zero; errno = some e; written = []; addr = none })
socket_reply connfd (Returning.socket_ret ret e) =
    Outcome.returned (record { ret = pos connfd; errno = none; written = []; addr = none })
socket_reply connfd _ = Outcome.aborted

unfoldable pub connect_reply : Returning → Outcome
unfolding ret_and_errno
connect_reply (Returning.connect_ret ret e) = ret_and_errno ret e [] none
connect_reply _ = Outcome.aborted

unfoldable pub close_reply : Returning → Outcome
unfolding ret_and_errno
close_reply (Returning.close_ret ret e) = ret_and_errno ret e [] none
close_reply _ = Outcome.aborted

-- `sendto` reads `ret` and `errno_` as members of another message, which lie at the same place.
unfoldable pub sendto_reply : Returning → Outcome
unfolding ret_and_errno
sendto_reply (Returning.sendto_ret ret e) = ret_and_errno ret e [] none
sendto_reply _ = Outcome.aborted

abbrev pub positive : ℤ → Bool
positive (pos n) = ltb 0 n
positive (negsuc n) = false

abbrev pub nonnegative : ℤ → Bool
nonnegative (pos n) = true
nonnegative (negsuc n) = false

abbrev pub bytes : Option (List ℕ) → List ℕ
bytes none = []
bytes (some l) = l

-- `src_addr`: the caller wants the address.
unfoldable pub recvfrom_reply : Bool → Returning → Outcome
unfolding ret_and_errno
recvfrom_reply src_addr (Returning.recvfrom_ret ret e buf addr) =
    let written : List ℕ = if positive ret then bytes buf else [] in
    if src_addr && nonnegative ret
    then elim addr [ none ↦ Outcome.aborted | some a ↦ ret_and_errno ret e written (some a) ]
    else ret_and_errno ret e written none
recvfrom_reply src_addr _ = Outcome.aborted

-- `getpeername` and `getsockname` read the name as another message's `buf`, at the same place.
unfoldable pub getpeername_reply : Returning → Outcome
unfolding ret_and_errno
getpeername_reply (Returning.getpeername_ret ret e name) = ret_and_errno ret e [] name
getpeername_reply _ = Outcome.aborted

unfoldable pub getsockname_reply : Returning → Outcome
unfolding ret_and_errno
getsockname_reply (Returning.getsockname_ret ret e name) = ret_and_errno ret e [] name
getsockname_reply _ = Outcome.aborted

-- The calls. `ch` is the channel that `new_channel` connects.
unfoldable pub socket : Interceptor → ℕ → ℕ → ℕ → ℕ → ℕ → List ReadResult → Effect
unfolding next_avail_fd set_fd2channel exchange socket_reply
socket i pid ch domain type protocol reads =
    let connfd : ℕ = next_avail_fd i in
    let req : Request = record { pid = pid; calling = Calling.socket_call domain type protocol } in
    let (sent, o) = exchange ch req reads (socket_reply connfd) in
    if not (domain == 2)
    then untouched i (Outcome.passed GlibcFunc.socket)
    else if not (test_bit type 0) && not (test_bit type 1)
    then untouched i (Outcome.passed GlibcFunc.socket)
    else record { after = set_fd2channel i connfd ch; sent = sent; outcome = o }

unfoldable pub connect : Interceptor → ℕ → ℕ → SockAddr → List ReadResult → Effect
unfolding intercept connect_reply
connect i pid fd dest reads =
    intercept GlibcFunc.connect i fd (record { pid = pid; calling = Calling.connect_call dest })
      reads connect_reply

-- The descriptor's entry is cleared once the answer is there.
unfoldable pub close : Interceptor → ℕ → ℕ → List ReadResult → Effect
unfolding intercept close_reply unset_fd2channel
close i pid fd reads =
    let e =
      intercept GlibcFunc.close i fd (record { pid = pid; calling = Calling.close_call }) reads
        close_reply in
    elim e.outcome [ Outcome.returned r ↦ record e { after = unset_fd2channel i fd } | _ ↦ e ]

-- `sendto` of the bytes `buf`; a null buffer has none. `send` and `write` pass no address.
unfoldable pub sendto :
    Interceptor → ℕ → ℕ → List ℕ → ℕ → Option SockAddr → List ReadResult → Effect
unfolding intercept sendto_reply is_assigned_by_muquinet
sendto i pid fd buf flags dest reads =
    if is_assigned_by_muquinet i fd && length buf == 0
    then untouched i
        (Outcome.returned (record { ret = pos 0; errno = none; written = []; addr = none }))
    else intercept GlibcFunc.sendto i fd
        (record { pid = pid; calling = Calling.sendto_call buf flags dest }) reads sendto_reply

-- `recvfrom` into a buffer of `len` bytes. `recv` and `read` pass no address.
unfoldable pub recvfrom : Interceptor → ℕ → ℕ → ℕ → ℕ → Bool → List ReadResult → Effect
unfolding intercept recvfrom_reply is_assigned_by_muquinet
recvfrom i pid fd len flags src_addr reads =
    if is_assigned_by_muquinet i fd && len == 0
    then untouched i
        (Outcome.returned (record { ret = pos 0; errno = none; written = []; addr = none }))
    else intercept GlibcFunc.recvfrom i fd
        (record { pid = pid; calling = Calling.recvfrom_call len flags src_addr }) reads
        (recvfrom_reply src_addr)

-- `read`, `write`, `send` and `recv`, which forward to `recvfrom` and `sendto`.
abbrev own : GlibcFunc → Interceptor → ℕ → Effect → Effect
own f i fd e = if is_assigned_by_muquinet i fd then e else untouched i (Outcome.passed f)

unfoldable pub read : Interceptor → ℕ → ℕ → ℕ → List ReadResult → Effect
unfolding recvfrom is_assigned_by_muquinet
read i pid fd count reads = own GlibcFunc.read i fd (recvfrom i pid fd count 0 false reads)

unfoldable pub write : Interceptor → ℕ → ℕ → List ℕ → List ReadResult → Effect
unfolding sendto is_assigned_by_muquinet
write i pid fd buf reads = own GlibcFunc.write i fd (sendto i pid fd buf 0 none reads)

unfoldable pub send : Interceptor → ℕ → ℕ → List ℕ → ℕ → List ReadResult → Effect
unfolding sendto is_assigned_by_muquinet
send i pid fd buf flags reads = own GlibcFunc.send i fd (sendto i pid fd buf flags none reads)

unfoldable pub recv : Interceptor → ℕ → ℕ → ℕ → ℕ → List ReadResult → Effect
unfolding recvfrom is_assigned_by_muquinet
recv i pid fd len flags reads = own GlibcFunc.recv i fd (recvfrom i pid fd len flags false reads)

-- The calls without a body: `setsockopt` and `getsockopt` of other descriptors are passed on, `fcntl`,
-- `poll` and `select` are not.
unfoldable pub setsockopt : Interceptor → ℕ → Effect
unfolding is_assigned_by_muquinet
setsockopt i fd = own GlibcFunc.setsockopt i fd (untouched i Outcome.no_value)

unfoldable pub getsockopt : Interceptor → ℕ → Effect
unfolding is_assigned_by_muquinet
getsockopt i fd = own GlibcFunc.getsockopt i fd (untouched i Outcome.no_value)

unfoldable pub fcntl : Interceptor → ℕ → Effect
fcntl i fd = untouched i Outcome.no_value

unfoldable pub poll : Interceptor → List ℕ → Effect
poll i fds = untouched i Outcome.no_value

unfoldable pub select : Interceptor → List ℕ → Effect
select i fds = untouched i Outcome.no_value

unfoldable pub getpeername : Interceptor → ℕ → ℕ → List ReadResult → Effect
unfolding intercept getpeername_reply
getpeername i pid fd reads =
    intercept GlibcFunc.getpeername i fd (record { pid = pid; calling = Calling.getpeername_call })
      reads getpeername_reply

unfoldable pub getsockname : Interceptor → ℕ → ℕ → List ReadResult → Effect
unfolding intercept getsockname_reply
getsockname i pid fd reads =
    intercept GlibcFunc.getpeername i fd (record { pid = pid; calling = Calling.getsockname_call })
      reads getsockname_reply
