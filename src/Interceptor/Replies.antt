-- ===== src/Interceptor/Replies.antt =====
-- What the process gets for the answers of muQuinetd.
use mu_quinet.Prelude.{
  ℕ, ◌≡◌, ◌≢◌, refl, ap, sym, ◌∙◌, ◌⊎◌, inl, inr, subst, List, [], ◌∷◌, Bool, true, false, none,
  some, arith, if◌then◌else◌, pos, length, ne→==, All,
}
use mu_quinet.Tcp.{TcpPcb}
use mu_quinet.Mux.Rpc.{SockAddr, Calling, Request, Response, Returning, RetCode}
use mu_quinet.Mux.Socket.{Socket, Packet, RecvQueue, QueueLaws}
use mu_quinet.Mux.Handler.{Stack, Channel, handle_request, recvfrom_call, ok}
use mu_quinet.Mux.Handler.Receiving.{
  HasPayload, bytes_of, data_answer, recvfrom_call_packet, recvfrom_call_empty,
}
use mu_quinet.Interceptor.{
  GlibcFunc, Interceptor, is_assigned_by_muquinet, next_avail_fd, fd2channel, set_fd2channel,
}
use mu_quinet.Interceptor.Recv.{ReadResult, channel_recv}
use mu_quinet.Interceptor.Calls.{
  Outcome, Ret, socket, recvfrom, recvfrom_reply, intercept, on_channel, exchange, ret_and_errno,
  socket_reply,
}
use mu_quinet.Interceptor.Fds.{IsValid, set_fd2channel-IsValid, fd2channel-set_fd2channel}

-- A call that `intercept` takes over and that one answer with OK ends.
pub intercept_answered :
    (f : GlibcFunc) (i : Interceptor) (fd ch : ℕ) (req : Request) (r : Response)
    (reply : Returning → Outcome)
    → is_assigned_by_muquinet i fd ≡ true
    → fd2channel i fd ≡ some ch
    → r.retcode ≡ some RetCode.ok
    → intercept f i fd req (ReadResult.message r ∷ []) reply
      ≡ record { after = i; sent = (ch, req) ∷ []; outcome = reply r.returning }
unfolding intercept on_channel exchange channel_recv
intercept_answered f i fd ch req r reply a c e = ground (arith, a, c, e)

recvfrom_answered :
    (i : Interceptor) (pid fd ch len flags : ℕ) (src_addr : Bool) (r : Response)
    → is_assigned_by_muquinet i fd ≡ true
    → fd2channel i fd ≡ some ch
    → len ≢ 0
    → r.retcode ≡ some RetCode.ok
    → recvfrom i pid fd len flags src_addr (ReadResult.message r ∷ []) ≡ record {
      after = i;
      sent = (ch, record { pid = pid; calling = Calling.recvfrom_call len flags src_addr }) ∷ [];
      outcome = recvfrom_reply src_addr r.returning;
    }
unfolding recvfrom
recvfrom_answered i pid fd ch len flags src_addr r a c n e = ground (
  arith,
  a,
  ne→== len 0 n,
  intercept_answered GlibcFunc.recvfrom i fd ch
      (record { pid = pid; calling = Calling.recvfrom_call len flags src_addr }) r
      (recvfrom_reply src_addr) a c e,
)

-- What the process gets for an answer with data.
abbrev pub data_ret : Packet → Bool → Ret
data_ret p src_addr = record {
  ret = pos (length (bytes_of p.chain));
  errno = none;
  written = bytes_of p.chain;
  addr = if src_addr then some p.peer else none;
}

data_reply :
    (p : Packet) (src_addr : Bool)
    → recvfrom_reply src_addr (data_answer p src_addr).returning
      ≡ Outcome.returned (data_ret p src_addr)
unfolding recvfrom_reply ret_and_errno
data_reply p src_addr = go (bytes_of p.chain) src_addr p.peer
  where
    go :
        (l : List ℕ) (b : Bool) (peer : SockAddr)
        → recvfrom_reply b
            (Returning.recvfrom_ret (pos (length l)) none (some l) (if b then some peer else none))
          ≡ Outcome.returned (record {
            ret = pos (length l);
            errno = none;
            written = l;
            addr = if b then some peer else none;
          })
    go [] true peer = refl
    go [] false peer = refl
    go (x ∷ l) true peer = ground arith
    go (x ∷ l) false peer = ground arith

module _ {Q : Type 0} (ops : RecvQueue Q) (laws : QueueLaws ops) (garbage : TcpPcb) where
  on_socket_some :
      (s : Stack) (c : Channel Q) (so : Socket Q) (pid len flags : ℕ) (r : Bool)
      → c.socket ≡ some so
      → handle_request ops garbage s c
          (record { pid = pid; calling = Calling.recvfrom_call len flags r })
        ≡ recvfrom_call ops garbage s c so r
  unfolding handle_request
  on_socket_some s c so pid len flags r e = ground (arith, e)

  -- `recvfrom` from the process to muQuinetd and back, when a packet waits whose buffers have
  -- payloads that start at or before their ends: one request goes out, and the process gets all the
  -- packet's bytes, whatever the length `len` of its buffer is, and the peer's address if it asked
  -- for it.
  pub recvfrom-handle_request :
      (i : Interceptor) (pid fd ch len flags : ℕ) (src_addr : Bool) (s : Stack) (c : Channel Q)
      (so : Socket Q) (p : Packet) (rest : List Packet)
      → is_assigned_by_muquinet i fd ≡ true
      → fd2channel i fd ≡ some ch
      → len ≢ 0
      → c.socket ≡ some so
      → laws.contents so.recv_q ≡ p ∷ rest
      → All HasPayload p.chain
      → let req : Request = record {
        pid = pid;
        calling = Calling.recvfrom_call len flags src_addr;
      } in
        (c' : Channel Q) × (r : Response) × (handle_request ops garbage s c req ≡ some (s, c', r))
        × (recvfrom i pid fd len flags src_addr (ReadResult.message r ∷ []) ≡ record {
          after = i;
          sent = (ch, req) ∷ [];
          outcome = Outcome.returned (data_ret p src_addr);
        })
  recvfrom-handle_request i pid fd ch len flags src_addr s c so p rest a f n e q h =
      let (q', _, now, _, _) = recvfrom_call_packet ops laws garbage s c so src_addr p rest q h in
      (
        record c { socket = some (record so { recv_q = q' }) },
        data_answer p src_addr,
        on_socket_some s c so pid len flags src_addr e ∙ now,
        recvfrom_answered i pid fd ch len flags src_addr (data_answer p src_addr) a f n refl
            ∙ ap
                (λ o. record {
                  after = i;
                  sent =
                      (ch, record { pid = pid; calling = Calling.recvfrom_call len flags src_addr })
                      ∷ [];
                  outcome = o;
                })
                (data_reply p src_addr),
      )

  -- On a nonblocking socket with no packet, `recvfrom` without an address returns 11 as if 11 bytes
  -- had come, with no error number and nothing written.
  pub recvfrom-e_again :
      (i : Interceptor) (pid fd ch len flags : ℕ) (s : Stack) (c : Channel Q) (so : Socket Q)
      → is_assigned_by_muquinet i fd ≡ true
      → fd2channel i fd ≡ some ch
      → len ≢ 0
      → c.socket ≡ some so
      → so.nonblocking ≡ true
      → laws.contents so.recv_q ≡ []
      → let req : Request = record { pid = pid; calling = Calling.recvfrom_call len flags false } in
        (r : Response) × (handle_request ops garbage s c req ≡ some (s, c, r))
        × ((recvfrom i pid fd len flags false (ReadResult.message r ∷ [])).outcome
            ≡ Outcome.returned (record { ret = pos 11; errno = none; written = []; addr = none }))
  unfolding recvfrom_reply ret_and_errno
  recvfrom-e_again i pid fd ch len flags s c so a f n e nb q =
      let r : Response = ok (Returning.recvfrom_ret (pos 11) none none none) in
      (
        r,
        on_socket_some s c so pid len flags false e
            ∙ recvfrom_call_empty ops laws garbage s c so false q
            ∙ ground (arith, nb),
        ap (λ x. x.outcome) (recvfrom_answered i pid fd ch len flags false r a f n refl),
      )

-- One `socket` call for TCP or UDP that is answered without an error.
abbrev pub socket_ok : Response
socket_ok = record { retcode = some RetCode.ok; returning = Returning.socket_ret (pos 0) none }

socket_answered :
    (i : Interceptor) (pid ch type protocol : ℕ)
    → (type ≡ 1) ⊎ (type ≡ 2)
    → let e = socket i pid ch 2 type protocol (ReadResult.message socket_ok ∷ []) in
      (e.after ≡ set_fd2channel i (next_avail_fd i) ch)
      × (e.outcome
          ≡ Outcome.returned
              (record { ret = pos (next_avail_fd i); errno = none; written = []; addr = none }))
unfolding socket exchange channel_recv socket_reply
socket_answered i pid ch type protocol (inl e) = rw e (refl, refl)
socket_answered i pid ch type protocol (inr e) = rw e (refl, refl)

-- Two calls of `socket` in a row return the same descriptor, and the descriptor's channel is then
-- that of the second.
pub socket_socket :
    (i : Interceptor) (pid ch ch' type type' protocol : ℕ)
    → IsValid i
    → (type ≡ 1) ⊎ (type ≡ 2)
    → (type' ≡ 1) ⊎ (type' ≡ 2)
    → let e = socket i pid ch 2 type protocol (ReadResult.message socket_ok ∷ []) in
      let e' = socket e.after pid ch' 2 type' protocol (ReadResult.message socket_ok ∷ []) in
      (e'.outcome ≡ e.outcome) × (fd2channel e'.after (next_avail_fd i) ≡ some ch')
unfolding set_fd2channel next_avail_fd is_assigned_by_muquinet
socket_socket i pid ch ch' type type' protocol v t t' =
    let fd : ℕ = next_avail_fd i in
    let i1 : Interceptor =
      (socket i pid ch 2 type protocol (ReadResult.message socket_ok ∷ [])).after in
    let (a, o) = socket_answered i pid ch type protocol t in
    let (a', o') = socket_answered i1 pid ch' type' protocol t' in
    let w : IsValid i1 = subst IsValid (sym a) (set_fd2channel-IsValid i fd ch v) in
    let same : next_avail_fd i1 ≡ fd = ap next_avail_fd a in
    let (k, _) = fd2channel-set_fd2channel i1 (next_avail_fd i1) ch' w w.next in
    (
      o'
          ∙ ap
              (λ n.
                Outcome.returned (record { ret = pos n; errno = none; written = []; addr = none }))
              same
          ∙ sym o,
      ap (λ j. fd2channel j fd) a'
          ∙ ap (λ n. fd2channel (set_fd2channel i1 (next_avail_fd i1) ch') n) (sym same)
          ∙ k,
    )
