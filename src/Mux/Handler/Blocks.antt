-- ===== src/Mux/Handler/Blocks.antt =====
-- What a request does to the lists of blocks and to the block of its channel's socket.
use mu_quinet.Prelude.{
  ℕ, suc, ◌≡◌, refl, sym, ◌∙◌, ◌⊎◌, inl, inr, List, [], ◌∷◌, ◌++◌, Bool, true, false, Bool-cases,
  Option, some, Option-cases, arith, test_bit,
}
use mathlib.Core.Bool.{true≢false}
use mathlib.Core.Option.{none-ne-some}
use mu_quinet.Tcp.{TcpPcb}
use mu_quinet.Mux.Rpc.{SockAddr, Calling, Request, Response}
use mu_quinet.Mux.Socket.{
  Socket, RecvQueue, SocketType, PcbRef, udp_pcb, tcp_pcb, new_socket, try_take_from_recv_q,
  wait_for_packet,
}
use mu_quinet.Mux.Handler.{
  Stack, Channel, on_socket, handle_request, new_udp_pcb, new_tcp_pcb, socket_call, connect_call,
  close_call, sendto_call, recvfrom_call, getpeername_call, getsockname_call, atstart_action,
}

abbrev pub address_of : PcbRef → ℕ
address_of (udp_pcb a p) = a
address_of (tcp_pcb a p) = a

abbrev pub is_udp : PcbRef → Bool
is_udp (udp_pcb a p) = true
is_udp (tcp_pcb a p) = false

abbrev only_answers : Calling → Bool
only_answers (Calling.socket_call d t p) = false
only_answers (Calling.connect_call dest) = false
only_answers (Calling.recvfrom_call n f b) = false
only_answers (Calling.sendto_call buf f dest) = false
only_answers _ = true

module _ {Q : Type 0} where
  -- The lists are the same, and a socket's block is where and of the kind it was.
  pub record Keeps (s : Stack) (o : Option (Socket Q)) (s' : Stack) (o' : Option (Socket Q))
      : Type 0 where
    pub udp : s'.udp_pcbs ≡ s.udp_pcbs
    pub tcp : s'.tcp_pcbs ≡ s.tcp_pcbs
    pub next : s'.next_address ≡ s.next_address
    pub block :
        (so' : Socket Q)
        → o' ≡ some so'
        → (so : Socket Q) × (o ≡ some so)
          × (address_of so'.pcb ≡ address_of so.pcb)
          × (is_udp so'.pcb ≡ is_udp so.pcb)

  -- A new block at the next address, at the end of its list.
  pub record Adds (s : Stack) (s' : Stack) (o' : Option (Socket Q)) : Type 0 where
    pub socket : Socket Q
    pub has : o' ≡ some socket
    pub address : address_of socket.pcb ≡ s.next_address
    pub next : s'.next_address ≡ suc s.next_address
    pub lists :
        ((is_udp socket.pcb ≡ true)
          × (s'.udp_pcbs ≡ s.udp_pcbs ++ s.next_address ∷ [])
          × (s'.tcp_pcbs ≡ s.tcp_pcbs))
        ⊎ ((is_udp socket.pcb ≡ false)
            × (s'.udp_pcbs ≡ s.udp_pcbs)
            × (s'.tcp_pcbs ≡ s.tcp_pcbs ++ s.next_address ∷ []))

  abbrev pub KeepsOrAdds : Stack → Channel Q → Stack → Channel Q → Type 0
  KeepsOrAdds s c s' c' = Keeps s c.socket s' c'.socket ⊎ Adds s s' c'.socket

module _ {Q : Type 0} (ops : RecvQueue Q) (garbage : TcpPcb) where
  same-Keeps : (s : Stack) (o : Option (Socket Q)) → Keeps s o s o
  same-Keeps s o = record {
    udp = refl;
    tcp = refl;
    next = refl;
    block = λ so e. (so, e, refl, refl);
  }

  connect-Keeps :
      (s : Stack) (c : Channel Q) (so : Socket Q) (dest : SockAddr) (s' : Stack) (c' : Channel Q)
      (r : Response)
      → c.socket ≡ some so
      → connect_call ops garbage s c so dest ≡ some (s', c', r)
      → Keeps s c.socket s' c'.socket
  unfolding connect_call
  connect-Keeps s c so dest s' c' r t e = record {
    udp = ground (arith, e);
    tcp = ground (arith, e);
    next = ground (arith, e);
    block = λ so' f. (so, t, ground (arith, e, f), ground (arith, e, f));
  }

  sendto-Keeps :
      (s : Stack) (c : Channel Q) (so : Socket Q) (buf : List ℕ) (dest : Option SockAddr)
      (s' : Stack) (c' : Channel Q) (r : Response)
      → c.socket ≡ some so
      → sendto_call ops garbage s c so buf dest ≡ some (s', c', r)
      → Keeps s c.socket s' c'.socket
  unfolding sendto_call
  sendto-Keeps s c so buf dest s' c' r t e = record {
    udp = ground (arith, e);
    tcp = ground (arith, e);
    next = ground (arith, e);
    block = λ so' f. (so, t, ground (arith, e, f), ground (arith, e, f));
  }

  recvfrom-Keeps :
      (s : Stack) (c : Channel Q) (so : Socket Q) (b : Bool) (s' : Stack) (c' : Channel Q)
      (r : Response)
      → c.socket ≡ some so
      → recvfrom_call ops garbage s c so b ≡ some (s', c', r)
      → Keeps s c.socket s' c'.socket
  unfolding recvfrom_call try_take_from_recv_q wait_for_packet
  recvfrom-Keeps s c so b s' c' r t e = record {
    udp = ground (arith, e);
    tcp = ground (arith, e);
    next = ground (arith, e);
    block = λ so' f. (so, t, ground (arith, e, f), ground (arith, e, f));
  }

  socket-Adds :
      (s : Stack) (c : Channel Q) (domain type : ℕ) (s' : Stack) (c' : Channel Q) (r : Response)
      → socket_call ops garbage s c domain type ≡ some (s', c', r)
      → Adds s s' c'.socket
  unfolding socket_call new_udp_pcb new_tcp_pcb new_socket
  socket-Adds s c domain type s' c' r e = elim (Bool-cases (test_bit type 0)) [
    | inl q ↦ record {
      socket = new_socket ops SocketType.tcp (test_bit type 11) (new_tcp_pcb garbage s).1;
      has = ground (arith, e, q);
      address = refl;
      next = ground (arith, e, q);
      lists = inr (refl, ground (arith, e, q), ground (arith, e, q));
    }
    | inr q ↦ record {
      socket = new_socket ops SocketType.udp (test_bit type 11) (new_udp_pcb s).1;
      has = ground (arith, e, q);
      address = refl;
      next = ground (arith, e, q);
      lists = inl (refl, ground (arith, e, q), ground (arith, e, q));
    }
  ]

  unchanged :
      (s : Stack) (c : Channel Q) (s' : Stack) (c' : Channel Q)
      → s'.udp_pcbs ≡ s.udp_pcbs
      → s'.tcp_pcbs ≡ s.tcp_pcbs
      → s'.next_address ≡ s.next_address
      → c'.socket ≡ c.socket
      → Keeps s c.socket s' c'.socket
  unchanged s c s' c' u v w k = record {
    udp = u;
    tcp = v;
    next = w;
    block = λ so e. (so, sym k ∙ e, refl, refl);
  }

  -- A call that only answers, or looks at the socket.
  answers-Keeps :
      (s : Stack) (c : Channel Q) (call : Calling) (pid : ℕ) (s' : Stack) (c' : Channel Q)
      (r : Response)
      → only_answers call ≡ true
      → handle_request ops garbage s c (record { pid = pid; calling = call }) ≡ some (s', c', r)
      → Keeps s c.socket s' c'.socket
  unfolding handle_request close_call getpeername_call getsockname_call atstart_action
  answers-Keeps s c Calling.close_call pid s' c' r k e =
      unchanged s c s' c' (ground (arith, e)) (ground (arith, e)) (ground (arith, e))
        (ground (arith, e))
  answers-Keeps s c Calling.poll_call pid s' c' r k e =
      unchanged s c s' c' (ground (arith, e)) (ground (arith, e)) (ground (arith, e))
        (ground (arith, e))
  answers-Keeps s c Calling.select_call pid s' c' r k e =
      unchanged s c s' c' (ground (arith, e)) (ground (arith, e)) (ground (arith, e))
        (ground (arith, e))
  answers-Keeps s c Calling.getpeername_call pid s' c' r k e =
      unchanged s c s' c' (ground (arith, e)) (ground (arith, e)) (ground (arith, e))
        (ground (arith, e))
  answers-Keeps s c Calling.getsockname_call pid s' c' r k e =
      unchanged s c s' c' (ground (arith, e)) (ground (arith, e)) (ground (arith, e))
        (ground (arith, e))
  answers-Keeps s c Calling.getsockopt_call pid s' c' r k e =
      unchanged s c s' c' (ground (arith, e)) (ground (arith, e)) (ground (arith, e))
        (ground (arith, e))
  answers-Keeps s c Calling.setsockopt_call pid s' c' r k e =
      unchanged s c s' c' (ground (arith, e)) (ground (arith, e)) (ground (arith, e))
        (ground (arith, e))
  answers-Keeps s c Calling.fcntl_call pid s' c' r k e =
      unchanged s c s' c' (ground (arith, e)) (ground (arith, e)) (ground (arith, e))
        (ground (arith, e))
  answers-Keeps s c (Calling.atstart_action name) pid s' c' r k e =
      unchanged s c s' c' (ground (arith, e)) (ground (arith, e)) (ground (arith, e))
        (ground (arith, e))
  answers-Keeps s c Calling.calling_not_set pid s' c' r k e =
      unchanged s c s' c' (ground (arith, e)) (ground (arith, e)) (ground (arith, e))
        (ground (arith, e))
  answers-Keeps s c (Calling.socket_call d t p) pid s' c' r k e = absurd (true≢false (sym k))
  answers-Keeps s c (Calling.connect_call dest) pid s' c' r k e = absurd (true≢false (sym k))
  answers-Keeps s c (Calling.recvfrom_call n f b) pid s' c' r k e = absurd (true≢false (sym k))
  answers-Keeps s c (Calling.sendto_call buf f dest) pid s' c' r k e = absurd (true≢false (sym k))

  on_socket-some :
      (c : Channel Q) (f : Socket Q → Option (Stack × Channel Q × Response))
      (x : Stack × Channel Q × Response)
      → on_socket ops garbage c f ≡ some x
      → (so : Socket Q) × (c.socket ≡ some so) × (f so ≡ some x)
  on_socket-some c f x e = elim (Option-cases c.socket) [
    | inl n ↦ absurd (none-ne-some x (ground (arith, e, n)))
    | inr (so, t) ↦ (so, t, ground (arith, e, t))
  ]

  call-KeepsOrAdds :
      (s : Stack) (c : Channel Q) (pid : ℕ) (call : Calling) (s' : Stack) (c' : Channel Q)
      (r : Response)
      → handle_request ops garbage s c (record { pid = pid; calling = call }) ≡ some (s', c', r)
      → KeepsOrAdds s c s' c'
  unfolding handle_request
  call-KeepsOrAdds s c pid (Calling.socket_call d t p) s' c' r e =
      inr (socket-Adds s c d t s' c' r e)
  call-KeepsOrAdds s c pid (Calling.connect_call dest) s' c' r e =
      let (so, t, f) =
        on_socket-some c (λ so. connect_call ops garbage s c so dest) (s', c', r) e in
      inl (connect-Keeps s c so dest s' c' r t f)
  call-KeepsOrAdds s c pid (Calling.recvfrom_call n g b) s' c' r e =
      let (so, t, f) = on_socket-some c (λ so. recvfrom_call ops garbage s c so b) (s', c', r) e in
      inl (recvfrom-Keeps s c so b s' c' r t f)
  call-KeepsOrAdds s c pid (Calling.sendto_call buf g dest) s' c' r e =
      let (so, t, f) =
        on_socket-some c (λ so. sendto_call ops garbage s c so buf dest) (s', c', r) e in
      inl (sendto-Keeps s c so buf dest s' c' r t f)
  call-KeepsOrAdds s c pid Calling.close_call s' c' r e =
      inl (answers-Keeps s c Calling.close_call pid s' c' r refl e)
  call-KeepsOrAdds s c pid Calling.poll_call s' c' r e =
      inl (answers-Keeps s c Calling.poll_call pid s' c' r refl e)
  call-KeepsOrAdds s c pid Calling.select_call s' c' r e =
      inl (answers-Keeps s c Calling.select_call pid s' c' r refl e)
  call-KeepsOrAdds s c pid Calling.getpeername_call s' c' r e =
      inl (answers-Keeps s c Calling.getpeername_call pid s' c' r refl e)
  call-KeepsOrAdds s c pid Calling.getsockname_call s' c' r e =
      inl (answers-Keeps s c Calling.getsockname_call pid s' c' r refl e)
  call-KeepsOrAdds s c pid Calling.getsockopt_call s' c' r e =
      inl (answers-Keeps s c Calling.getsockopt_call pid s' c' r refl e)
  call-KeepsOrAdds s c pid Calling.setsockopt_call s' c' r e =
      inl (answers-Keeps s c Calling.setsockopt_call pid s' c' r refl e)
  call-KeepsOrAdds s c pid Calling.fcntl_call s' c' r e =
      inl (answers-Keeps s c Calling.fcntl_call pid s' c' r refl e)
  call-KeepsOrAdds s c pid (Calling.atstart_action name) s' c' r e =
      inl (answers-Keeps s c (Calling.atstart_action name) pid s' c' r refl e)
  call-KeepsOrAdds s c pid Calling.calling_not_set s' c' r e =
      inl (answers-Keeps s c Calling.calling_not_set pid s' c' r refl e)

  -- A request that is handled keeps the lists of blocks and the block of its channel's socket, or is
  -- a socket call, which adds a block at the next address and gives it to the channel's new socket.
  pub handle_request-KeepsOrAdds :
      (s : Stack) (c : Channel Q) (req : Request) (s' : Stack) (c' : Channel Q) (r : Response)
      → handle_request ops garbage s c req ≡ some (s', c', r)
      → KeepsOrAdds s c s' c'
  handle_request-KeepsOrAdds s c req s' c' r e = call-KeepsOrAdds s c req.pid req.calling s' c' r e
