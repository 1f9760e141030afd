-- ===== src/Mux/Handler/Receiving.antt =====
-- What `recvfrom` answers, at once or when a packet comes.
use mu_quinet.Prelude.{
  ℕ, ◌-◌, ◌≤◌, ◌≡◌, refl, List, [], ◌∷◌, ◌++◌, Bool, true, false, none, some, inl, inr,
  Option-cases, arith, if◌then◌else◌, length, take, drop, sym, ap, ◌∙◌, pos, All,
}
use mu_quinet.Tcp.{TcpPcb}
use mu_quinet.Net.Buffer.{SocketBuffer, user_payload}
use mu_quinet.Mux.Rpc.{Response, Returning, RetCode}
use mu_quinet.Mux.Socket.{
  Socket, Packet, RecvQueue, QueueLaws, on_async_udp, on_async_tcp, try_take_from_recv_q,
  wait_for_packet,
}
use mu_quinet.Mux.Handler.{
  Stack, Channel, recvfrom_call, recvfrom_answer, chain_payload, ok, callback, on_async_new_packet,
  answered,
}

-- A buffer whose payload starts at or before its end.
abbrev pub HasPayload : SocketBuffer → Type 0
HasPayload b = (begin : ℕ) × (b.user_payload_begin ≡ some begin) × (begin ≤ b.user_payload_end)

-- The bytes between the start and the end of each payload, one buffer after another.
abbrev pub bytes_of : List SocketBuffer → List ℕ
bytes_of [] = []
bytes_of (b ∷ bs) =
    (elim b.user_payload_begin [
      | none ↦ []
      | some begin ↦ take (b.user_payload_end - begin) (drop begin b.raw)
    ])
    ++ bytes_of bs

user_payload-some :
    (b : SocketBuffer)
    → HasPayload b
    → user_payload b
      ≡ some (elim b.user_payload_begin [
        | none ↦ []
        | some begin ↦ take (b.user_payload_end - begin) (drop begin b.raw)
      ])
unfolding user_payload
user_payload-some b (begin, e, le) = ground arith

pub chain_payload-bytes_of :
    (l : List SocketBuffer) → All HasPayload l → chain_payload l ≡ some (bytes_of l)
unfolding chain_payload
chain_payload-bytes_of [] h = refl
chain_payload-bytes_of (b ∷ bs) (h, hs) =
    rw (chain_payload, user_payload-some b h, chain_payload-bytes_of bs hs) refl

-- What a packet is answered with.
abbrev pub data_answer : Packet → Bool → Response
data_answer p require_addr = ok (
    Returning.recvfrom_ret (pos (length (bytes_of p.chain))) none (some (bytes_of p.chain))
      (if require_addr then some p.peer else none))

recvfrom_answer-some :
    (p : Packet) (r : Bool) → All HasPayload p.chain → recvfrom_answer p r ≡ some (data_answer p r)
unfolding recvfrom_answer
recvfrom_answer-some p r h = rw (recvfrom_answer, chain_payload-bytes_of p.chain h) refl

module _ {Q : Type 0} (ops : RecvQueue Q) (laws : QueueLaws ops) (garbage : TcpPcb) where
  -- With the queue empty, `recvfrom` on a nonblocking socket answers EAGAIN as a positive `ret` and
  -- changes nothing; on a blocking one it answers WAIT_NEXT and the socket waits, with the callback
  -- of its type.
  pub recvfrom_call_empty :
      (s : Stack) (c : Channel Q) (so : Socket Q) (r : Bool)
      → laws.contents so.recv_q ≡ []
      → recvfrom_call ops garbage s c so r ≡ (
          if so.nonblocking
          then some (s, c, ok (Returning.recvfrom_ret (pos 11) none none none))
          else some (
            s,
            record c {
              socket = some (record so {
                waiting = true;
                on_async_new_packet = some (callback ops garbage so.type r);
              });
            },
            record { retcode = some RetCode.wait_next; returning = Returning.not_set },
          ))
  unfolding recvfrom_call try_take_from_recv_q wait_for_packet
  recvfrom_call_empty s c so r e = elim (Option-cases (ops.try_dequeue so.recv_q)) [
    | inl n ↦ rw (recvfrom_call, try_take_from_recv_q, n) refl
    | inr ((p, q), n) ↦ absurd (ground (arith, e, laws.try_some so.recv_q p q n))
  ]

  -- With a packet in the queue whose buffers have payloads that start at or before their ends,
  -- `recvfrom` answers the first packet's bytes, their number, and the address if it was asked for,
  -- and the queue keeps the others; the callback of a waiting request does the same, but that of a
  -- TCP socket leaves out the address.
  pub recvfrom_call_packet :
      (s : Stack) (c : Channel Q) (so : Socket Q) (r : Bool) (p : Packet) (rest : List Packet)
      → laws.contents so.recv_q ≡ p ∷ rest
      → All HasPayload p.chain
      → (q : Q) × (laws.contents q ≡ rest)
        × (recvfrom_call ops garbage s c so r
            ≡ some (s, record c { socket = some (record so { recv_q = q }) }, data_answer p r))
        × (on_async_new_packet ops garbage (on_async_udp r) so
            ≡ answered (record so { recv_q = q }) (data_answer p r))
        × (on_async_new_packet ops garbage on_async_tcp so
            ≡ answered (record so { recv_q = q }) (data_answer p false))
  unfolding recvfrom_call on_async_new_packet try_take_from_recv_q
  recvfrom_call_packet s c so r p rest e h = elim (Option-cases (ops.try_dequeue so.recv_q)) [
    | inl n ↦ absurd (ground (arith, e, laws.try_none so.recv_q n))
    | inr ((p', q), n) ↦
        let both : p' ∷ laws.contents q ≡ p ∷ rest = sym (laws.try_some so.recv_q p' q n) ∙ e in
        let same : p ≡ p' = ground (arith, both) in
        let m : ops.try_dequeue so.recv_q ≡ some (p, q) = n ∙ ap (λ x. some (x, q)) (sym same) in
        (
          q,
          ground (arith, both),
          rw (recvfrom_call, try_take_from_recv_q, m, recvfrom_answer-some p r h) refl,
          rw (on_async_new_packet, try_take_from_recv_q, m, recvfrom_answer-some p r h) refl,
          rw (on_async_new_packet, try_take_from_recv_q, m, recvfrom_answer-some p false h) refl,
        )
  ]
