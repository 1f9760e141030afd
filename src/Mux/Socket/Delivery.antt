-- ===== src/Mux/Socket/Delivery.antt =====
-- The receive path of a socket under every interleaving of the thread that receives packets with the
-- event loop, which runs the requests and the callback of the notification pipe. An arrival is one
-- step: nothing of the event loop runs between the test of the size, the enqueue and the write.
use mathlib.Core.Option.{some-injective, none-ne-some}
use mathlib.Core.List.{append_assoc}
use mu_quinet.Prelude.{
  suc, ◌≤◌, ◌≡◌, ◌≢◌, refl, sym, ap, ◌∙◌, subst, List, [], ◌∷◌, ◌++◌, true, false, Bool-cases, inl,
  inr, Option, none, some, Option-cases, arith, length, length-append, ltb, if◌then◌else◌,
}
use mu_quinet.Mux.Socket.{
  Socket, Packet, RecvQueue, QueueLaws, Callback, recv_q_limit, put_to_recv_q, try_take_from_recv_q,
  wait_for_packet, drain_pipe, pending_callback, stop_waiting,
}

-- Where the event loop is in `sChannelReadCb`: outside, past the read of the pipe, past the callback.
pub data Phase : Type 0 where
  idle drained called : Phase

-- The socket, with the packets that its queue accepted and those that requests were answered with,
-- oldest first.
pub record World (Q : Type 0) : Type 0 where
  pub so : Socket Q
  pub phase : Phase
  pub accepted : List Packet
  pub delivered : List Packet

pub data Event : Type 0 where
  put : Packet → Event
  recvfrom : Callback → Event
  read_pipe run_callback leave : Event

module _ {Q : Type 0} (ops : RecvQueue Q) where
  abbrev taken : World Q → Phase → Option (Packet × Socket Q) → Option (World Q)
  taken w ph none = none
  taken w ph (some (p, so)) =
      some (record w { so = so; phase = ph; delivered = w.delivered ++ p ∷ [] })

  abbrev accept : World Q → Packet → List Packet
  accept w p =
      if ltb recv_q_limit (ops.size_approx w.so.recv_q) then w.accepted else w.accepted ++ p ∷ []

  abbrev refused : World Q → Callback → Option (World Q) → Option (World Q)
  refused w cb (some w') = some w'
  refused w cb none =
      if w.so.nonblocking then some w else some (record w { so = wait_for_packet ops cb w.so })

  -- `none`: the event loop is not there, or is blocked.
  unfoldable pub step_in : Phase → World Q → Event → Option (World Q)
  unfolding put_to_recv_q try_take_from_recv_q wait_for_packet drain_pipe pending_callback
      stop_waiting
  step_in ph w (put p) = some (record w { so = put_to_recv_q ops p w.so; accepted = accept w p })
  step_in Phase.idle w (recvfrom cb) =
      refused w cb (taken w Phase.idle (try_take_from_recv_q ops w.so))
  step_in Phase.idle w read_pipe =
      if w.so.readable
      then some (record w { so = drain_pipe ops w.so; phase = Phase.drained })
      else none
  step_in Phase.drained w run_callback = elim (pending_callback ops w.so) [
    | none ↦ some (record w { so = stop_waiting ops w.so; phase = Phase.idle })
    | some cb ↦ taken w Phase.called (try_take_from_recv_q ops w.so)
  ]
  step_in Phase.called w leave = some (record w { so = stop_waiting ops w.so; phase = Phase.idle })
  step_in _ w e = none

  unfoldable pub step : World Q → Event → Option (World Q)
  unfolding step_in
  step w e = step_in w.phase w e

  pub data Reach (start : World Q) : World Q → Type 0 where
    here : Reach start start
    next : {w w' : World Q} (e : Event) → Reach start w → step w e ≡ some w' → Reach start w'

  module _ (laws : QueueLaws ops) where
    abbrev pub waiting_in : World Q → List Packet
    waiting_in w = laws.contents w.so.recv_q

    -- Nothing accepted is lost, doubled or reordered; the queue holds at most 129; and a request that
    -- waits while a packet is there has the pipe to wake it, once the event loop is out of the
    -- callback.
    pub record IsValid (w : World Q) : Type 0 where
      pub fifo : w.accepted ≡ w.delivered ++ waiting_in w
      pub small : length (waiting_in w) ≤ suc recv_q_limit
      pub wakes :
          w.phase ≡ Phase.idle → w.so.waiting ≡ true → w.so.readable ≡ false → waiting_in w ≡ []

    abbrev Keeps : Phase → Event → Type 0
    Keeps ph e = (w w' : World Q) → w.phase ≡ ph → IsValid w → step_in ph w e ≡ some w' → IsValid w'

    put_dropped :
        (w : World Q) (p : Packet)
        → ltb recv_q_limit (ops.size_approx w.so.recv_q) ≡ true
        → IsValid w
        → IsValid (record w { so = put_to_recv_q ops p w.so; accepted = accept w p })
    unfolding put_to_recv_q
    put_dropped w p e v = rw e v

    put_accepted :
        (w : World Q) (p : Packet)
        → ltb recv_q_limit (ops.size_approx w.so.recv_q) ≡ false
        → IsValid w
        → IsValid (record w { so = put_to_recv_q ops p w.so; accepted = accept w p })
    unfolding put_to_recv_q
    put_accepted w p e v =
        let q = w.so.recv_q in
        rw e (record {
          fifo =
              ap (λ l. l ++ p ∷ []) v.fifo
              ∙ append_assoc w.delivered (laws.contents q) (p ∷ [])
              ∙ ap (λ l. w.delivered ++ l) (sym (laws.contents_enqueue p q));
          small = ground (
            arith,
            laws.contents_enqueue p q,
            laws.size q,
            e,
            length-append (laws.contents q) (p ∷ []),
          );
          wakes = λ i a r. absurd (ground arith);
        })

    put-IsValid :
        (w : World Q) (p : Packet)
        → IsValid w
        → IsValid (record w { so = put_to_recv_q ops p w.so; accepted = accept w p })
    put-IsValid w p v = elim (Bool-cases (ltb recv_q_limit (ops.size_approx w.so.recv_q))) [
      | inl e ↦ put_dropped w p e v
      | inr e ↦ put_accepted w p e v
    ]

    took :
        (w : World Q) (ph : Phase) (p : Packet) (q : Q)
        → (ph ≡ Phase.idle → w.phase ≡ Phase.idle)
        → IsValid w
        → ops.try_dequeue w.so.recv_q ≡ some (p, q)
        → IsValid (record w {
          so = record w.so { recv_q = q };
          phase = ph;
          delivered = w.delivered ++ p ∷ [];
        })
    took w ph p q k v e =
        let c = laws.try_some w.so.recv_q p q e in
        record {
          fifo =
              v.fifo
              ∙ ap (λ l. w.delivered ++ l) c
              ∙ sym (append_assoc w.delivered (p ∷ []) (laws.contents q));
          small = ground (arith, v.small, c);
          wakes = λ i a r. absurd (ground (arith, v.wakes (k i) a r, c));
        }

    -- Taking a packet keeps a world valid.
    taken-IsValid :
        (w w' : World Q) (ph : Phase)
        → (ph ≡ Phase.idle → w.phase ≡ Phase.idle)
        → IsValid w
        → taken w ph (try_take_from_recv_q ops w.so) ≡ some w'
        → IsValid w'
    unfolding try_take_from_recv_q
    taken-IsValid w w' ph k v e = elim (Option-cases (ops.try_dequeue w.so.recv_q)) [
      | inl n ↦ absurd (ground (arith, e, n))
      | inr ((p, q), n) ↦ subst IsValid (ground (arith, e, n)) (took w ph p q k v n)
    ]

    refused-IsValid :
        (w w' : World Q) (cb : Callback)
        → ops.try_dequeue w.so.recv_q ≡ none
        → IsValid w
        → refused w cb none ≡ some w'
        → IsValid w'
    unfolding wait_for_packet
    refused-IsValid w w' cb n v e = elim (Bool-cases w.so.nonblocking) [
      | inl b ↦ subst IsValid (ground (arith, e, b)) v
      | inr b ↦
          let x : World Q = record w { so = wait_for_packet ops cb w.so } in
          let k : IsValid x = record {
            fifo = v.fifo;
            small = v.small;
            wakes = λ _ _ _. laws.try_none w.so.recv_q n;
          } in
          subst IsValid (ground (arith, e, b)) k
    ]

    recvfrom-IsValid : (cb : Callback) → Keeps Phase.idle (recvfrom cb)
    unfolding step_in try_take_from_recv_q
    recvfrom-IsValid cb w w' i v e = elim (Option-cases (ops.try_dequeue w.so.recv_q)) [
      | inl n ↦ refused-IsValid w w' cb n v (ground (arith, e, n))
      | inr (r, n) ↦ taken-IsValid w w' Phase.idle (λ _. i) v (ground (arith, e, n))
    ]

    leaves :
        (w : World Q)
        → IsValid w
        → IsValid (record w { so = stop_waiting ops w.so; phase = Phase.idle })
    unfolding stop_waiting
    leaves w v = record { fifo = v.fifo; small = v.small; wakes = λ _ a _. absurd (ground arith) }

    read_pipe-IsValid : Keeps Phase.idle read_pipe
    unfolding step_in drain_pipe
    read_pipe-IsValid w w' i v e = elim (Bool-cases w.so.readable) [
      | inr b ↦ absurd (ground (arith, e, b))
      | inl b ↦
          let x : World Q = record w { so = drain_pipe ops w.so; phase = Phase.drained } in
          let k : IsValid x = record {
            fifo = v.fifo;
            small = v.small;
            wakes = λ a _ _. absurd (ground arith);
          } in
          subst IsValid (ground (arith, e, b)) k
    ]

    run_callback-IsValid : Keeps Phase.drained run_callback
    unfolding step_in
    run_callback-IsValid w w' i v e = elim (Option-cases (pending_callback ops w.so)) [
      | inl n ↦ subst IsValid (ground (arith, e, n)) (leaves w v)
      | inr (cb, n) ↦
          taken-IsValid w w' Phase.called (λ a. absurd (ground arith)) v (ground (arith, e, n))
    ]

    step_in-IsValid : (ph : Phase) (e : Event) → Keeps ph e
    unfolding step_in
    step_in-IsValid ph (put p) w w' i v e = subst IsValid (some-injective _ _ e) (put-IsValid w p v)
    step_in-IsValid Phase.idle (recvfrom cb) w w' i v e = recvfrom-IsValid cb w w' i v e
    step_in-IsValid Phase.idle read_pipe w w' i v e = read_pipe-IsValid w w' i v e
    step_in-IsValid Phase.drained run_callback w w' i v e = run_callback-IsValid w w' i v e
    step_in-IsValid Phase.called leave w w' i v e =
        subst IsValid (some-injective _ _ e) (leaves w v)
    step_in-IsValid Phase.idle run_callback w w' i v e = absurd (none-ne-some _ e)
    step_in-IsValid Phase.idle leave w w' i v e = absurd (none-ne-some _ e)
    step_in-IsValid Phase.drained (recvfrom cb) w w' i v e = absurd (none-ne-some _ e)
    step_in-IsValid Phase.drained read_pipe w w' i v e = absurd (none-ne-some _ e)
    step_in-IsValid Phase.drained leave w w' i v e = absurd (none-ne-some _ e)
    step_in-IsValid Phase.called (recvfrom cb) w w' i v e = absurd (none-ne-some _ e)
    step_in-IsValid Phase.called read_pipe w w' i v e = absurd (none-ne-some _ e)
    step_in-IsValid Phase.called run_callback w w' i v e = absurd (none-ne-some _ e)

    -- In every world that a valid one leads to, by any interleaving of arriving packets, each as one
    -- step, requests and the parts of the callback: what was delivered and then what waits in the queue is what the
    -- queue accepted, in order; at most 129 wait; and if the event loop is outside the callback and
    -- a request waits with a packet there, the pipe is readable.
    pub Reach-IsValid : {start w : World Q} → IsValid start → Reach start w → IsValid w
    unfolding step
    Reach-IsValid v here = v
    Reach-IsValid v (next {w} {w'} e r s) =
        step_in-IsValid w.phase e w w' refl (Reach-IsValid v r) s

  -- The event loop has read the pipe and stands in `wait_dequeue` on an empty queue.
  pub record Blocked (w : World Q) : Type 0 where
    pub drained : w.phase ≡ Phase.drained
    pub callback : pending_callback ops w.so ≢ none
    pub empty : try_take_from_recv_q ops w.so ≡ none
