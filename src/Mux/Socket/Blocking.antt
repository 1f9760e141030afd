-- ===== src/Mux/Socket/Blocking.antt =====
-- A wake-up with nothing to wake for.
use mu_quinet.Prelude.{
  ◌≡◌, refl, ap, sym, ◌∙◌, [], ◌∷◌, ◌++◌, true, false, none, some, Option-cases, inl, inr, arith,
}
use mathlib.Core.Option.{none-ne-some}
use mu_quinet.Mux.Socket.{
  SocketType, PcbRef, Packet, RecvQueue, QueueLaws, Callback, new_socket, put_to_recv_q,
  try_take_from_recv_q, wait_for_packet, drain_pipe, pending_callback,
}
use mu_quinet.Mux.Socket.Delivery.{World, Phase, Event, step, step_in, Blocked}

module _ {Q : Type 0} (ops : RecvQueue Q) (laws : QueueLaws ops) (t : SocketType)
    (pcb : PcbRef) where
  -- A new blocking socket, the event loop outside the callback.
  abbrev pub fresh : World Q
  fresh = record {
    so = new_socket ops t false pcb;
    phase = Phase.idle;
    accepted = [];
    delivered = [];
  }

  arrived : Packet → World Q
  arrived p = record fresh {
    so = record (new_socket ops t false pcb) { recv_q = ops.enqueue p ops.empty; readable = true };
    accepted = p ∷ [];
  }

  arrives : (p : Packet) → step ops fresh (Event.put p) ≡ some (arrived p)
  unfolding step step_in put_to_recv_q new_socket arrived
  arrives p = ground (arith, laws.size ops.empty, laws.contents_empty)

  taken : Packet → Packet → Q → World Q
  taken p p' q = record (arrived p) {
    so = record (arrived p).so { recv_q = q };
    delivered = p' ∷ [];
  }

  takes :
      (p p' : Packet) (q : Q) (cb : Callback)
      → ops.try_dequeue (ops.enqueue p ops.empty) ≡ some (p', q)
      → step ops (arrived p) (Event.recvfrom cb) ≡ some (taken p p' q)
  unfolding step step_in try_take_from_recv_q new_socket arrived taken
  takes p p' q cb e = ground (arith, e)

  waiting : Packet → Packet → Q → Callback → World Q
  waiting p p' q cb = record (taken p p' q) { so = wait_for_packet ops cb (taken p p' q).so }

  waits :
      (p p' : Packet) (q : Q) (cb : Callback)
      → ops.try_dequeue q ≡ none
      → step ops (taken p p' q) (Event.recvfrom cb) ≡ some (waiting p p' q cb)
  unfolding step step_in try_take_from_recv_q new_socket arrived taken waiting
  waits p p' q cb e = ground (arith, e)

  woken : Packet → Packet → Q → Callback → World Q
  woken p p' q cb = record (waiting p p' q cb) {
    so = drain_pipe ops (waiting p p' q cb).so;
    phase = Phase.drained;
  }

  wakes :
      (p p' : Packet) (q : Q) (cb : Callback)
      → step ops (waiting p p' q cb) Event.read_pipe ≡ some (woken p p' q cb)
  unfolding step step_in new_socket arrived taken waiting woken wait_for_packet
  wakes p p' q cb = refl

  woken-Blocked :
      (p p' : Packet) (q : Q) (cb : Callback)
      → ops.try_dequeue q ≡ none
      → Blocked ops (woken p p' q cb)
  unfolding new_socket arrived taken waiting woken wait_for_packet drain_pipe pending_callback
      try_take_from_recv_q
  woken-Blocked p p' q cb e = record {
    drained = refl;
    callback = λ x. none-ne-some _ (sym x);
    empty = ground (arith, e);
  }

  -- One packet and two requests, with the worlds between them.
  pub record Misses (p : Packet) (cb : Callback) : Type 0 where
    pub queued : World Q
    pub answered : World Q
    pub waiting : World Q
    pub woken : World Q
    pub arrival : step ops fresh (Event.put p) ≡ some queued
    -- The first request takes the packet, and the packet's byte stays in the pipe.
    pub first : step ops queued (Event.recvfrom cb) ≡ some answered
    pub delivered : answered.delivered ≡ p ∷ []
    pub left : answered.so.readable ≡ true
    -- The second request waits, with that byte still there.
    pub second : step ops answered (Event.recvfrom cb) ≡ some waiting
    pub waits : waiting.so.waiting ≡ true
    pub still : waiting.so.readable ≡ true
    -- The byte wakes the event loop, whose callback takes from an empty queue.
    pub wake_up : step ops waiting Event.read_pipe ≡ some woken
    pub blocked : Blocked ops woken

  -- From a new blocking socket, any packet and two requests with any callback lead to an event loop
  -- that is blocked: the first request takes the packet but leaves its byte in the pipe, the second
  -- waits, and that byte wakes it to take from an empty queue.
  pub fresh-Misses : (p : Packet) (cb : Callback) → Misses p cb
  unfolding arrived taken waiting wait_for_packet new_socket
  fresh-Misses p cb =
      let c = laws.contents_enqueue p ops.empty ∙ ap (λ l. l ++ p ∷ []) laws.contents_empty in
      elim (Option-cases (ops.try_dequeue (ops.enqueue p ops.empty))) [
        | inl e ↦ absurd (ground (arith, laws.try_none _ e, c))
        | inr ((p', q), e) ↦
            let rest : laws.contents q ≡ [] = ground (arith, laws.try_some _ p' q e, c) in
            let same : p' ∷ [] ≡ p ∷ [] = ground (arith, laws.try_some _ p' q e, c) in
            elim (Option-cases (ops.try_dequeue q)) [
              | inr ((p2, q2), f) ↦ absurd (ground (arith, laws.try_some q p2 q2 f, rest))
              | inl f ↦ record {
                queued = arrived p;
                answered = taken p p' q;
                waiting = waiting p p' q cb;
                woken = woken p p' q cb;
                arrival = arrives p;
                first = takes p p' q cb e;
                delivered = same;
                left = refl;
                second = waits p p' q cb f;
                waits = refl;
                still = refl;
                wake_up = wakes p p' q cb;
                blocked = woken-Blocked p p' q cb f;
              }
            ]
      ]
