-- ===== src/Interface/Receiving.antt =====
-- The thread of Interface::start, with the stops of other threads between its steps.
use mu_quinet.Prelude.{
  ℕ, suc, Bool, Bool-cases, leb, ltb, ◌&&◌, map, take, take-append, ◌+◌, ◌≤◌, ◌≡◌, subst, refl, sym,
  ap, ap₂, ◌∙◌, inl, inr, List, [], ◌∷◌, ◌++◌, true, false, Option, none, some, Option-cases, arith,
  if◌then◌else◌, length,
}
use mathlib.Core.Option.{some-injective, none-ne-some}
use mathlib.Core.List.{append-nil, append_assoc}
use mu_quinet.Net.Buffer.{SocketBuffer, tun_rx}
use mu_quinet.Net.Headers.{ip_header}
use mu_quinet.Ip.Rx.{en_rx_que}
use mu_quinet.Daemon.{Daemon, stop, exit}

-- Before the test of `stopflag`, in the `read` of TunDevice::rx, after the loop.
pub data Phase : Type 0 where
  testing reading ended : Phase

pub record RxThread : Type 0 where
  pub daemon : Daemon
  pub phase : Phase
  pub rx_q : List SocketBuffer

pub data Event : Type 0 where
  tests : Event
  reads : (bytes rest : List ℕ) → Event
  read_fails : Event
  stops : Event

abbrev pub accepted : List ℕ → List ℕ → List SocketBuffer
accepted bytes rest = let b = tun_rx bytes rest (length bytes) in if en_rx_que b then b ∷ [] else []

-- An event that cannot come now has no result, and none comes once the process has ended.
unfoldable pub step_in : RxThread → Phase → Event → Option RxThread
unfolding tun_rx en_rx_que stop exit
step_in t phase Event.stops = some (record t { daemon = stop t.daemon })
step_in t Phase.testing Event.tests =
    some (record t { phase = if t.daemon.interface_stopped then Phase.ended else Phase.reading })
step_in t Phase.reading (Event.reads bytes rest) =
    some (record t { phase = Phase.testing; rx_q = t.rx_q ++ accepted bytes rest })
step_in t Phase.reading Event.read_fails = some (record t { daemon = exit false (stop t.daemon) })
step_in t _ _ = none

unfoldable pub step : RxThread → Event → Option RxThread
unfolding step_in
step t e = elim t.daemon.exited [ none ↦ step_in t t.phase e | some status ↦ none ]

unfoldable pub run : RxThread → List Event → Option RxThread
unfolding step
run t [] = some t
run t (e ∷ es) = elim (step t e) [ none ↦ none | some t' ↦ run t' es ]

-- The buffers of the reads that the IP layer takes, in order.
unfoldable pub accepted_of : List Event → List SocketBuffer
accepted_of [] = []
accepted_of (Event.reads bytes rest ∷ es) = accepted bytes rest ++ accepted_of es
accepted_of (e ∷ es) = accepted_of es

-- What one step does to the queue: nothing, or what a read brought.
step_in-rx_q :
    (t : RxThread) (phase : Phase) (e : Event) (t' : RxThread)
    → step_in t phase e ≡ some t'
    → t'.rx_q ≡ t.rx_q ++ accepted_of (e ∷ [])
unfolding step_in accepted_of
step_in-rx_q t phase Event.stops t' h =
    ap (λ x. x.rx_q) (sym (some-injective _ t' h)) ∙ sym (append-nil t.rx_q)
step_in-rx_q t Phase.testing Event.tests t' h =
    ap (λ x. x.rx_q) (sym (some-injective _ t' h)) ∙ sym (append-nil t.rx_q)
step_in-rx_q t Phase.reading (Event.reads bytes rest) t' h =
    ap (λ x. x.rx_q) (sym (some-injective _ t' h))
    ∙ ap (◌++◌ t.rx_q) (sym (append-nil (accepted bytes rest)))
step_in-rx_q t Phase.reading Event.read_fails t' h =
    ap (λ x. x.rx_q) (sym (some-injective _ t' h)) ∙ sym (append-nil t.rx_q)
step_in-rx_q t _ _ t' h = absurd (none-ne-some t' h)

step-rx_q :
    (t : RxThread) (e : Event) (t' : RxThread)
    → step t e ≡ some t'
    → t'.rx_q ≡ t.rx_q ++ accepted_of (e ∷ [])
unfolding step
step-rx_q t e t' h = elim (Option-cases t.daemon.exited) [
  | inl n ↦ step_in-rx_q t t.phase e t' (ground (arith, h, n))
  | inr (x, n) ↦ absurd (none-ne-some t' (ground (arith, h, n)))
]

accepted_of-cons :
    (e : Event) (es : List Event) → accepted_of (e ∷ es) ≡ accepted_of (e ∷ []) ++ accepted_of es
unfolding accepted_of
accepted_of-cons Event.tests es = refl
accepted_of-cons (Event.reads bytes rest) es =
    ap (λ l. l ++ accepted_of es) (sym (append-nil (accepted bytes rest)))
accepted_of-cons Event.read_fails es = refl
accepted_of-cons Event.stops es = refl

-- The queue after a run, buffer by buffer.
run-rx_q :
    (t : RxThread) (es : List Event) (t' : RxThread)
    → run t es ≡ some t'
    → t'.rx_q ≡ t.rx_q ++ accepted_of es
unfolding run accepted_of
run-rx_q t [] t' h = ap (λ x. x.rx_q) (sym (some-injective t t' h)) ∙ sym (append-nil t.rx_q)
run-rx_q t (e ∷ es) t' h = elim (Option-cases (step t e)) [
  | inl n ↦ absurd (none-ne-some t' (ground (arith, h, n)))
  | inr (u, n) ↦
      run-rx_q u es t' (ground (arith, h, n))
      ∙ ap (λ l. l ++ accepted_of es) (step-rx_q t e u n)
      ∙ append_assoc t.rx_q (accepted_of (e ∷ [])) (accepted_of es)
      ∙ ap (◌++◌ t.rx_q) (sym (accepted_of-cons e es))
]

-- The version in the first byte of a packet, its upper half, is 4.
abbrev pub is_version_4 : List ℕ → Bool
is_version_4 [] = false
is_version_4 (x ∷ l) = leb 64 x && ltb x 80

-- The packets of version 4 that the reads brought, as bytes, in order. A read of no bytes leaves what
-- the buffer held.
unfoldable pub packets_of : List Event → List (List ℕ)
packets_of [] = []
packets_of (Event.reads bytes rest ∷ es) =
    let later = packets_of es in if is_version_4 (bytes ++ rest) then bytes ∷ later else later
packets_of (e ∷ es) = packets_of es

-- The bytes from the start of a buffer to the end of its payload.
abbrev pub packet_in : SocketBuffer → List ℕ
packet_in b = take b.user_payload_end b.raw

en_rx_que-tun_rx :
    (bytes rest : List ℕ)
    → en_rx_que (tun_rx bytes rest (length bytes)) ≡ is_version_4 (bytes ++ rest)
unfolding en_rx_que tun_rx ip_header
en_rx_que-tun_rx [] [] = refl
en_rx_que-tun_rx [] (x ∷ rest) = ground arith
en_rx_que-tun_rx (x ∷ bytes) rest = ground arith

packet_in-tun_rx : (bytes rest : List ℕ) → packet_in (tun_rx bytes rest (length bytes)) ≡ bytes
unfolding tun_rx
packet_in-tun_rx bytes rest = take-append bytes rest

packets_of-accepted_of : (es : List Event) → map packet_in (accepted_of es) ≡ packets_of es
unfolding accepted_of packets_of
packets_of-accepted_of [] = refl
packets_of-accepted_of (Event.reads bytes rest ∷ es) =
    elim (Bool-cases (is_version_4 (bytes ++ rest))) [
      | inl q ↦
          rw (accepted, en_rx_que-tun_rx bytes rest, q)
            (ap₂ (◌∷◌) (packet_in-tun_rx bytes rest) (packets_of-accepted_of es))
      | inr q ↦ rw (accepted, en_rx_que-tun_rx bytes rest, q) (packets_of-accepted_of es)
    ]
packets_of-accepted_of (Event.tests ∷ es) = packets_of-accepted_of es
packets_of-accepted_of (Event.read_fails ∷ es) = packets_of-accepted_of es
packets_of-accepted_of (Event.stops ∷ es) = packets_of-accepted_of es

-- However the stops of other threads fall between the steps of the receiving thread, the buffers that
-- join the queue of the IP layer hold, from their start to the end of the payload, exactly the packets
-- that the reads brought whose first byte says version 4, in order.
pub run-packets_of :
    (t : RxThread) (es : List Event) (t' : RxThread)
    → run t es ≡ some t'
    → (new : List SocketBuffer) × (t'.rx_q ≡ t.rx_q ++ new) × (map packet_in new ≡ packets_of es)
run-packets_of t es t' h = (accepted_of es, run-rx_q t es t' h, packets_of-accepted_of es)

-- How many more reads a stopped thread can end with.
abbrev left : Phase → ℕ
left Phase.testing = 0
left Phase.reading = 1
left Phase.ended = 0

unfoldable pub count_reads : List Event → ℕ
count_reads [] = 0
count_reads (Event.reads bytes rest ∷ es) = suc (count_reads es)
count_reads (e ∷ es) = count_reads es

-- A step of a stopped thread: it stays stopped, and a read uses up what is left.
step_in-stopped :
    (t : RxThread) (phase : Phase) (e : Event) (t' : RxThread)
    → t.daemon.interface_stopped ≡ true
    → step_in t phase e ≡ some t'
    → (t.phase ≡ phase)
    → (t'.daemon.interface_stopped ≡ true) × (count_reads (e ∷ []) + left t'.phase ≤ left phase)
unfolding step_in count_reads stop exit
step_in-stopped t phase Event.stops t' s h p =
    let same : record t { daemon = stop t.daemon } ≡ t' = some-injective _ t' h in
    subst (λ x. (x.daemon.interface_stopped ≡ true) × (0 + left x.phase ≤ left phase)) same
      (refl, rw p (omega arith))
step_in-stopped t Phase.testing Event.tests t' s h p =
    subst (λ x. (x.daemon.interface_stopped ≡ true) × (0 + left x.phase ≤ 0))
      (some-injective _ t' h) (s, rw s (omega arith))
step_in-stopped t Phase.reading (Event.reads bytes rest) t' s h p =
    subst (λ x. (x.daemon.interface_stopped ≡ true) × (1 + left x.phase ≤ 1))
      (some-injective _ t' h) (s, omega arith)
step_in-stopped t Phase.reading Event.read_fails t' s h p =
    subst (λ x. (x.daemon.interface_stopped ≡ true) × (0 + left x.phase ≤ 1))
      (some-injective _ t' h) (ground (arith, s), rw p (omega arith))
step_in-stopped t _ _ t' s h p = absurd (none-ne-some t' h)

counted :
    (e : Event) (es : List Event) → count_reads (e ∷ es) ≡ count_reads (e ∷ []) + count_reads es
unfolding count_reads
counted Event.tests es = omega arith
counted (Event.reads bytes rest) es = omega arith
counted Event.read_fails es = omega arith
counted Event.stops es = omega arith

-- Once the layer is stopped, the receiving thread takes no packet if it is before its test of the flag
-- or has ended, and one more at most if it is in its read.
pub run-stopped :
    (t : RxThread) (es : List Event) (t' : RxThread)
    → t.daemon.interface_stopped ≡ true
    → run t es ≡ some t'
    → count_reads es ≤ left t.phase
unfolding run step count_reads
run-stopped t [] t' s h = omega arith
run-stopped t (e ∷ es) t' s h = elim (Option-cases (step t e)) [
  | inl n ↦ absurd (none-ne-some t' (ground (arith, h, n)))
  | inr (u, n) ↦ elim (Option-cases t.daemon.exited) [
    | inr (x, z) ↦ absurd (none-ne-some u (ground (arith, n, z)))
    | inl z ↦
        let (s', k) = step_in-stopped t t.phase e u s (ground (arith, n, z)) refl in
        let r = run-stopped u es t' s' (ground (arith, h, n)) in omega (arith, k, r, counted e es)
  ]
]
