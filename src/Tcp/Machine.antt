-- ===== src/Tcp/Machine.antt =====
-- The life of a TCP block: the calls of the socket layer and the segments that arrive, in any
-- order, and the states that they lead through.
pub mod Handshake
pub mod Stream
use mu_quinet.Prelude.{
  ℕ, ◌≡◌, refl, sym, ap, ◌∙◌, subst, subst₂, ◌⊎◌, inl, inr, List, [], ◌∷◌, Option, none, some,
  arith, Bool, true, false, Option-cases,
}
use mu_quinet.Net.Buffer.{SocketBuffer}
use mathlib.Core.Option.{some-injective}
use mu_quinet.Net.Headers.{TcpHeader}
use mu_quinet.Ip.Tx.{Out}
use mu_quinet.Tcp.{
  TcpState, TcpPcb, Handled, send_in, recv_from, recv_in, recv_syn_sent, recv_established,
  send_closed, send_established, establish, acked, set_on_conn_estab_cb, connect, send, recv,
}

pub data Event : Type 0 where
  sets_callback : Event
  connects : ℕ → ℕ → Event
  sends : List ℕ → Event
  receives : SocketBuffer → Event

pub record World : Type 0 where
  pub out : Out
  pub block : TcpPcb

abbrev handled : Option Handled → Option World
handled none = none
handled (some h) = some (record { out = h.out; block = h.block })

-- `none` is an abort.
unfoldable pub step : World → Event → Option World
step w sets_callback = some (record w { block = set_on_conn_estab_cb w.block })
step w (connects faddr fport) =
    let (o, p) = connect w.out w.block faddr fport in some (record { out = o; block = p })
step w (sends buf) = let (o, p, _) = send w.out w.block buf in some (record { out = o; block = p })
step w (receives skbuf) = handled (recv w.out w.block skbuf)

infix 40 ◌⟶◌
-- The transition diagram of the client.
pub data ◌⟶◌ : TcpState → TcpState → Type 0 where
  stay : {s : TcpState} → s ⟶ s
  syn : TcpState.closed ⟶ TcpState.syn_sent
  estab : TcpState.syn_sent ⟶ TcpState.established

-- The diagram by equations.
abbrev Edge : TcpState → TcpState → Type 0
Edge s t =
    (t ≡ s)
    ⊎ ((s ≡ TcpState.closed) × (t ≡ TcpState.syn_sent))
    ⊎ ((s ≡ TcpState.syn_sent) × (t ≡ TcpState.established))

send-Edge : (o : Out) (p : TcpPcb) (buf : List ℕ) → Edge p.conn_state (send o p buf).1.conn_state
unfolding send send_in send_closed send_established
send-Edge o p buf = ground arith

recv-Edge :
    (o : Out) (p : TcpPcb) (b : SocketBuffer) (r : Handled)
    → recv o p b ≡ some r
    → Edge p.conn_state r.block.conn_state
unfolding recv recv_from recv_in recv_syn_sent recv_established establish acked
recv-Edge o p b r h = ground arith

connect-Edge :
    (o : Out) (p : TcpPcb) (faddr fport : ℕ)
    → Edge p.conn_state (connect o p faddr fport).1.conn_state
unfolding connect
connect-Edge o p faddr fport = send-Edge _ _ []

step-Edge :
    (w : World) (e : Event) (w' : World)
    → step w e ≡ some w'
    → Edge w.block.conn_state w'.block.conn_state
unfolding step set_on_conn_estab_cb
step-Edge w sets_callback w' h = ground arith
step-Edge w (connects faddr fport) w' h = ground (arith, connect-Edge w.out w.block faddr fport)
step-Edge w (sends buf) w' h = ground (arith, send-Edge w.out w.block buf)
step-Edge w (receives skbuf) w' h = elim (Option-cases (recv w.out w.block skbuf)) [
  | inl e ↦ absurd (ground arith)
  | inr (r, e) ↦ ground (arith, recv-Edge w.out w.block skbuf r e)
]

Edge-⟶ : {s t : TcpState} → Edge s t → s ⟶ t
Edge-⟶ {s} (inl e) = subst (λ t. s ⟶ t) (sym e) stay
Edge-⟶ (inr (inl (a, b))) = subst₂ ◌⟶◌ (sym a) (sym b) syn
Edge-⟶ (inr (inr (a, b))) = subst₂ ◌⟶◌ (sym a) (sym b) estab

-- A call or a segment moves the block along an edge of the diagram, or aborts.
pub step_⟶ :
    (w : World) (e : Event) (w' : World)
    → step w e ≡ some w'
    → w.block.conn_state ⟶ w'.block.conn_state
step_⟶ w e w' h = Edge-⟶ (step-Edge w e w' h)

-- What a sequence of events leads to, from a new block.
pub data Reach (start : World) : World → Type 0 where
  here : Reach start start
  next : {w w' : World} (e : Event) → Reach start w → step w e ≡ some w' → Reach start w'

-- A block that starts closed is only ever closed, waiting for the SYN's answer, or established: the
-- states of a server, and of closing a connection, are never entered.
pub Reach-client :
    {start w : World}
    → start.block.conn_state ≡ TcpState.closed
    → Reach start w
    → (w.block.conn_state ≡ TcpState.closed)
      ⊎ (w.block.conn_state ≡ TcpState.syn_sent)
      ⊎ (w.block.conn_state ≡ TcpState.established)
Reach-client h here = inl h
Reach-client h (next {w} {w'} e r s) =
    let before = Reach-client h r in let edge = step-Edge w e w' s in ground arith

-- Once established, always established: no call and no segment, a FIN or RST included, ends it.
pub established_stays :
    {start w : World}
    → start.block.conn_state ≡ TcpState.established
    → Reach start w
    → w.block.conn_state ≡ TcpState.established
established_stays h here = h
established_stays h (next {w} {w'} e r s) =
    let before = established_stays h r in let edge = step-Edge w e w' s in ground arith
