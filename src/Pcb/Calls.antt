-- ===== src/Pcb/Calls.antt =====
-- What the calls of the base class leave alone.
use mu_quinet.Prelude.{ℕ, ◌^◌, ◌+◌, ◌<◌, ◌≡◌, ◌≢◌, arith, u16, swap16-lt}
use mu_quinet.Pcb.{Pcb, bind, connect, send, send_to, e_not_conn}

-- Every field is in the range of its type.
pub record PcbFits (p : Pcb) : Type 0 where
  pub faddr : p.faddr < 2 ^ 32
  pub fport : p.fport < 2 ^ 16
  pub laddr : p.laddr < 2 ^ 32
  pub lport : p.lport < 2 ^ 16

-- `q` is `p` with a local port if `p` had none.
pub record IsBound (p q : Pcb) : Type 0 where
  pub laddr : q.laddr ≡ p.laddr
  pub faddr : q.faddr ≡ p.faddr
  pub fport : q.fport ≡ p.fport
  pub lport : p.lport ≢ 0 → q.lport ≡ p.lport

pub send-IsBound : (port : ℕ) (p : Pcb) → IsBound p (send port p).1
unfolding send bind
send-IsBound port p = ground arith

pub send_to-IsBound : (port : ℕ) (p : Pcb) → IsBound p (send_to port p).1
unfolding send_to bind
send_to-IsBound port p = ground arith

pub connect-IsBound :
    (port : ℕ) (p : Pcb) (faddr fport : ℕ)
    → IsBound (record p { faddr = faddr; fport = fport }) (connect port p faddr fport).1
unfolding connect bind
connect-IsBound port p faddr fport = ground arith

pub send-PcbFits : (port : ℕ) (p : Pcb) → PcbFits p → PcbFits (send port p).1
unfolding send bind
send-PcbFits port p f = ground (arith, swap16-lt (u16 (port + 1)))

pub send_to-PcbFits : (port : ℕ) (p : Pcb) → PcbFits p → PcbFits (send_to port p).1
unfolding send_to bind
send_to-PcbFits port p f = ground (arith, swap16-lt (u16 (port + 1)))

pub connect-PcbFits :
    (port : ℕ) (p : Pcb) (faddr fport : ℕ)
    → PcbFits p
    → faddr < 2 ^ 32
    → fport < 2 ^ 16
    → PcbFits (connect port p faddr fport).1
unfolding connect bind
connect-PcbFits port p faddr fport f a b = ground (arith, swap16-lt (u16 (port + 1)))

-- A block with no peer is reported as not connected.
pub send_not_connected : (port : ℕ) (p : Pcb) → p.fport ≡ 0 → (send port p).2 ≡ e_not_conn
unfolding send bind
send_not_connected port p h = ground arith
