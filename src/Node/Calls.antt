-- ===== src/Node/Calls.antt =====
-- The calls of a process, when they are answered.
use mu_quinet.Prelude.{
  ℕ, ◌≡◌, ◌≢◌, refl, ap₂, List, [], ◌∷◌, true, Option, none, some, arith, ne→==, length, pos,
}
use mu_quinet.Net.Buffer.{SocketBuffer}
use mu_quinet.Pcb.{Pcb, Flow}
use mu_quinet.Pcb.Calls.{IsBound}
use mu_quinet.Mux.Rpc.{SockAddr, Calling, Request, Returning}
use mu_quinet.Mux.Handler.{ok}
use mu_quinet.Mux.Handler.Receiving.{bytes_of}
use mu_quinet.Interceptor.{GlibcFunc, Interceptor, is_assigned_by_muquinet, fd2channel}
use mu_quinet.Interceptor.Recv.{ReadResult}
use mu_quinet.Interceptor.Calls.{Outcome, Ret, Effect, sendto, sendto_reply, ret_and_errno}
use mu_quinet.Interceptor.Replies.{intercept_answered, data_ret}

pub sendto_answered :
    (i : Interceptor) (pid fd ch flags n : ℕ) (buf : List ℕ) (dest : Option SockAddr)
    → is_assigned_by_muquinet i fd ≡ true
    → fd2channel i fd ≡ some ch
    → length buf ≢ 0
    → sendto i pid fd buf flags dest
        (ReadResult.message (ok (Returning.sendto_ret (pos n) none)) ∷ [])
      ≡ record {
        after = i;
        sent = (ch, record { pid = pid; calling = Calling.sendto_call buf flags dest }) ∷ [];
        outcome =
            Outcome.returned (record { ret = pos n; errno = none; written = []; addr = none });
      }
unfolding sendto sendto_reply ret_and_errno
sendto_answered i pid fd ch flags n buf dest a c ne = ground (
  arith,
  a,
  ne→== (length buf) 0 ne,
  intercept_answered GlibcFunc.sendto i fd ch
      (record { pid = pid; calling = Calling.sendto_call buf flags dest })
      (ok (Returning.sendto_ret (pos n) none)) sendto_reply a c refl,
)

pub found-from :
    (p : Pcb) (dest : SockAddr) (q : Pcb)
    → IsBound (record p { faddr = dest.addr; fport = dest.port }) q
    → (search : Flow → Option ℕ) (b : ℕ)
    → search (record { faddr = p.laddr; fport = q.lport; laddr = dest.addr; lport = dest.port })
      ≡ some b
    → search (record { faddr = q.laddr; fport = q.lport; laddr = q.faddr; lport = q.fport })
      ≡ some b
found-from p dest q bound search b e = rw (bound.laddr, bound.faddr, bound.fport) e

-- A call that sends these requests and returns.
abbrev pub returns : Interceptor → List (ℕ × Request) → Ret → Effect
returns i sent r = record { after = i; sent = sent; outcome = Outcome.returned r }

pub data_ret-peer :
    (i : Interceptor) (sent : List (ℕ × Request)) (buf : List ℕ) (b : SocketBuffer)
    (port addr addr' : ℕ)
    → bytes_of (b ∷ []) ≡ buf
    → addr ≡ addr'
    → returns i sent (
        data_ret
          (record { peer = record { family = 2; port = port; addr = addr }; chain = b ∷ [] })
          true)
      ≡ returns i sent (record {
        ret = pos (length buf);
        errno = none;
        written = buf;
        addr = some (record { family = 2; port = port; addr = addr' });
      })
data_ret-peer i sent buf b port addr addr' e f =
    ap₂
      (λ l a. returns i sent (record {
        ret = pos (length l);
        errno = none;
        written = l;
        addr = some (record { family = 2; port = port; addr = a });
      }))
      e f

-- A process, its descriptor, and the channel that the descriptor has there.
pub record Process : Type 0 where
  pub interceptor : Interceptor
  pub pid : ℕ
  pub fd : ℕ
  pub connfd : ℕ

pub record IsReady (p : Process) : Type 0 where
  pub assigned : is_assigned_by_muquinet p.interceptor p.fd ≡ true
  pub channel : fd2channel p.interceptor p.fd ≡ some p.connfd
