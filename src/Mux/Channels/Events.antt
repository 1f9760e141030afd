-- ===== src/Mux/Channels/Events.antt =====
-- The events of Mux on its channels: a new connection, `socketCall`, and the end of a connection.
use mu_quinet.Prelude.{
  ℕ, ◌≡◌, refl, List, [], ◌∷◌, ◌++◌, true, false, Bool-cases, inl, inr, Option, none, some,
  Option-cases, arith,
}
use mu_quinet.Mux.Loop.{SelectableChannel, Epoll, EpollLaws, EventLoop, has_channel}
use mu_quinet.Mux.Loop.Agrees.{Agrees, Nodup}
use mu_quinet.Mux.Channels.{
  ReqRespChannel, Mux, Pipes, udp_pipe, tcp_pipes, owned, find_channel, without, with_watched,
  on_new_connection, remove_rr_channel, on_socket_call,
}
use mu_quinet.Mux.Channels.Lifetime.{fresh}
use mu_quinet.Mux.Channels.Release.{own, Held, connection-Ends, release-Ends}
use mu_quinet.Mux.Channels.Watching.{Free, watch-Ends}
use mu_quinet.Mux.Channels.Ownership.{
  Apart, Apart-changed, Apart-removed, Apart-far, find_channel-append, find_channel-without,
  find_channel-with_watched,
}

-- Each event is the body of one function of Mux: `closed` is that of `removeRRChannel`, without the
-- later write of its caller `handleEventsReceived`, which is in Channels.EndOfFile.
pub data Event : Type 0 where
  connection : (address channel connfd : ℕ) → Event
  socket_call : (address : ℕ) → Pipes → Event
  closed : (address : ℕ) → Event

module _ {E : Type 0} (ops : Epoll E) where
  unfoldable pub on_event : Mux E → Event → Option (Mux E)
  unfolding on_new_connection on_socket_call remove_rr_channel
  on_event m (Event.connection a c connfd) = on_new_connection ops m a c connfd
  on_event m (Event.socket_call a p) = on_socket_call ops m a p
  on_event m (Event.closed a) = remove_rr_channel ops m a

  module _ (laws : EpollLaws ops) where
    -- The loop, the kernel and the channels agree, and the objects own their channels.
    pub record IsValid (m : Mux E) : Type 0 where
      pub agrees : Agrees ops laws m.loop
      pub owns : Apart m.loop.store (λ a. find_channel a m.rr_channels)

    -- New objects have free addresses, and new descriptors are not in the kernel's set; a request
    -- comes from an object that is alive.
    abbrev pub Possible : Mux E → Event → Type 0
    Possible m (Event.connection a c connfd) =
        (find_channel a m.rr_channels ≡ none)
        × (m.loop.store c ≡ none)
        × (laws.interest m.loop.epoll connfd ≡ none)
    Possible m (Event.socket_call a p) =
        (ch : ReqRespChannel) × (find_channel a m.rr_channels ≡ some ch) × Free ops laws m.loop p
    Possible m (Event.closed a) = Unit

    abbrev pub EndsValid : Mux E → Event → Type 0
    EndsValid m ev = (m' : Mux E) × (on_event m ev ≡ some m') × IsValid m'

    held :
        (m : Mux E) (a : ℕ) (ch : ReqRespChannel)
        → IsValid m
        → find_channel a m.rr_channels ≡ some ch
        → Held ops laws m.loop (own ch)
    held m a ch v t d h = v.owns.alive a ch d t h

    connection-IsValid :
        (m : Mux E) (a c connfd : ℕ)
        → IsValid m
        → Possible m (Event.connection a c connfd)
        → EndsValid m (Event.connection a c connfd)
    unfolding on_event on_new_connection has_channel
    connection-IsValid m a c connfd v (n, z, i) =
        let (w, e, g, (s, _)) = connection-Ends ops laws m.loop c connfd v.agrees z i in
        let ch : ReqRespChannel = record { fd = connfd; s_channel = c; watched = [] } in
        let m' : Mux E = record { loop = w; rr_channels = m.rr_channels ++ (a, ch) ∷ [] } in
        (
          m',
          ground (arith, e),
          record {
            agrees = g;
            owns =
                Apart-changed m.loop.store w.store (λ b. find_channel b m.rr_channels)
                  (λ b. find_channel b m'.rr_channels) a ch v.owns
                  (λ b. find_channel-append b a ch m.rr_channels n) (refl, tt)
                  (λ d h. (
                    record (fresh connfd) { on_close = true; has_owner = true },
                    ground (arith, s d, h),
                  ))
                  (λ b x d q t h.
                    let (y, u) = v.owns.alive b x d t h in
                    (ground (arith, u, z), y, ground (arith, s d, u, z)));
          },
        )

    closed-IsValid : (m : Mux E) (a : ℕ) → IsValid m → EndsValid m (Event.closed a)
    unfolding on_event remove_rr_channel
    closed-IsValid m a v = elim (Option-cases (find_channel a m.rr_channels)) [
      | inl t ↦ (m, ground (arith, t), v)
      | inr (ch, t) ↦
          let (w, e, g, (_, s)) =
            release-Ends ops laws ch m.loop v.agrees (held m a ch v t) (v.owns.once a ch t) in
          (
            record { loop = w; rr_channels = without a m.rr_channels },
            ground (arith, t, e),
            record {
              agrees = g;
              owns =
                  Apart-removed m.loop.store w.store (λ b. find_channel b m.rr_channels)
                    (λ b. find_channel b (without a m.rr_channels)) a ch v.owns t
                    (λ b. find_channel-without b a m.rr_channels) s;
            },
          )
    ]

    Free-owned :
        (w : EventLoop E) (p : Pipes) (d : ℕ) (x : SelectableChannel)
        → Free ops laws w p
        → w.store d ≡ some x
        → has_channel d (owned p) ≡ false
    unfolding owned has_channel
    Free-owned w (udp_pipe c fd) d x (z, _) t = ground (arith, z, t)
    Free-owned w (tcp_pipes c fd c' fd') d x (z, _, z', _, _, _) t = ground (arith, z, z', t)

    Nodup-owned : (w : EventLoop E) (p : Pipes) → Free ops laws w p → Nodup (owned p)
    unfolding owned has_channel
    Nodup-owned w (udp_pipe c fd) f = (refl, tt)
    Nodup-owned w (tcp_pipes c fd d fd') (_, _, _, _, ne, _) = (ground arith, (refl, tt))

    beside :
        (ch : ReqRespChannel) (d : ℕ) (p : Pipes)
        → has_channel d (own ch) ≡ false
        → has_channel d (owned p) ≡ false
        → has_channel d (ch.s_channel ∷ owned p) ≡ false
    unfolding has_channel
    beside ch d p far r = ground (arith, far, r)

    beside_old :
        (ch : ReqRespChannel) (d : ℕ)
        → has_channel d (own ch) ≡ false
        → has_channel d ch.watched ≡ false
    unfolding has_channel
    beside_old ch d far = ground (arith, far)

    socket_call-IsValid :
        (m : Mux E) (a : ℕ) (p : Pipes)
        → IsValid m
        → Possible m (Event.socket_call a p)
        → EndsValid m (Event.socket_call a p)
    unfolding on_event on_socket_call has_channel
    socket_call-IsValid m a p v (ch, t, f) =
        let (ns, nw) = v.owns.once a ch t in
        let (x, xs) = v.owns.alive a ch ch.s_channel t (ground arith) in
        let o = Free-owned m.loop p ch.s_channel x f xs in
        let (w, e, g, (h, s)) =
          watch-Ends ops laws p m.loop ch.watched v.agrees
            (λ d k. v.owns.alive a ch d t (ground (arith, k))) nw f in
        let ch' : ReqRespChannel = record ch { watched = owned p } in
        let rr : List (ℕ × ReqRespChannel) = with_watched a (owned p) m.rr_channels in
        (
          record { loop = w; rr_channels = rr },
          ground (arith, t, e),
          record {
            agrees = g;
            owns =
                Apart-changed m.loop.store w.store (λ b. find_channel b m.rr_channels)
                  (λ b. find_channel b rr) a ch' v.owns
                  (λ b. ground (arith, find_channel-with_watched b a (owned p) m.rr_channels, t))
                  (o, Nodup-owned m.loop p f)
                  (λ d k. elim (Bool-cases (has_channel d (owned p))) [
                    | inl q ↦ h d q
                    | inr q ↦ (x, ground (arith, k, q, s d, ns, xs))
                  ])
                  (λ b y d q u k.
                    let (z, zs) = v.owns.alive b y d u k in
                    let r = Free-owned m.loop p d z f zs in
                    let far =
                      Apart-far m.loop.store (λ c. find_channel c m.rr_channels) a b d ch y v.owns q
                        t u k in
                    (beside ch d p far r, z, ground (arith, s d r, beside_old ch d far, zs)));
          },
        )

    -- Each function of Mux on its channels, called when it can be, itself ends without a use of freed
    -- memory, and the loop, the kernel, the channels and their owners agree after it. What its caller
    -- does then is not in it.
    pub on_event-IsValid : (m : Mux E) (ev : Event) → IsValid m → Possible m ev → EndsValid m ev
    on_event-IsValid m (Event.connection a c connfd) v k = connection-IsValid m a c connfd v k
    on_event-IsValid m (Event.socket_call a p) v k = socket_call-IsValid m a p v k
    on_event-IsValid m (Event.closed a) v k = closed-IsValid m a v
