-- ===== src/Mux/Channels.antt =====
-- mux/Mux.cpp and mux/req-resp-channel: the channels to the interceptors, MasterListener.cpp, which
-- accepts them, and ReqRespChannel.cpp, which reads a request and writes the answer. A
-- ReqRespChannel owns its own SelectableChannel and, through its socket and the socket's block, the
-- channels that socketCall adds to the loop.
pub mod Lifetime
pub mod Release
pub mod Watching
pub mod Ownership
pub mod Events
pub mod Accepting
pub mod Listening
pub mod EndOfFile
pub mod Messages
use mu_quinet.Prelude.{
  ℕ, ◌≡◌, List, [], ◌∷◌, ◌++◌, map, Bool, true, false, Option, none, some, ◌==◌, if◌then◌else◌,
}
use mu_quinet.Mux.Loop.{Handler, Interest, Epoll, EventLoop}
use mu_quinet.Mux.Loop.Dispatch.{and_then}
use mu_quinet.Mux.Loop.Operations.{
  Operation, creates, registers, unregisters, destroys, sets, sets_cb, operate,
}

-- `watched` lists the channels that the socket owns, in the order in which they are destroyed.
pub record ReqRespChannel : Type 0 where
  pub fd : ℕ
  pub s_channel : ℕ
  pub watched : List ℕ

-- `eventloop` and `rrChannels` of Mux; a list entry is an object, at its address.
pub record Mux (E : Type 0) : Type 0 where
  pub loop : EventLoop E
  pub rr_channels : List (ℕ × ReqRespChannel)

-- The constructors: a new channel that is interested in reading, with its callbacks.
abbrev pub reading : ℕ → ℕ → List (ℕ × Operation)
reading c fd = (c, creates fd) ∷ (c, sets Interest.enable_reading) ∷ (c, sets_cb Handler.read) ∷ []

-- ReqRespChannel's constructor.
unfoldable pub new_rr_channel : ℕ → ℕ → List (ℕ × Operation)
new_rr_channel c fd = reading c fd ++ (c, sets_cb Handler.close) ∷ []

-- What `socketCall` does with the channels: the notification channel of a new socket at `c` on the
-- pipe `fd`, and for TCP that of the block at `d`. The channels of the socket that it replaces are
-- destroyed after the new ones are made and before they join the loop.
pub data Pipes : Type 0 where
  udp_pipe : (c fd : ℕ) → Pipes
  tcp_pipes : (c fd d fd' : ℕ) → Pipes

abbrev pub destroy_all : List ℕ → List (ℕ × Operation)
destroy_all [] = []
destroy_all (c ∷ cs) = (c, destroys) ∷ destroy_all cs

unfoldable pub watch : Pipes → List ℕ → List (ℕ × Operation)
watch (udp_pipe c fd) old = reading c fd ++ destroy_all old ++ (c, registers) ∷ []
watch (tcp_pipes c fd d fd') old =
    reading c fd ++ reading d fd' ++ destroy_all old ++ (c, registers) ∷ (d, registers) ∷ []

-- The members of Socket::Impl are destroyed from the last: the block comes before the channel.
unfoldable pub owned : Pipes → List ℕ
owned (udp_pipe c fd) = c ∷ []
owned (tcp_pipes c fd d fd') = d ∷ c ∷ []

-- `~ReqRespChannel`: it leaves the loop and closes the descriptor; its members are destroyed from
-- the last, the socket before its own channel.
unfoldable pub release : ReqRespChannel → List (ℕ × Operation)
release ch = (ch.s_channel, unregisters) ∷ destroy_all ch.watched ++ (ch.s_channel, destroys) ∷ []

unfoldable pub find_channel : ℕ → List (ℕ × ReqRespChannel) → Option ReqRespChannel
find_channel a [] = none
find_channel a ((b, ch) ∷ l) = let rest = find_channel a l in if a == b then some ch else rest

unfoldable pub without : ℕ → List (ℕ × ReqRespChannel) → List (ℕ × ReqRespChannel)
without a [] = []
without a ((b, ch) ∷ l) = let rest = without a l in if a == b then rest else (b, ch) ∷ rest

unfoldable pub with_watched : ℕ → List ℕ → List (ℕ × ReqRespChannel) → List (ℕ × ReqRespChannel)
with_watched a cs [] = []
with_watched a cs ((b, ch) ∷ l) =
    let rest = with_watched a cs l in
    if a == b then (b, record ch { watched = cs }) ∷ rest else (b, ch) ∷ rest

module _ {E : Type 0} (ops : Epoll E) where
  unfoldable pub operate_all : List (ℕ × Operation) → EventLoop E → Option (EventLoop E)
  operate_all [] w = some w
  operate_all ((c, op) ∷ rest) w = and_then (operate ops w c op) (operate_all rest)

  -- `addRRChannel`
  abbrev pub add_rr_channel : Mux E → ℕ → ReqRespChannel → Mux E
  add_rr_channel m a ch = record m { rr_channels = m.rr_channels ++ (a, ch) ∷ [] }

  -- The callback for a new connection, with the addresses of the two objects.
  unfoldable pub on_new_connection : Mux E → (a c connfd : ℕ) → Option (Mux E)
  unfolding operate_all new_rr_channel
  on_new_connection m a c connfd =
      let m' : Mux E = add_rr_channel m a (record { fd = connfd; s_channel = c; watched = [] }) in
      elim (operate_all (new_rr_channel c connfd ++ (c, registers) ∷ []) m.loop) [
        | none ↦ none
        | some w ↦ some (record m' { loop = w })
      ]

  -- `MasterListener::Impl::onReadReady`: the descriptors that `accept` gives until it fails, each
  -- with the addresses of the objects made for it.
  unfoldable pub accept_all : Mux E → List (ℕ × ℕ × ℕ) → Option (Mux E)
  unfolding on_new_connection
  accept_all m [] = some m
  accept_all m ((connfd, a, c) ∷ rest) = elim (on_new_connection m a c connfd) [
    | none ↦ none
    | some m' ↦ accept_all m' rest
  ]

  -- `removeRRChannel`: the list holds an object at most once, and with its entry the object goes. Its
  -- caller, handleEventsReceived of the destroyed channel, then writes to it (EndOfFile).
  unfoldable pub remove_rr_channel : Mux E → ℕ → Option (Mux E)
  unfolding operate_all release find_channel without
  remove_rr_channel m a = elim (find_channel a m.rr_channels) [
    | none ↦ some m
    | some ch ↦ elim (operate_all (release ch) m.loop) [
      | none ↦ none
      | some w ↦ some (record { loop = w; rr_channels = without a m.rr_channels })
    ]
  ]

  -- The part of `socketCall` that is about channels, for a request on the channel at `a`.
  unfoldable pub on_socket_call : Mux E → ℕ → Pipes → Option (Mux E)
  unfolding operate_all watch owned find_channel with_watched
  on_socket_call m a p = elim (find_channel a m.rr_channels) [
    | none ↦ none
    | some ch ↦ elim (operate_all (watch p ch.watched) m.loop) [
      | none ↦ none
      | some w ↦ some (record { loop = w; rr_channels = with_watched a (owned p) m.rr_channels })
    ]
  ]
