-- ===== src/Mux/Loop.antt =====
-- mux/eventloop: SelectableChannel.cpp, Poller.cpp and EventLoop.cpp. Channels are objects at
-- addresses, and the loop, the poller and the kernel hold their addresses. The kernel's epoll is a
-- type with operations and their documented laws.
pub mod Agrees
pub mod Operations
pub mod Dispatch
pub mod Freed
pub mod Stopping
use mu_quinet.Prelude.{
  ℕ, ◌+◌, ◌-◌, ◌^◌, ◌≡◌, ◌≢◌, List, [], ◌∷◌, ◌++◌, Bool, true, false, ◌&&◌, ◌||◌, not, Option, none,
  some, ◌==◌, if◌then◌else◌, test_bit,
}

-- `x | 2 ^ k` and `x & ~ 2 ^ k`.
abbrev pub set_bit : ℕ → ℕ → ℕ
set_bit x k = if test_bit x k then x else x + 2 ^ k

abbrev pub clear_bit : ℕ → ℕ → ℕ
clear_bit x k = if test_bit x k then x - 2 ^ k else x

-- POLLIN and POLLPRI are bits 0 and 1, POLLOUT is bit 2. A callback is set or not. `has_owner` says
-- whether `ownerLoop` is set: there is one event loop.
pub record SelectableChannel : Type 0 where
  pub fd : ℕ
  pub events_interested : ℕ
  pub events_received : ℕ
  pub handling_events : Bool
  pub has_owner : Bool
  pub on_read : Bool
  pub on_write : Bool
  pub on_close : Bool
  pub on_error : Bool

unfoldable pub new_channel : ℕ → SelectableChannel
new_channel fd = record {
  fd = fd;
  events_interested = 0;
  events_received = 0;
  handling_events = false;
  has_owner = false;
  on_read = false;
  on_write = false;
  on_close = false;
  on_error = false;
}

-- `setOnReadCB` and the others, for a function that is not empty.
pub data Handler : Type 0 where
  read write close error : Handler

unfoldable pub set_cb : Handler → SelectableChannel → SelectableChannel
set_cb Handler.read ch = record ch { on_read = true }
set_cb Handler.write ch = record ch { on_write = true }
set_cb Handler.close ch = record ch { on_close = true }
set_cb Handler.error ch = record ch { on_error = true }

-- What `enableReading` and the others do to `eventsInterested`.
pub data Interest : Type 0 where
  enable_reading disable_reading enable_writing disable_writing disable_all : Interest

unfoldable pub interested : Interest → ℕ → ℕ
interested Interest.enable_reading x = set_bit (set_bit x 0) 1
interested Interest.disable_reading x = 0
interested Interest.enable_writing x = set_bit x 2
interested Interest.disable_writing x = clear_bit x 2
interested Interest.disable_all x = 0

-- epoll_ctl with EPOLL_CTL_ADD, MOD and DEL: `none` is -1. The data of an event is an address.
pub record Epoll (E : Type 0) : Type 0 where
  pub ctl_add : (fd events address : ℕ) → E → Option E
  pub ctl_mod : (fd events address : ℕ) → E → Option E
  pub ctl_del : (fd : ℕ) → E → Option E

-- ADD works for a descriptor that is not in the set, MOD and DEL for one that is.
pub record EpollLaws {E : Type 0} (ops : Epoll E) : Type 0 where
  pub interest : E → ℕ → Option (ℕ × ℕ)
  pub add :
      (e : E) (fd events a : ℕ)
      → interest e fd ≡ none
      → (e' : E) × (ops.ctl_add fd events a e ≡ some e')
        × ((x : ℕ) → interest e' x ≡ (if x == fd then some (events, a) else interest e x))
  pub modify :
      (e : E) (fd events a : ℕ)
      → interest e fd ≢ none
      → (e' : E) × (ops.ctl_mod fd events a e ≡ some e')
        × ((x : ℕ) → interest e' x ≡ (if x == fd then some (events, a) else interest e x))
  pub delete :
      (e : E) (fd : ℕ)
      → interest e fd ≢ none
      → (e' : E) × (ops.ctl_del fd e ≡ some e')
        × ((x : ℕ) → interest e' x ≡ (if x == fd then none else interest e x))

-- The poller's descriptor, the vector `channels`, and the objects: `none` is freed memory.
pub record EventLoop (E : Type 0) : Type 0 where
  pub epoll : E
  pub channels : List ℕ
  pub store : ℕ → Option SelectableChannel

abbrev pub put :
    (ℕ → Option SelectableChannel) → ℕ → Option SelectableChannel → ℕ → Option SelectableChannel
put store c v x = if x == c then v else store x

-- `hasChannel`, and the erasure of the first place that `std::find` gives.
unfoldable pub has_channel : ℕ → List ℕ → Bool
has_channel c [] = false
has_channel c (x ∷ xs) = let rest = has_channel c xs in if x == c then true else rest

unfoldable pub erase : ℕ → List ℕ → List ℕ
erase c [] = []
erase c (x ∷ xs) = let rest = erase c xs in if x == c then xs else x ∷ rest

abbrev kept : {E : Type 0} → E → Option E → E
kept e none = e
kept e (some e') = e'

module _ {E : Type 0} (ops : Epoll E) where
  -- The poller's three calls log an error of the kernel and go on.
  unfoldable pub poller_add : SelectableChannel → ℕ → E → E
  poller_add ch c e = kept e (ops.ctl_add ch.fd ch.events_interested c e)

  unfoldable pub poller_remove : SelectableChannel → E → E
  poller_remove ch e = kept e (ops.ctl_del ch.fd e)

  unfoldable pub poller_update : SelectableChannel → ℕ → E → E
  poller_update ch c e = kept e (ops.ctl_mod ch.fd ch.events_interested c e)

  -- The methods of the loop, for the channel `ch` at the address `c`.
  unfoldable pub add_channel : EventLoop E → ℕ → SelectableChannel → EventLoop E
  unfolding has_channel poller_add
  add_channel w c ch =
      if has_channel c w.channels
      then w
      else record w { epoll = poller_add ch c w.epoll; channels = w.channels ++ c ∷ [] }

  unfoldable pub remove_channel : EventLoop E → ℕ → SelectableChannel → EventLoop E
  unfolding has_channel poller_remove erase
  remove_channel w c ch =
      if has_channel c w.channels
      then record w { epoll = poller_remove ch w.epoll; channels = erase c w.channels }
      else w

  unfoldable pub update_channel : EventLoop E → ℕ → SelectableChannel → EventLoop E
  unfolding has_channel poller_update
  update_channel w c ch =
      if has_channel c w.channels then record w { epoll = poller_update ch c w.epoll } else w

  abbrev pub assign : EventLoop E → ℕ → SelectableChannel → EventLoop E
  assign w c ch = record w { store = put w.store c (some ch) }

  -- `addChannel` and `setOwnerEventLoop`, which the code always calls together.
  unfoldable pub register : EventLoop E → ℕ → SelectableChannel → EventLoop E
  unfolding add_channel
  register w c ch = assign (add_channel w c ch) c (record ch { has_owner = true })

  -- `enableReading` and the others.
  unfoldable pub set_interest : Interest → EventLoop E → ℕ → SelectableChannel → EventLoop E
  unfolding interested update_channel
  set_interest i w c ch =
      let ch' : SelectableChannel = record ch {
        events_interested = interested i ch.events_interested;
      } in
      let w' = assign w c ch' in if ch.has_owner then update_channel w' c ch' else w'

  unfoldable pub unregister_self : EventLoop E → ℕ → SelectableChannel → EventLoop E
  unfolding remove_channel
  unregister_self w c ch =
      assign (if ch.has_owner then remove_channel w c ch else w) c (record ch { has_owner = false })

  -- The destructor.
  unfoldable pub destroy : EventLoop E → ℕ → SelectableChannel → EventLoop E
  unfolding remove_channel
  destroy w c ch =
      let w' = if ch.has_owner then remove_channel w c ch else w in
      record w' { store = put w'.store c none }
