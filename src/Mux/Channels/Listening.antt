-- ===== src/Mux/Channels/Listening.antt =====
-- MasterListener.cpp's constructor and Mux::init, and the connections and calls that follow.
use mu_quinet.Prelude.{
  ℕ, ◌≡◌, refl, List, [], ◌∷◌, ◌++◌, Bool, true, Option, none, some, arith, if◌then◌else◌,
}
use mathlib.Core.Option.{none-ne-some}
use mu_quinet.Mux.Loop.{
  new_channel, Handler, set_cb, Interest, interested, Epoll, EpollLaws, EventLoop, has_channel,
  assign, set_interest,
}
use mu_quinet.Mux.Loop.Agrees.{Agrees}
use mu_quinet.Mux.Loop.Operations.{
  Operation, creates, registers, sets, sets_cb, operate, operate_at,
}
use mu_quinet.Mux.Channels.{Mux, find_channel, operate_all}
use mu_quinet.Mux.Channels.Lifetime.{fresh, plain, plain-Agrees, registers-Ends}
use mu_quinet.Mux.Channels.Events.{Event, on_event, IsValid, Possible, on_event-IsValid}

-- The listener's channel at `c`.
unfoldable pub master_listener : ℕ → ℕ → List (ℕ × Operation)
master_listener c listenfd =
    (c, creates listenfd) ∷ (c, sets_cb Handler.read) ∷ (c, sets Interest.enable_reading) ∷ []

module _ {E : Type 0} (ops : Epoll E) where
  -- A loop without channels, on a new set of the kernel.
  abbrev pub idle : E → EventLoop E
  idle e = record { epoll = e; channels = []; store = λ x. none }

  -- `Mux::init`: `bound` is whether `bind` succeeds, and `none` is an exit or a use of freed memory.
  unfoldable pub mux_init : (bound : Bool) → (c listenfd : ℕ) → E → Option (Mux E)
  unfolding operate_all master_listener
  mux_init bound c listenfd e =
      let w = operate_all ops (master_listener c listenfd ++ (c, registers) ∷ []) (idle e) in
      if bound
      then elim w [ none ↦ none | some w' ↦ some (record { loop = w'; rr_channels = [] }) ]
      else none

  -- Events one after another, each with the body of its function of Mux.
  unfoldable pub run : Mux E → List Event → Option (Mux E)
  unfolding on_event
  run m [] = some m
  run m (e ∷ es) = elim (on_event ops m e) [ none ↦ none | some m' ↦ run m' es ]

  module _ (laws : EpollLaws ops) where
    -- A new connection or a call, not the end of a connection, whose handling goes on after
    -- `removeRRChannel` (Channels.EndOfFile).
    abbrev pub IsOpening : Event → Type 0
    IsOpening (Event.closed a) = ⊥
    IsOpening e = Unit

    -- Each event is one of these, and possible after those before it.
    unfoldable pub ArePossible : Mux E → List Event → Type 0
    ArePossible m [] = Unit
    ArePossible m (e ∷ es) =
        IsOpening e
        × Possible ops laws m e
        × ((m' : Mux E) → on_event ops m e ≡ some m' → ArePossible m' es)

    idle-Agrees : (e : E) → ((fd : ℕ) → laws.interest e fd ≡ none) → Agrees ops laws (idle e)
    unfolding has_channel
    idle-Agrees e n = record {
      listed = λ c h. absurd (ground (arith, h));
      registered = λ fd events c h. absurd (ground (arith, h, n fd));
      once = tt;
    }

    mux_init-IsValid :
        (c listenfd : ℕ) (e : E)
        → ((fd : ℕ) → laws.interest e fd ≡ none)
        → (m : Mux E) × (mux_init true c listenfd e ≡ some m) × IsValid ops laws m
    unfolding mux_init master_listener operate_all operate operate_at set_interest interested
        new_channel set_cb plain find_channel
    mux_init-IsValid c listenfd e n =
        let w : EventLoop E = idle e in
        let w1 : EventLoop E = assign ops w c (new_channel listenfd) in
        let w2 : EventLoop E = assign ops w1 c (record (new_channel listenfd) { on_read = true }) in
        let w3 : EventLoop E = assign ops w2 c (fresh listenfd) in
        let e1 : operate ops w c (creates listenfd) ≡ some w1 = refl in
        let e2 : operate ops w1 c (sets_cb Handler.read) ≡ some w2 = ground arith in
        let e3 : operate ops w2 c (sets Interest.enable_reading) ≡ some w3 = ground arith in
        let g = idle-Agrees e n in
        let g1 = plain-Agrees ops laws w c (creates listenfd) w1 g refl e1 in
        let g2 = plain-Agrees ops laws w1 c (sets_cb Handler.read) w2 g1 refl e2 in
        let g3 = plain-Agrees ops laws w2 c (sets Interest.enable_reading) w3 g2 refl e3 in
        let (w4, e4, g4, _) =
          registers-Ends ops laws w3 c (fresh listenfd) g3 (ground arith) (n listenfd) in
        (
          record { loop = w4; rr_channels = [] },
          ground (arith, e1, e2, e3, e4),
          record {
            agrees = g4;
            owns = record {
              alive = λ a ch d t h. absurd (none-ne-some ch t);
              once = λ a ch t. absurd (none-ne-some ch t);
              apart = λ a b ch ch' d t t' h h'. absurd (none-ne-some ch t);
            };
          },
        )

    run-IsValid :
        (es : List Event) (m : Mux E)
        → IsValid ops laws m
        → ArePossible m es
        → (m' : Mux E) × (run m es ≡ some m') × IsValid ops laws m'
    unfolding run ArePossible
    run-IsValid [] m v k = (m, refl, v)
    run-IsValid (e ∷ es) m v (_, p, next) =
        let (m1, q, v1) = on_event-IsValid ops laws m e v p in
        let (m2, r, v2) = run-IsValid es m1 v1 (next m1 q) in (m2, ground (arith, q, r), v2)

    -- Once the listener is bound, on a set of the kernel with nothing in it, Mux::init and then any
    -- sequence of new connections and socketCalls that are each possible, up to the first end of a
    -- connection, end without a use of freed memory, with the loop, the kernel, the channels and their
    -- owners in agreement.
    pub mux_init-run :
        (c listenfd : ℕ) (e : E)
        → ((fd : ℕ) → laws.interest e fd ≡ none)
        → (m : Mux E) × (mux_init true c listenfd e ≡ some m)
          × ((es : List Event)
              → ArePossible m es
              → (m' : Mux E) × (run m es ≡ some m') × IsValid ops laws m')
    mux_init-run c listenfd e n =
        let (m, q, v) = mux_init-IsValid c listenfd e n in (m, q, λ es k. run-IsValid es m v k)
