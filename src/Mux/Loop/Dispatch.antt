-- ===== src/Mux/Loop/Dispatch.antt =====
-- One round of the loop: the poller's answer, and the callbacks of each channel that is ready. What a
-- callback does belongs to other components; it may free channels.
use mu_quinet.Prelude.{
  ℕ, List, [], ◌∷◌, Bool, true, false, ◌&&◌, ◌||◌, not, Option, none, some, if◌then◌else◌, test_bit,
}
use mu_quinet.Mux.Loop.{SelectableChannel, Handler, Epoll, EventLoop, assign}

-- The tests of `handleEventsReceived` on `revents`. POLLIN, POLLPRI, POLLOUT, POLLERR, POLLHUP and
-- POLLNVAL are bits 0 to 5, POLLRDHUP is bit 13.
unfoldable pub fires : Handler → ℕ → Bool
fires Handler.close r = test_bit r 4 && not (test_bit r 0)
fires Handler.error r = test_bit r 3 || test_bit r 5
fires Handler.read r = test_bit r 0 || test_bit r 1 || test_bit r 13
fires Handler.write r = test_bit r 2

unfoldable pub has_cb : Handler → SelectableChannel → Bool
has_cb Handler.read ch = ch.on_read
has_cb Handler.write ch = ch.on_write
has_cb Handler.close ch = ch.on_close
has_cb Handler.error ch = ch.on_error

abbrev pub and_then : {A : Type 0} → Option A → (A → Option A) → Option A
and_then none f = none
and_then (some w) f = f w

module _ {E : Type 0} (ops : Epoll E) where
  -- An answer of epoll_wait: `none` is -1, which the code takes for an empty list whose last element
  -- it then reads; no event is a return before that.
  unfoldable pub set_received : EventLoop E → List (ℕ × ℕ) → Option (EventLoop E × List ℕ)
  set_received w [] = some (w, [])
  set_received w ((events, c) ∷ rest) = elim (w.store c) [
    | none ↦ none
    | some ch ↦ elim (set_received (assign ops w c (record ch { events_received = events })) rest) [
      | none ↦ none
      | some (w', l) ↦ some (w', c ∷ l)
    ]
  ]

  unfoldable pub poll : EventLoop E → Option (List (ℕ × ℕ)) → Option (EventLoop E × List ℕ)
  unfolding set_received
  poll w none = none
  poll w (some events) = set_received w events

  module _ (run : Handler → ℕ → EventLoop E → Option (EventLoop E)) where
    -- One `if` of `handleEventsReceived`: the callback is read from the object.
    unfoldable pub fire : Handler → ℕ → ℕ → EventLoop E → Option (EventLoop E)
    unfolding fires has_cb
    fire b revents c w =
        if fires b revents
        then elim (w.store c) [ none ↦ none | some ch ↦ if has_cb b ch then run b c w else some w ]
        else some w

    abbrev pub handling : Bool → ℕ → EventLoop E → Option (EventLoop E)
    handling v c w = elim (w.store c) [
      | none ↦ none
      | some ch ↦ some (assign ops w c (record ch { handling_events = v }))
    ]

    -- `handleEventsReceived`, for the events that the channel holds.
    unfoldable pub fire_all : ℕ → ℕ → EventLoop E → Option (EventLoop E)
    unfolding fire
    fire_all revents c w = and_then (fire Handler.close revents c w) (λ w1.
        and_then (fire Handler.error revents c w1)
          (λ w2. and_then (fire Handler.read revents c w2) (λ w3. fire Handler.write revents c w3)))

    unfoldable pub handle_events : ℕ → EventLoop E → Option (EventLoop E)
    unfolding fire_all
    handle_events c w = elim (w.store c) [
      | none ↦ none
      | some ch ↦
          and_then (handling true c w)
            (λ w1. and_then (fire_all ch.events_received c w1) (λ w2. handling false c w2))
    ]

    unfoldable pub handle_all : List ℕ → EventLoop E → Option (EventLoop E)
    unfolding handle_events
    handle_all [] w = some w
    handle_all (c ∷ cs) w = and_then (handle_events c w) (λ w'. handle_all cs w')

    -- The body of `loop`.
    unfoldable pub round : Option (List (ℕ × ℕ)) → EventLoop E → Option (EventLoop E)
    unfolding poll handle_all
    round answer w = elim (poll w answer) [ none ↦ none | some (w', l) ↦ handle_all l w' ]
