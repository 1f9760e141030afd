-- ===== src/Mux/Loop/Freed.antt =====
-- When handling a channel's events uses freed memory.
use mu_quinet.Prelude.{
  ℕ, ◌≡◌, Bool, true, false, Bool-cases, inl, inr, Option, none, some, Option-cases, arith,
}
use mu_quinet.Mux.Loop.{SelectableChannel, Handler, Epoll, EventLoop, assign}
use mu_quinet.Mux.Loop.Dispatch.{fires, has_cb, fire, fire_all, handling, and_then, handle_events}

module _ {E : Type 0} (ops : Epoll E) where
  -- `handlingEvents = false` on freed memory.
  freed-handling :
      (run : Handler → ℕ → EventLoop E → Option (EventLoop E)) (v : Bool) (c : ℕ) (w : EventLoop E)
      → w.store c ≡ none
      → handling ops run v c w ≡ none
  freed-handling run v c w s = ground (arith, s)

  fire-freed :
      (run : Handler → ℕ → EventLoop E → Option (EventLoop E)) (b : Handler) (revents c : ℕ)
      (w : EventLoop E)
      → w.store c ≡ none
      → and_then (fire ops run b revents c w) (λ w2. handling ops run false c w2) ≡ none
  unfolding fire
  fire-freed run b revents c w s = elim (Bool-cases (fires b revents)) [
    | inl f ↦ ground (arith, f, s)
    | inr f ↦ ground (arith, f, s)
  ]

  fire_all-read :
      (run : Handler → ℕ → EventLoop E → Option (EventLoop E)) (revents c : ℕ) (w : EventLoop E)
      (ch : SelectableChannel)
      → w.store c ≡ some ch
      → fires Handler.close revents ≡ false
      → fires Handler.error revents ≡ false
      → fires Handler.read revents ≡ true
      → ch.on_read ≡ true
      → fire_all ops run revents c w
        ≡ and_then (run Handler.read c w) (fire ops run Handler.write revents c)
  unfolding fire_all fire has_cb
  fire_all-read run revents c w ch s nc ne r cb = ground (arith, nc, ne, r, s, cb)

  -- A channel whose read callback frees it, called for a readable event alone, is used after that:
  -- handling its events fails whatever the callback returns.
  pub handle_events-freed :
      (run : Handler → ℕ → EventLoop E → Option (EventLoop E)) (w : EventLoop E) (c : ℕ)
      (ch : SelectableChannel)
      → w.store c ≡ some ch
      → fires Handler.close ch.events_received ≡ false
      → fires Handler.error ch.events_received ≡ false
      → fires Handler.read ch.events_received ≡ true
      → ch.on_read ≡ true
      → ((w1 w2 : EventLoop E) → run Handler.read c w1 ≡ some w2 → w2.store c ≡ none)
      → handle_events ops run c w ≡ none
  unfolding handle_events
  handle_events-freed run w c ch s nc ne r cb frees =
      let w1 : EventLoop E = assign ops w c (record ch { handling_events = true }) in
      let q =
        fire_all-read run ch.events_received c w1 (record ch { handling_events = true })
          (ground (arith, s)) nc ne r cb in
      elim (Option-cases (run Handler.read c w1)) [
        | inl e ↦ ground (arith, s, q, e)
        | inr (w2, e) ↦
            ground
              (arith, s, q, e, fire-freed run Handler.write ch.events_received c w2 (frees w1 w2 e))
      ]
