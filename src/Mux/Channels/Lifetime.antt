-- ===== src/Mux/Channels/Lifetime.antt =====
-- Sequences of operations on channels: they end, and which channels are alive after them.
use mu_quinet.Prelude.{
  ℕ, ◌≡◌, ◌≢◌, refl, sym, ap, ◌∙◌, subst, List, [], ◌∷◌, ◌++◌, Bool, true, false, Bool-cases, inl,
  inr, Option, none, some, Option-cases, arith, ◌==◌, if◌then◌else◌,
}
use mathlib.Core.Bool.{true≢false}
use mathlib.Core.Option.{some-injective, none-ne-some}
use mu_quinet.Mux.Loop.{
  SelectableChannel, Handler, Interest, Epoll, EpollLaws, EventLoop, new_channel, set_cb,
  interested, put, has_channel, assign, register, add_channel, remove_channel, set_interest,
  unregister_self, destroy,
}
use mu_quinet.Mux.Loop.Agrees.{Agrees, not-listed, has_channel-erase, has_channel-append}
use mu_quinet.Mux.Loop.Dispatch.{and_then}
use mu_quinet.Mux.Loop.Operations.{
  Operation, creates, registers, unregisters, destroys, sets, sets_cb, operate, operate_at,
  operate-Agrees,
}
use mu_quinet.Mux.Channels.{reading, operate_all}

-- What the constructors make.
abbrev pub fresh : ℕ → SelectableChannel
fresh fd = record {
  fd = fd;
  events_interested = 3;
  events_received = 0;
  handling_events = false;
  has_owner = false;
  on_read = true;
  on_write = false;
  on_close = false;
  on_error = false;
}

module _ {E : Type 0} (ops : Epoll E) where
  pub operate_all-append :
      (xs ys : List (ℕ × Operation)) (w : EventLoop E)
      → operate_all ops (xs ++ ys) w ≡ and_then (operate_all ops xs w) (operate_all ops ys)
  unfolding operate_all
  operate_all-append [] ys w = refl
  operate_all-append ((c, op) ∷ xs) ys w = elim (Option-cases (operate ops w c op)) [
    | inl e ↦ ground (arith, e)
    | inr (w', e) ↦ ground (arith, e, operate_all-append xs ys w')
  ]

  pub operate_all-chain :
      (xs ys : List (ℕ × Operation)) (w w1 : EventLoop E) (r : Option (EventLoop E))
      → operate_all ops xs w ≡ some w1
      → operate_all ops ys w1 ≡ r
      → operate_all ops (xs ++ ys) w ≡ r
  operate_all-chain xs ys w w1 r e f =
      operate_all-append xs ys w ∙ ap (λ o. and_then o (operate_all ops ys)) e ∙ f

  module _ (laws : EpollLaws ops) where
    -- The kernel has nothing new.
    abbrev pub NoNew : EventLoop E → EventLoop E → Type 0
    NoNew w w' = (fd : ℕ) → laws.interest w.epoll fd ≡ none → laws.interest w'.epoll fd ≡ none

    abbrev pub Ends : List (ℕ × Operation) → EventLoop E → (EventLoop E → Type 0) → Type 0
    Ends xs w P = (w' : EventLoop E) × (operate_all ops xs w ≡ some w') × Agrees ops laws w' × P w'

    -- What is in the kernel's set was there before, if the channels of the vector were.
    NoNew-lem :
        (w w' : EventLoop E)
        → Agrees ops laws w
        → Agrees ops laws w'
        → ((d : ℕ) (ch : SelectableChannel)
            → has_channel d w'.channels ≡ true
            → w'.store d ≡ some ch
            → (has_channel d w.channels ≡ true)
              × (x : SelectableChannel) × (w.store d ≡ some x)
              × (x.fd ≡ ch.fd))
        → NoNew w w'
    NoNew-lem w w' g g' k fd n = elim (Option-cases (laws.interest w'.epoll fd)) [
      | inl e ↦ e
      | inr ((events, d), e) ↦
          let (m, ch, s, f) = g'.registered fd events d e in
          let (m0, x, s0, f0) = k d ch m s in
          let (y, sy, _, i) = g.listed d m0 in absurd (ground (arith, n, i, sy, s0, f0, f))
    ]

    unfoldable pub plain : Operation → Bool
    plain registers = false
    plain _ = true

    pub plain-Agrees :
        (w : EventLoop E) (c : ℕ) (op : Operation) (w' : EventLoop E)
        → Agrees ops laws w
        → plain op ≡ true
        → operate ops w c op ≡ some w'
        → Agrees ops laws w'
    unfolding plain
    plain-Agrees w c op w' g p e =
        operate-Agrees ops laws w c op w' g (λ ch s q. absurd (true≢false (sym p ∙ ap plain q))) e

    -- A constructor's operations on a free address.
    pub reading-Ends :
        (w : EventLoop E) (c fd : ℕ)
        → Agrees ops laws w
        → w.store c ≡ none
        → Ends (reading c fd) w (λ w'.
          (w'.epoll ≡ w.epoll)
          × (w'.channels ≡ w.channels)
          × ((d : ℕ) → w'.store d ≡ put w.store c (some (fresh fd)) d))
    unfolding operate_all operate operate_at set_interest interested new_channel set_cb plain
    reading-Ends w c fd g n =
        let w1 : EventLoop E = assign ops w c (new_channel fd) in
        let w2 : EventLoop E =
          assign ops w1 c (record (new_channel fd) { events_interested = 3 }) in
        let w3 : EventLoop E = assign ops w2 c (fresh fd) in
        let e1 : operate ops w c (creates fd) ≡ some w1 = ground (arith, n) in
        let e2 : operate ops w1 c (sets Interest.enable_reading) ≡ some w2 = ground arith in
        let e3 : operate ops w2 c (sets_cb Handler.read) ≡ some w3 = ground arith in
        let g1 = plain-Agrees w c (creates fd) w1 g refl e1 in
        let g2 = plain-Agrees w1 c (sets Interest.enable_reading) w2 g1 refl e2 in
        let g3 = plain-Agrees w2 c (sets_cb Handler.read) w3 g2 refl e3 in
        (w3, ground (arith, e1, e2, e3), g3, (refl, refl, λ d. ground arith))

    -- A channel that leaves the loop, and whose object is then `v`.
    abbrev left : EventLoop E → ℕ → SelectableChannel → Option SelectableChannel → EventLoop E
    left w c ch v =
        let w' = if ch.has_owner then remove_channel ops w c ch else w in
        record w' { store = put w'.store c v }

    left-NoNew :
        (w : EventLoop E) (c : ℕ) (ch : SelectableChannel) (v : Option SelectableChannel)
        → Agrees ops laws w
        → w.store c ≡ some ch
        → ((x : SelectableChannel) → v ≡ some x → x.fd ≡ ch.fd)
        → Agrees ops laws (left w c ch v)
        → NoNew w (left w c ch v)
    unfolding remove_channel
    left-NoNew w c ch v g s f g' = NoNew-lem w (left w c ch v) g g' (λ d y m t.
        let l : has_channel d w.channels ≡ true = elim (Bool-cases ch.has_owner) [
          | inr o ↦ ground (arith, o, m)
          | inl o ↦ elim (Bool-cases (has_channel c w.channels)) [
            | inl h ↦ ground (arith, o, h, m, has_channel-erase c d w.channels g.once)
            | inr h ↦ ground (arith, o, h, m)
          ]
        ] in
        let t' : put w.store c v d ≡ some y = elim (Bool-cases ch.has_owner) [
          | inr o ↦ ground (arith, o, t)
          | inl o ↦ elim (Bool-cases (has_channel c w.channels)) [
            | inl h ↦ ground (arith, o, h, t)
            | inr h ↦ ground (arith, o, h, t)
          ]
        ] in
        elim (Bool-cases (d == c)) [
          | inr q ↦ (l, y, ground (arith, q, t'), refl)
          | inl q ↦ (l, ch, ground (arith, q, s), sym (f y (ground (arith, q, t'))))
        ])

    left-store :
        (w : EventLoop E) (c : ℕ) (ch : SelectableChannel) (v : Option SelectableChannel) (d : ℕ)
        → (left w c ch v).store d ≡ put w.store c v d
    unfolding remove_channel
    left-store w c ch v d = elim (Bool-cases ch.has_owner) [
      | inr o ↦ ground (arith, o)
      | inl o ↦ elim (Bool-cases (has_channel c w.channels)) [
        | inl h ↦ ground (arith, o, h)
        | inr h ↦ ground (arith, o, h)
      ]
    ]

    pub destroys-Ends :
        (w : EventLoop E) (c : ℕ) (ch : SelectableChannel)
        → Agrees ops laws w
        → w.store c ≡ some ch
        → Ends
            ((c, destroys) ∷ [])
            w
            (λ w'. NoNew w w' × ((d : ℕ) → w'.store d ≡ put w.store c none d))
    unfolding operate_all operate operate_at destroy remove_channel plain
    destroys-Ends w c ch g s =
        let w' : EventLoop E = destroy ops w c ch in
        let e : operate ops w c destroys ≡ some w' = ground (arith, s) in
        let g' = plain-Agrees w c destroys w' g refl e in
        (
          w',
          ground (arith, e),
          g',
          (
            left-NoNew w c ch none g s (λ x q. absurd (none-ne-some x q)) g',
            left-store w c ch none,
          ),
        )

    pub unregisters-Ends :
        (w : EventLoop E) (c : ℕ) (ch : SelectableChannel)
        → Agrees ops laws w
        → w.store c ≡ some ch
        → Ends ((c, unregisters) ∷ []) w (λ w'.
          NoNew w w'
          × ((d : ℕ) → w'.store d ≡ put w.store c (some (record ch { has_owner = false })) d))
    unfolding operate_all operate operate_at unregister_self remove_channel plain
    unregisters-Ends w c ch g s =
        let v : SelectableChannel = record ch { has_owner = false } in
        let w' : EventLoop E = unregister_self ops w c ch in
        let e : operate ops w c unregisters ≡ some w' = ground (arith, s) in
        let g' = plain-Agrees w c unregisters w' g refl e in
        (
          w',
          ground (arith, e),
          g',
          (
            left-NoNew w c ch (some v) g s (λ x q. ap (λ y. y.fd) (sym (some-injective v x q))) g',
            left-store w c ch (some v),
          ),
        )

    -- Registering a channel that the kernel has nothing for.
    pub registers-Ends :
        (w : EventLoop E) (c : ℕ) (ch : SelectableChannel)
        → Agrees ops laws w
        → w.store c ≡ some ch
        → laws.interest w.epoll ch.fd ≡ none
        → Ends ((c, registers) ∷ []) w (λ w'.
          ((d : ℕ) → w'.store d ≡ put w.store c (some (record ch { has_owner = true })) d)
          × (has_channel c w'.channels ≡ true)
          × ((fd : ℕ)
              → fd ≢ ch.fd
              → laws.interest w.epoll fd ≡ none
              → laws.interest w'.epoll fd ≡ none))
    unfolding operate_all operate operate_at register add_channel
    registers-Ends w c ch g s n =
        let w' : EventLoop E = register ops w c ch in
        let new = not-listed ops laws w c ch g s n in
        let e : operate ops w c registers ≡ some w' = ground (arith, s) in
        let g' =
          operate-Agrees ops laws w c registers w' g
            (λ x t _.
              subst (λ y. laws.interest w.epoll y.fd ≡ none) (some-injective ch x (sym s ∙ t)) n)
            e in
        (
          w',
          ground (arith, e),
          g',
          (
            (λ d. ground (arith, new)),
            ground (arith, new, has_channel-append c c w.channels),
            λ fd ne z. elim (Option-cases (laws.interest w'.epoll fd)) [
              | inl q ↦ q
              | inr ((events, d), q) ↦
                  let (m, y, t, f) = g'.registered fd events d q in
                  elim (Bool-cases (d == c)) [
                    | inl h ↦ absurd (ne (ground (arith, h, new, t, f)))
                    | inr h ↦
                        let (x, sx, _, i) =
                          g.listed d
                            (ground (arith, h, new, m, has_channel-append d c w.channels)) in
                        absurd (ground (arith, h, new, t, f, sx, i, z))
                  ]
            ],
          ),
        )
