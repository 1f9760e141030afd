-- ===== src/Mux/Loop/Agrees.antt =====
-- The loop's vector, the kernel's set and the channels themselves agree.
use mu_quinet.Prelude.{
  ℕ, ◌≡◌, refl, List, [], ◌∷◌, ◌++◌, true, false, Bool-cases, inl, inr, Option, none, some, arith,
  ne→==, ==→ne, ◌==◌, if◌then◌else◌,
}
use mu_quinet.Mux.Loop.{SelectableChannel, Epoll, EpollLaws, EventLoop, put, has_channel, erase}

abbrev pub Nodup : List ℕ → Type 0
Nodup [] = Unit
Nodup (x ∷ xs) = (has_channel x xs ≡ false) × Nodup xs

pub has_channel-append :
    (c d : ℕ) (xs : List ℕ)
    → has_channel c (xs ++ d ∷ []) ≡ (if has_channel c xs then true else d == c)
unfolding has_channel
has_channel-append c d [] = ground arith
has_channel-append c d (x ∷ xs) = ground (arith, has_channel-append c d xs)

pub has_channel-erase :
    (c d : ℕ) (xs : List ℕ)
    → Nodup xs
    → has_channel d (erase c xs) ≡ (if d == c then false else has_channel d xs)
unfolding has_channel erase
has_channel-erase c d [] n = ground arith
has_channel-erase c d (x ∷ xs) (n, ns) = ground (arith, has_channel-erase c d xs ns, n)

Nodup-append : (c : ℕ) (xs : List ℕ) → Nodup xs → has_channel c xs ≡ false → Nodup (xs ++ c ∷ [])
unfolding has_channel
Nodup-append c [] n h = (refl, tt)
Nodup-append c (x ∷ xs) (n, ns) h =
    (ground (arith, has_channel-append x c xs, n, h), Nodup-append c xs ns (ground (arith, h)))

Nodup-erase : (c : ℕ) (xs : List ℕ) → Nodup xs → Nodup (erase c xs)
unfolding erase
Nodup-erase c [] n = tt
Nodup-erase c (x ∷ xs) (n, ns) = elim (Bool-cases (x == c)) [
  | inl e ↦ rw (erase, e) ns
  | inr e ↦ rw (erase, e) (ground (arith, has_channel-erase c x xs ns, n), Nodup-erase c xs ns)
]

module _ {E : Type 0} (ops : Epoll E) (laws : EpollLaws ops) where
  -- A channel of the vector is alive, knows the loop, and is in the kernel's set with the events that
  -- it is interested in and its own address; what is in the kernel's set comes from such a channel;
  -- no channel is in the vector twice.
  pub record Agrees (w : EventLoop E) : Type 0 where
    pub listed :
        (c : ℕ)
        → has_channel c w.channels ≡ true
        → (ch : SelectableChannel) × (w.store c ≡ some ch)
          × (ch.has_owner ≡ true)
          × (laws.interest w.epoll ch.fd ≡ some (ch.events_interested, c))
    pub registered :
        (fd events c : ℕ)
        → laws.interest w.epoll fd ≡ some (events, c)
        → (has_channel c w.channels ≡ true)
          × (ch : SelectableChannel) × (w.store c ≡ some ch)
          × (ch.fd ≡ fd)
    pub once : Nodup w.channels

  -- Two channels of the vector have different descriptors.
  same-fd :
      (w : EventLoop E) (c d : ℕ) (ch ch' : SelectableChannel)
      → Agrees w
      → has_channel c w.channels ≡ true
      → has_channel d w.channels ≡ true
      → w.store c ≡ some ch
      → w.store d ≡ some ch'
      → ch.fd ≡ ch'.fd
      → c ≡ d
  same-fd w c d ch ch' g h h' e e' f =
      let (x, sx, _, ix) = g.listed c h in
      let (y, sy, _, iy) = g.listed d h' in ground (arith, sx, ix, sy, iy, e, e', f)

  -- The world after a change of the kernel's set at one descriptor, of the vector and of one object.
  abbrev pub changed : EventLoop E → E → List ℕ → ℕ → Option SelectableChannel → EventLoop E
  changed w e channels c v = record { epoll = e; channels = channels; store = put w.store c v }

  abbrev pub SetAt : EventLoop E → E → ℕ → Option (ℕ × ℕ) → Type 0
  SetAt w e fd v = (x : ℕ) → laws.interest e x ≡ (if x == fd then v else laws.interest w.epoll x)

  pub not-listed :
      (w : EventLoop E) (c : ℕ) (ch : SelectableChannel)
      → Agrees w
      → w.store c ≡ some ch
      → laws.interest w.epoll ch.fd ≡ none
      → has_channel c w.channels ≡ false
  not-listed w c ch g s n = elim (Bool-cases (has_channel c w.channels)) [
    | inr e ↦ e
    | inl e ↦ let (x, sx, _, ix) = g.listed c e in absurd (ground (arith, s, n, sx, ix))
  ]

  pub added-Agrees :
      (w : EventLoop E) (e : E) (c : ℕ) (ch : SelectableChannel)
      → Agrees w
      → w.store c ≡ some ch
      → laws.interest w.epoll ch.fd ≡ none
      → SetAt w e ch.fd (some (ch.events_interested, c))
      → Agrees (changed w e (w.channels ++ c ∷ []) c (some (record ch { has_owner = true })))
  added-Agrees w e c ch g s n k = record {
    listed = λ d h. elim (Bool-cases (d == c)) [
      | inl q ↦
          (record ch { has_owner = true }, ground (arith, q), refl, ground (arith, q, k ch.fd))
      | inr q ↦
          let old : has_channel d w.channels ≡ true =
            ground (arith, h, q, has_channel-append d c w.channels) in
          let (x, sx, ox, ix) = g.listed d old in
          (x, ground (arith, q, sx), ox, ground (arith, ix, n, k x.fd))
    ];
    registered = λ fd events d h. elim (Bool-cases (fd == ch.fd)) [
      | inl q ↦
          let same : c ≡ d = ground (arith, h, q, k fd) in
          (
            ground (arith, same, has_channel-append d c w.channels),
            record ch { has_owner = true },
            ground (arith, same),
            ground (arith, q),
          )
      | inr q ↦
          let (old, x, sx, fx) = g.registered fd events d (ground (arith, h, q, k fd)) in
          let other : (d == c) ≡ false = ground (arith, old, not-listed w c ch g s n) in
          (ground (arith, old, has_channel-append d c w.channels), x, ground (arith, other, sx), fx)
    ];
    once = Nodup-append c w.channels g.once (not-listed w c ch g s n);
  }

  pub removed-Agrees :
      (w : EventLoop E) (e : E) (c : ℕ) (ch : SelectableChannel) (v : Option SelectableChannel)
      → Agrees w
      → w.store c ≡ some ch
      → has_channel c w.channels ≡ true
      → SetAt w e ch.fd none
      → Agrees (changed w e (erase c w.channels) c v)
  removed-Agrees w e c ch v g s m k = record {
    listed = λ d h.
        let gone = has_channel-erase c d w.channels g.once in
        let other : (d == c) ≡ false = ground (arith, gone, h) in
        let old : has_channel d w.channels ≡ true = ground (arith, gone, h) in
        let (x, sx, ox, ix) = g.listed d old in
        let apart : (x.fd == ch.fd) ≡ false =
          ne→== x.fd ch.fd (λ q. ==→ne d c other (same-fd w d c x ch g old m sx s q)) in
        (x, ground (arith, other, sx), ox, ground (arith, ix, apart, k x.fd));
    registered = λ fd events d h.
        let apart : (fd == ch.fd) ≡ false = ground (arith, h, k fd) in
        let (old, x, sx, fx) = g.registered fd events d (ground (arith, h, apart, k fd)) in
        let other : (d == c) ≡ false = ground (arith, s, sx, fx, apart) in
        (
          ground (arith, old, other, has_channel-erase c d w.channels g.once),
          x,
          ground (arith, other, sx),
          fx,
        );
    once = Nodup-erase c w.channels g.once;
  }

  pub updated-Agrees :
      (w : EventLoop E) (e : E) (c events : ℕ) (ch : SelectableChannel)
      → Agrees w
      → w.store c ≡ some ch
      → ch.has_owner ≡ true
      → has_channel c w.channels ≡ true
      → SetAt w e ch.fd (some (events, c))
      → Agrees (changed w e w.channels c (some (record ch { events_interested = events })))
  updated-Agrees w e c events ch g s o m k = record {
    listed = λ d h. elim (Bool-cases (d == c)) [
      | inl q ↦ (
        record ch { events_interested = events },
        ground (arith, q),
        o,
        ground (arith, q, k ch.fd),
      )
      | inr q ↦
          let (x, sx, ox, ix) = g.listed d h in
          let apart : (x.fd == ch.fd) ≡ false =
            ne→== x.fd ch.fd (λ f. ==→ne d c q (same-fd w d c x ch g h m sx s f)) in
          (x, ground (arith, q, sx), ox, ground (arith, ix, apart, k x.fd))
    ];
    registered = λ fd ev d h. elim (Bool-cases (fd == ch.fd)) [
      | inl q ↦
          let same : c ≡ d = ground (arith, h, q, k fd) in
          (
            ground (arith, same, m),
            record ch { events_interested = events },
            ground (arith, same),
            ground (arith, q),
          )
      | inr q ↦
          let (old, x, sx, fx) = g.registered fd ev d (ground (arith, h, q, k fd)) in
          let other : (d == c) ≡ false = ground (arith, s, sx, fx, q) in
          (old, x, ground (arith, other, sx), fx)
    ];
    once = g.once;
  }

  pub unlisted-Agrees :
      (w : EventLoop E) (c : ℕ) (v : Option SelectableChannel)
      → Agrees w
      → has_channel c w.channels ≡ false
      → Agrees (changed w w.epoll w.channels c v)
  unlisted-Agrees w c v g n = record {
    listed = λ d h.
        let (x, sx, ox, ix) = g.listed d h in
        let other : (d == c) ≡ false = ground (arith, h, n) in
        (x, ground (arith, other, sx), ox, ix);
    registered = λ fd events d h.
        let (old, x, sx, fx) = g.registered fd events d h in
        let other : (d == c) ≡ false = ground (arith, old, n) in
        (old, x, ground (arith, other, sx), fx);
    once = g.once;
  }
