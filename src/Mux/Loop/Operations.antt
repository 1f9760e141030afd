-- ===== src/Mux/Loop/Operations.antt =====
-- Every operation on a channel keeps the loop, the kernel and the channels in agreement.
use mu_quinet.Prelude.{
  ℕ, ◌≡◌, ◌≢◌, refl, sym, ◌∙◌, subst, true, false, Bool-cases, inl, inr, Option, none, some, arith,
  ◌==◌, if◌then◌else◌,
}
use mathlib.Core.Option.{some-injective, none-ne-some}
use mu_quinet.Mux.Loop.{
  SelectableChannel, new_channel, Epoll, EpollLaws, EventLoop, Interest, Handler, set_cb,
  interested, put, has_channel, poller_add, poller_remove, poller_update, add_channel,
  remove_channel, update_channel, assign, register, set_interest, unregister_self, destroy,
}
use mu_quinet.Mux.Loop.Agrees.{
  Agrees, not-listed, added-Agrees, removed-Agrees, updated-Agrees, unlisted-Agrees,
}

pub data Operation : Type 0 where
  creates : (fd : ℕ) → Operation
  registers unregisters destroys : Operation
  sets : Interest → Operation
  sets_cb : Handler → Operation

module _ {E : Type 0} (ops : Epoll E) where
  -- An operation on the channel at an address; `none` is the use of freed memory, or of memory in use
  -- for a new channel.
  unfoldable pub operate_at :
      EventLoop E → ℕ → Option SelectableChannel → Operation → Option (EventLoop E)
  unfolding register set_interest unregister_self destroy new_channel set_cb
  operate_at w c none (creates fd) = some (assign ops w c (new_channel fd))
  operate_at w c (some ch) (creates fd) = none
  operate_at w c none registers = none
  operate_at w c (some ch) registers = some (register ops w c ch)
  operate_at w c none unregisters = none
  operate_at w c (some ch) unregisters = some (unregister_self ops w c ch)
  operate_at w c none destroys = none
  operate_at w c (some ch) destroys = some (destroy ops w c ch)
  operate_at w c none (sets_cb b) = none
  operate_at w c (some ch) (sets_cb b) = some (assign ops w c (set_cb b ch))
  operate_at w c none (sets i) = none
  operate_at w c (some ch) (sets i) = some (set_interest ops i w c ch)

  unfoldable pub operate : EventLoop E → ℕ → Operation → Option (EventLoop E)
  unfolding operate_at
  operate w c op = operate_at w c (w.store c) op

  module _ (laws : EpollLaws ops) where
    some-ne-none : {A : Type 0} (o : Option A) (a : A) → o ≡ some a → o ≢ none
    some-ne-none o a e f = none-ne-some a (sym f ∙ e)

    register-Agrees :
        (w : EventLoop E) (c : ℕ) (ch : SelectableChannel)
        → Agrees ops laws w
        → w.store c ≡ some ch
        → laws.interest w.epoll ch.fd ≡ none
        → Agrees ops laws (register ops w c ch)
    unfolding register add_channel poller_add
    register-Agrees w c ch g s n =
        let (e, eq, k) = laws.add w.epoll ch.fd ch.events_interested c n in
        let new = not-listed ops laws w c ch g s n in
        subst (Agrees ops laws) (ground (arith, eq, new)) (added-Agrees ops laws w e c ch g s n k)

    -- A channel that is not in the vector, or that does not know the loop.
    ownerless :
        (w : EventLoop E) (c : ℕ) (ch : SelectableChannel)
        → Agrees ops laws w
        → w.store c ≡ some ch
        → ch.has_owner ≡ false
        → has_channel c w.channels ≡ false
    ownerless w c ch g s o = elim (Bool-cases (has_channel c w.channels)) [
      | inr e ↦ e
      | inl e ↦ let (x, sx, ox, _) = g.listed c e in absurd (ground (arith, s, o, sx, ox))
    ]

    -- Taking a channel out of the loop and writing its object.
    abbrev without : EventLoop E → ℕ → SelectableChannel → Option SelectableChannel → EventLoop E
    without w c ch v =
        let w' = if ch.has_owner then remove_channel ops w c ch else w in
        record w' { store = put w'.store c v }

    without-Agrees :
        (w : EventLoop E) (c : ℕ) (ch : SelectableChannel) (v : Option SelectableChannel)
        → Agrees ops laws w
        → w.store c ≡ some ch
        → Agrees ops laws (without w c ch v)
    unfolding remove_channel poller_remove
    without-Agrees w c ch v g s = elim (Bool-cases (has_channel c w.channels)) [
      | inr n ↦ subst (Agrees ops laws) (ground (arith, n)) (unlisted-Agrees ops laws w c v g n)
      | inl m ↦
          let (x, sx, ox, ix) = g.listed c m in
          let same : x ≡ ch = some-injective _ _ (sym sx ∙ s) in
          let o : ch.has_owner ≡ true = subst (λ y. y.has_owner ≡ true) same ox in
          let i : laws.interest w.epoll ch.fd ≡ some (ch.events_interested, c) =
            subst (λ y. laws.interest w.epoll y.fd ≡ some (y.events_interested, c)) same ix in
          let (e, eq, k) = laws.delete w.epoll ch.fd (some-ne-none _ _ i) in
          subst (Agrees ops laws) (ground (arith, eq, m, o))
            (removed-Agrees ops laws w e c ch v g s m k)
    ]

    set_interest-Agrees :
        (i : Interest) (w : EventLoop E) (c : ℕ) (ch : SelectableChannel)
        → Agrees ops laws w
        → w.store c ≡ some ch
        → Agrees ops laws (set_interest ops i w c ch)
    unfolding set_interest update_channel poller_update
    set_interest-Agrees i w c ch g s = elim (Bool-cases (has_channel c w.channels)) [
      | inr n ↦
          let v : Option SelectableChannel =
            some (record ch { events_interested = interested i ch.events_interested }) in
          subst (Agrees ops laws) (ground (arith, n)) (unlisted-Agrees ops laws w c v g n)
      | inl m ↦
          let (x, sx, ox, ix) = g.listed c m in
          let same : x ≡ ch = some-injective _ _ (sym sx ∙ s) in
          let o : ch.has_owner ≡ true = subst (λ y. y.has_owner ≡ true) same ox in
          let k0 : laws.interest w.epoll ch.fd ≡ some (ch.events_interested, c) =
            subst (λ y. laws.interest w.epoll y.fd ≡ some (y.events_interested, c)) same ix in
          let events : ℕ = interested i ch.events_interested in
          let (e, eq, k) = laws.modify w.epoll ch.fd events c (some-ne-none _ _ k0) in
          subst (Agrees ops laws) (ground (arith, eq, m, o))
            (updated-Agrees ops laws w e c events ch g s o m k)
    ]

    pub touched-Agrees :
        (w : EventLoop E) (c : ℕ) (ch ch' : SelectableChannel)
        → Agrees ops laws w
        → w.store c ≡ some ch
        → ch'.fd ≡ ch.fd
        → ch'.has_owner ≡ ch.has_owner
        → ch'.events_interested ≡ ch.events_interested
        → Agrees ops laws (assign ops w c ch')
    touched-Agrees w c ch ch' g s f o i = record {
      listed = λ d h.
          let (x, sx, ox, ix) = g.listed d h in
          elim (Bool-cases (d == c)) [
            | inr q ↦ (x, ground (arith, q, sx), ox, ix)
            | inl q ↦ (
              ch',
              ground (arith, q),
              ground (arith, q, s, sx, ox, o),
              ground (arith, q, s, sx, ix, f, i),
            )
          ];
      registered = λ fd events d h.
          let (old, x, sx, fx) = g.registered fd events d h in
          elim (Bool-cases (d == c)) [
            | inr q ↦ (old, x, ground (arith, q, sx), fx)
            | inl q ↦ (old, ch', ground (arith, q), ground (arith, q, s, sx, fx, f))
          ];
      once = g.once;
    }

    set_cb-Agrees :
        (b : Handler) (w : EventLoop E) (c : ℕ) (ch : SelectableChannel)
        → Agrees ops laws w
        → w.store c ≡ some ch
        → Agrees ops laws (assign ops w c (set_cb b ch))
    unfolding set_cb
    set_cb-Agrees Handler.read w c ch g s = touched-Agrees w c ch _ g s refl refl refl
    set_cb-Agrees Handler.write w c ch g s = touched-Agrees w c ch _ g s refl refl refl
    set_cb-Agrees Handler.close w c ch g s = touched-Agrees w c ch _ g s refl refl refl
    set_cb-Agrees Handler.error w c ch g s = touched-Agrees w c ch _ g s refl refl refl

    not-alive :
        (w : EventLoop E) (c : ℕ)
        → Agrees ops laws w
        → w.store c ≡ none
        → has_channel c w.channels ≡ false
    not-alive w c g n = elim (Bool-cases (has_channel c w.channels)) [
      | inr e ↦ e
      | inl e ↦ let (x, sx, _, _) = g.listed c e in absurd (none-ne-some x (sym n ∙ sx))
    ]

    -- What an operation on an object that is alive, or is not, comes to.
    operate_at-Agrees :
        (w : EventLoop E) (c : ℕ) (o : Option SelectableChannel) (op : Operation) (w' : EventLoop E)
        → Agrees ops laws w
        → w.store c ≡ o
        → ((ch : SelectableChannel)
            → w.store c ≡ some ch
            → op ≡ registers
            → laws.interest w.epoll ch.fd ≡ none)
        → operate_at w c o op ≡ some w'
        → Agrees ops laws w'
    unfolding operate_at unregister_self destroy
    operate_at-Agrees w c none (creates fd) w' g s k e =
        subst (Agrees ops laws) (some-injective _ _ e)
          (unlisted-Agrees ops laws w c (some (new_channel fd)) g (not-alive w c g s))
    operate_at-Agrees w c (some ch) registers w' g s k e =
        subst (Agrees ops laws) (some-injective _ _ e) (register-Agrees w c ch g s (k ch s refl))
    operate_at-Agrees w c (some ch) unregisters w' g s k e =
        subst (Agrees ops laws) (some-injective _ _ e)
          (without-Agrees w c ch (some (record ch { has_owner = false })) g s)
    operate_at-Agrees w c (some ch) destroys w' g s k e =
        subst (Agrees ops laws) (some-injective _ _ e) (without-Agrees w c ch none g s)
    operate_at-Agrees w c (some ch) (sets i) w' g s k e =
        subst (Agrees ops laws) (some-injective _ _ e) (set_interest-Agrees i w c ch g s)
    operate_at-Agrees w c (some ch) (sets_cb b) w' g s k e =
        subst (Agrees ops laws) (some-injective _ _ e) (set_cb-Agrees b w c ch g s)
    operate_at-Agrees w c none (sets_cb b) w' g s k e = absurd (none-ne-some _ e)
    operate_at-Agrees w c (some ch) (creates fd) w' g s k e = absurd (none-ne-some _ e)
    operate_at-Agrees w c none registers w' g s k e = absurd (none-ne-some _ e)
    operate_at-Agrees w c none unregisters w' g s k e = absurd (none-ne-some _ e)
    operate_at-Agrees w c none destroys w' g s k e = absurd (none-ne-some _ e)
    operate_at-Agrees w c none (sets i) w' g s k e = absurd (none-ne-some _ e)

    -- Creating, registering, unregistering and destroying a channel, and changing what it is
    -- interested in, keep the loop's vector, the kernel's set and the channels in agreement, if a
    -- channel is only registered while the kernel has nothing for its descriptor.
    pub operate-Agrees :
        (w : EventLoop E) (c : ℕ) (op : Operation) (w' : EventLoop E)
        → Agrees ops laws w
        → ((ch : SelectableChannel)
            → w.store c ≡ some ch
            → op ≡ registers
            → laws.interest w.epoll ch.fd ≡ none)
        → operate w c op ≡ some w'
        → Agrees ops laws w'
    unfolding operate
    operate-Agrees w c op w' g k e = operate_at-Agrees w c (w.store c) op w' g refl k e
