-- ===== src/Mux/Channels/EndOfFile.antt =====
-- An interceptor that goes away: `onReadReady` reads 0 bytes and calls `removeRRChannel`, inside the
-- channel's own read callback.
use mu_quinet.Prelude.{
  ℕ, ◌≡◌, sym, ap, ◌∙◌, List, [], ◌∷◌, true, false, inl, inr, Option, none, some, Option-cases,
  arith, ◌==◌, if◌then◌else◌,
}
use mathlib.Core.Option.{some-injective, none-ne-some}
use mu_quinet.Mux.Loop.{SelectableChannel, Handler, Epoll, EventLoop, destroy}
use mu_quinet.Mux.Loop.Dispatch.{and_then, fires, handle_events}
use mu_quinet.Mux.Loop.Freed.{handle_events-freed}
use mu_quinet.Mux.Loop.Operations.{Operation, unregisters, destroys, operate, operate_at}
use mu_quinet.Mux.Channels.{
  ReqRespChannel, Mux, destroy_all, operate_all, release, find_channel, remove_rr_channel,
}
use mu_quinet.Mux.Channels.Lifetime.{operate_all-append}

module _ {E : Type 0} (ops : Epoll E) where
  -- The read callback of the channel at `a`, whose read gives 0 bytes: the loop after it.
  unfoldable pub on_eof : Mux E → ℕ → EventLoop E → Option (EventLoop E)
  unfolding remove_rr_channel
  on_eof m a w = elim (remove_rr_channel ops (record m { loop = w }) a) [
    | none ↦ none
    | some m' ↦ some m'.loop
  ]

  -- The callbacks of the loop, when that channel's is as above.
  abbrev pub callbacks :
      (Handler → ℕ → EventLoop E → Option (EventLoop E))
      → Mux E
      → (a c : ℕ) → Handler
      → ℕ
      → EventLoop E
      → Option (EventLoop E)
  callbacks run m a c Handler.read d w = if d == c then on_eof m a w else run Handler.read d w
  callbacks run m a c b d w = run b d w

  destroyed :
      (w w' : EventLoop E) (c : ℕ)
      → operate_all ops ((c, destroys) ∷ []) w ≡ some w'
      → w'.store c ≡ none
  unfolding operate_all operate operate_at destroy
  destroyed w w' c e = elim (Option-cases (w.store c)) [
    | inl n ↦ absurd (none-ne-some w' (ground (arith, e, n)))
    | inr (ch, s) ↦ ground (arith, some-injective (destroy ops w c ch) w' (ground (arith, e, s)))
  ]

  release-frees :
      (ch : ReqRespChannel) (w w' : EventLoop E)
      → operate_all ops (release ch) w ≡ some w'
      → w'.store ch.s_channel ≡ none
  unfolding release
  release-frees ch w w' e =
      let before : List (ℕ × Operation) = (ch.s_channel, unregisters) ∷ destroy_all ch.watched in
      let last : List (ℕ × Operation) = (ch.s_channel, destroys) ∷ [] in
      let q = sym (operate_all-append ops before last w) ∙ e in
      elim (Option-cases (operate_all ops before w)) [
        | inl n ↦ absurd (none-ne-some w' (ap (λ o. and_then o (operate_all ops last)) (sym n) ∙ q))
        | inr (w1, s) ↦
            destroyed w1 w' ch.s_channel (ap (λ o. and_then o (operate_all ops last)) (sym s) ∙ q)
      ]

  on_eof-frees :
      (m : Mux E) (a : ℕ) (ch : ReqRespChannel) (w w' : EventLoop E)
      → find_channel a m.rr_channels ≡ some ch
      → on_eof m a w ≡ some w'
      → w'.store ch.s_channel ≡ none
  unfolding on_eof remove_rr_channel
  on_eof-frees m a ch w w' f e = elim (Option-cases (operate_all ops (release ch) w)) [
    | inl n ↦ absurd (none-ne-some w' (ground (arith, e, f, n)))
    | inr (w1, s) ↦
        let same : w1 ≡ w' = some-injective w1 w' (ground (arith, e, f, s)) in
        ap (λ x. x.store ch.s_channel) (sym same) ∙ release-frees ch w w1 s
  ]

  -- When an interceptor closes its end and the loop sees a readable event alone, the read callback
  -- destroys the channel whose events are being handled, and `handleEventsReceived` then writes to
  -- freed memory, whatever the other callbacks do.
  pub on_eof_lem :
      (run : Handler → ℕ → EventLoop E → Option (EventLoop E)) (m : Mux E) (w : EventLoop E) (a : ℕ)
      (ch : ReqRespChannel) (x : SelectableChannel)
      → find_channel a m.rr_channels ≡ some ch
      → w.store ch.s_channel ≡ some x
      → fires Handler.close x.events_received ≡ false
      → fires Handler.error x.events_received ≡ false
      → fires Handler.read x.events_received ≡ true
      → x.on_read ≡ true
      → handle_events ops (callbacks run m a ch.s_channel) ch.s_channel w ≡ none
  on_eof_lem run m w a ch x f s nc ne r cb =
      handle_events-freed ops (callbacks run m a ch.s_channel) w ch.s_channel x s nc ne r cb
        (λ w1 w2 e. on_eof-frees m a ch w1 w2 f (ground (arith, e)))
