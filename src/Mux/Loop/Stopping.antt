-- ===== src/Mux/Loop/Stopping.antt =====
-- EventLoop::loop as a thread, with the calls of EventLoop::stop from other threads between its steps.
use mu_quinet.Prelude.{
  ℕ, suc, ◌+◌, ◌≤◌, ◌≡◌, refl, sym, ap, inl, inr, subst, List, [], ◌∷◌, Bool, true, false, Option,
  none, some, Option-cases, arith, if◌then◌else◌,
}
use mathlib.Core.Option.{some-injective, none-ne-some}
use mathlib.Core.Bool.{true≢false}
use mu_quinet.Mux.Loop.{Handler, Epoll, EventLoop}
use mu_quinet.Mux.Loop.Dispatch.{round}

-- Before `stopflag` is cleared, before its test, in the poller or the callbacks, after the loop.
pub data Phase : Type 0 where
  starting testing polling ended : Phase

pub record LoopThread (E : Type 0) : Type 0 where
  pub loop : EventLoop E
  pub stopflag : Bool
  pub phase : Phase

-- `polls` is a whole round, with what the kernel reports.
pub data Event : Type 0 where
  begins tests stops : Event
  polls : List (ℕ × ℕ) → Event

-- `impossible`: the event cannot come now. `crashed`: a use of freed memory.
pub data Next (E : Type 0) : Type 0 where
  impossible crashed : Next E
  goes : LoopThread E → Next E

-- How many more rounds a stopped loop can make.
abbrev pub left : Phase → ℕ
left Phase.polling = 1
left _ = 0

abbrev pub begun : Phase → Bool
begun Phase.starting = false
begun _ = true

unfoldable pub count_polls : List Event → ℕ
count_polls [] = 0
count_polls (Event.polls reports ∷ es) = suc (count_polls es)
count_polls (e ∷ es) = count_polls es

counted :
    (e : Event) (es : List Event) → count_polls (e ∷ es) ≡ count_polls (e ∷ []) + count_polls es
unfolding count_polls
counted Event.begins es = omega arith
counted Event.tests es = omega arith
counted Event.stops es = omega arith
counted (Event.polls reports) es = omega arith

module _ {E : Type 0} (ops : Epoll E)
    (callback : Handler → ℕ → EventLoop E → Option (EventLoop E)) where
  unfoldable pub step : LoopThread E → Phase → Event → Next E
  unfolding round
  step t phase Event.stops = goes (record t { stopflag = true })
  step t Phase.starting Event.begins = goes (record t { stopflag = false; phase = Phase.testing })
  step t Phase.testing Event.tests =
      goes (record t { phase = if t.stopflag then Phase.ended else Phase.polling })
  step t Phase.polling (Event.polls reports) = elim (round ops callback (some reports) t.loop) [
    | none ↦ crashed
    | some w ↦ goes (record t { loop = w; phase = Phase.testing })
  ]
  step t _ _ = impossible

  unfoldable pub run : LoopThread E → List Event → Next E
  unfolding step
  run t [] = goes t
  run t (e ∷ es) = elim (step t t.phase e) [
    | impossible ↦ impossible
    | crashed ↦ crashed
    | goes t' ↦ run t' es
  ]

  abbrev pub state : Next E → Option (LoopThread E)
  state impossible = none
  state crashed = none
  state (goes t) = some t

  abbrev Stopped : ℕ → ℕ → LoopThread E → Type 0
  Stopped made before t =
      (t.stopflag ≡ true) × (begun t.phase ≡ true) × (made + left t.phase ≤ before)

  step-Stopped :
      (t : LoopThread E) (phase : Phase) (e : Event) (t' : LoopThread E)
      → t.phase ≡ phase
      → t.stopflag ≡ true
      → begun phase ≡ true
      → step t phase e ≡ goes t'
      → Stopped (count_polls (e ∷ [])) (left phase) t'
  unfolding step count_polls
  step-Stopped t phase Event.stops t' p s b h =
      subst (Stopped 0 (left phase)) (some-injective _ t' (ap state h))
        (refl, rw p b, rw p (omega arith))
  step-Stopped t Phase.testing Event.tests t' p s b h =
      subst (Stopped 0 0) (some-injective _ t' (ap state h)) (s, rw s refl, rw s (omega arith))
  step-Stopped t Phase.polling (Event.polls reports) t' p s b h =
      elim (Option-cases (round ops callback (some reports) t.loop)) [
        | inl n ↦ absurd (none-ne-some t' (ground (arith, ap state h, n)))
        | inr (w, n) ↦
            let u : LoopThread E = record t { loop = w; phase = Phase.testing } in
            subst (Stopped 1 1) (some-injective u t' (ground (arith, ap state h, n)))
              (s, refl, omega arith)
      ]
  step-Stopped t Phase.starting e t' p s b h = absurd (true≢false (sym b))
  step-Stopped t _ _ t' p s b h = absurd (none-ne-some t' (ap state h))

  -- Once the thread has begun, a stopped loop makes no round, or one more at most if it is in a round.
  pub run-count_polls :
      (es : List Event) (t t' : LoopThread E)
      → t.stopflag ≡ true
      → begun t.phase ≡ true
      → run t es ≡ goes t'
      → count_polls es ≤ left t.phase
  unfolding run count_polls
  run-count_polls [] t t' s b h = omega arith
  run-count_polls (e ∷ es) t t' s b h = after (step t t.phase e) refl h (λ u q r.
      let (s', b', k) = step-Stopped t t.phase e u refl s b q in
      omega (arith, k, counted e es, run-count_polls es u t' s' b' r))
    where
      after :
          (n : Next E)
          → step t t.phase e ≡ n
          → elim n [ impossible ↦ impossible | crashed ↦ crashed | goes u ↦ run u es ] ≡ goes t'
          → ((u : LoopThread E)
              → step t t.phase e ≡ goes u
              → run u es ≡ goes t'
              → count_polls (e ∷ es) ≤ left t.phase)
          → count_polls (e ∷ es) ≤ left t.phase
      after impossible q r f = absurd (none-ne-some t' (ap state r))
      after crashed q r f = absurd (none-ne-some t' (ap state r))
      after (goes u) q r f = f u q r

  -- A stop that comes before the thread has begun is lost.
  pub run-lost :
      (t : LoopThread E)
      → t.phase ≡ Phase.starting
      → run t (Event.stops ∷ Event.begins ∷ [])
        ≡ goes (record t { stopflag = false; phase = Phase.testing })
  unfolding run step
  run-lost t p = rw (run, step, p) refl
