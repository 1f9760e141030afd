-- ===== src/Examples/Threads.antt =====
-- The start of Mux and the thread of the event loop at concrete inputs.
use mu_quinet.Prelude.{ℕ, ◌≤◌, ◌≡◌, refl, List, [], ◌∷◌, true, false, Option, none, some}
use mu_quinet.Mux.Loop.{Handler, EventLoop}
use mu_quinet.Mux.Loop.Stopping
use mu_quinet.Mux.Loop.Stopping.{Phase, LoopThread, Next, count_polls, run-count_polls}
use mu_quinet.Mux.Channels.{Mux}
use mu_quinet.Mux.Channels.Events.{Event, IsValid}
use mu_quinet.Mux.Channels.Listening.{mux_init, run, ArePossible, mux_init-run}
use mu_quinet.Examples.Loops.{Set, set_ops, set_laws, loop0}

mux_init-run_example :
    (m : Mux Set) × (mux_init set_ops true 7 5 (λ x. none) ≡ some m)
    × ((es : List Event)
        → ArePossible set_ops set_laws m es
        → (m' : Mux Set) × (run set_ops m es ≡ some m') × IsValid set_ops set_laws m')
unfolding set_laws
mux_init-run_example = mux_init-run set_ops set_laws 7 5 (λ x. none) (λ fd. refl)

abbrev waits : Handler → ℕ → EventLoop Set → Option (EventLoop Set)
waits b c w = some w

-- A stop, and then the round that is under way.
abbrev thread0 : LoopThread Set
thread0 = record { loop = loop0; stopflag = false; phase = Phase.polling }

abbrev events0 : List Stopping.Event
events0 = Stopping.Event.stops ∷ Stopping.Event.polls ((1, 7) ∷ []) ∷ []

abbrev stopped0 : LoopThread Set
stopped0 = record thread0 { stopflag = true }

abbrev late0 : List Stopping.Event
late0 = Stopping.Event.polls [] ∷ Stopping.Event.tests ∷ []

abbrev after0 : LoopThread Set
after0 = record stopped0 { phase = Phase.ended }

runs0 : Stopping.run set_ops waits stopped0 late0 ≡ Next.goes after0
unfolding Stopping.run
runs0 = refl

run-count_polls_example : count_polls late0 ≤ 1
run-count_polls_example = run-count_polls set_ops waits late0 stopped0 after0 refl refl runs0
