-- ===== src/Mux/Channels/Accepting.antt =====
-- MasterListener's loop over the connections that wait.
use mu_quinet.Prelude.{ℕ, ◌≡◌, refl, List, [], ◌∷◌, some, arith}
use mu_quinet.Mux.Loop.{Epoll, EpollLaws}
use mu_quinet.Mux.Channels.{Mux, on_new_connection, accept_all}
use mu_quinet.Mux.Channels.Events.{Event, on_event, IsValid, Possible, on_event-IsValid}

module _ {E : Type 0} (ops : Epoll E) (laws : EpollLaws ops) where
  -- Each connection is possible after those before it.
  unfoldable pub Accepts : Mux E → List (ℕ × ℕ × ℕ) → Type 0
  Accepts m [] = Unit
  Accepts m ((connfd, a, c) ∷ rest) =
      Possible ops laws m (Event.connection a c connfd)
      × ((m' : Mux E) → on_new_connection ops m a c connfd ≡ some m' → Accepts m' rest)

  -- Accepting all connections that wait ends, and the loop, the kernel, the channels and their owners
  -- agree after it, if each has free addresses and a descriptor that is not in the kernel's set.
  pub accept_all-IsValid :
      (l : List (ℕ × ℕ × ℕ)) (m : Mux E)
      → IsValid ops laws m
      → Accepts m l
      → (m' : Mux E) × (accept_all ops m l ≡ some m') × IsValid ops laws m'
  unfolding accept_all Accepts on_event
  accept_all-IsValid [] m v k = (m, refl, v)
  accept_all-IsValid ((connfd, a, c) ∷ rest) m v (p, next) =
      let (m1, e, v1) = on_event-IsValid ops laws m (Event.connection a c connfd) v p in
      let (m2, f, v2) = accept_all-IsValid rest m1 v1 (next m1 e) in (m2, ground (arith, e, f), v2)
