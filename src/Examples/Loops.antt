-- ===== src/Examples/Loops.antt =====
-- The event loop and its channels at concrete inputs.
use mu_quinet.Prelude.{
  ℕ, ◌≡◌, refl, [], ◌∷◌, true, false, Option, none, some, Option-cases, Bool-cases, ap, sym, subst,
  ◌∙◌, inl, inr, arith, ◌==◌, if◌then◌else◌,
}
use mathlib.Core.Option.{none-ne-some, some-injective}
use mu_quinet.Mux.Loop.{SelectableChannel, Epoll, EpollLaws, EventLoop, has_channel}
use mu_quinet.Mux.Loop.Agrees.{Agrees, Nodup}
use mu_quinet.Mux.Loop.Dispatch.{fires, handle_events}
use mu_quinet.Mux.Channels.{ReqRespChannel, Mux, tcp_pipes, find_channel}
use mu_quinet.Mux.Channels.Release.{own}
use mu_quinet.Mux.Channels.Events.{Event, IsValid, EndsValid, on_event-IsValid}
use mu_quinet.Mux.Channels.EndOfFile.{callbacks, on_eof_lem}

-- The kernel's set as a function.
abbrev pub Set : Type 0
Set = ℕ → Option (ℕ × ℕ)

abbrev pub set_ops : Epoll Set
set_ops = record {
  ctl_add = λ fd events a e. elim (e fd) [
    | none ↦ some (λ x. if x == fd then some (events, a) else e x)
    | some _ ↦ none
  ];
  ctl_mod = λ fd events a e. elim (e fd) [
    | none ↦ none
    | some _ ↦ some (λ x. if x == fd then some (events, a) else e x)
  ];
  ctl_del =
      λ fd e. elim (e fd) [ none ↦ none | some _ ↦ some (λ x. if x == fd then none else e x) ];
}

unfoldable pub set_laws : EpollLaws set_ops
set_laws = record {
  interest = λ e fd. e fd;
  add = λ e fd events a n. (_, ground (arith, n), λ x. refl);
  modify = λ e fd events a n. elim (Option-cases (e fd)) [
    | inl z ↦ absurd (n z)
    | inr (v, z) ↦ (_, ground (arith, z), λ x. refl)
  ];
  delete = λ e fd n. elim (Option-cases (e fd)) [
    | inl z ↦ absurd (n z)
    | inr (v, z) ↦ (_, ground (arith, z), λ x. refl)
  ];
}

abbrev idle : EventLoop Set
idle = record { epoll = λ x. none; channels = []; store = λ x. none }

idle-Agrees : Agrees set_ops set_laws idle
unfolding has_channel set_laws
idle-Agrees = record {
  listed = λ c h. absurd (ground (arith, h));
  registered = λ fd events c h. absurd (none-ne-some (events, c) h);
  once = tt;
}

-- One channel, at 7 on the descriptor 5, that the loop watches.
abbrev pub watched0 : SelectableChannel
watched0 = record {
  fd = 5;
  events_interested = 3;
  events_received = 1;
  handling_events = false;
  has_owner = true;
  on_read = true;
  on_write = false;
  on_close = true;
  on_error = false;
}

abbrev pub loop0 : EventLoop Set
loop0 = record {
  epoll = λ x. if x == 5 then some (3, 7) else none;
  channels = 7 ∷ [];
  store = λ x. if x == 7 then some watched0 else none;
}

pub loop0-Agrees : Agrees set_ops set_laws loop0
unfolding has_channel set_laws
loop0-Agrees = record {
  listed = λ c h. elim (Bool-cases (c == 7)) [
    | inl q ↦
        let r : c ≡ 7 = ground (arith, q) in
        (watched0, ground (arith, q), refl, ap (λ x. some (3, x)) (sym r))
    | inr q ↦ absurd (ground (arith, h, q))
  ];
  registered = λ fd events c h. elim (Bool-cases (fd == 5)) [
    | inl q ↦
        let three : ℕ × ℕ = (3, 7) in
        let z : three ≡ (events, c) = some-injective three (events, c) (ground (arith, h, q)) in
        let p : 7 ≡ c = ap (λ (x : ℕ × ℕ). x.1) z in
        (ground (arith, p), watched0, ground (arith, p), ground (arith, q))
    | inr q ↦ let v : ℕ × ℕ = (events, c) in absurd (none-ne-some v (ground (arith, h, q)))
  ];
  once = (refl, tt);
}

abbrev mux0 : Mux Set
mux0 = record {
  loop = loop0;
  rr_channels = (1, record { fd = 5; s_channel = 7; watched = [] }) ∷ [];
}

abbrev channel0 : ReqRespChannel
channel0 = record { fd = 5; s_channel = 7; watched = [] }

only : (a : ℕ) (ch : ReqRespChannel) → find_channel a mux0.rr_channels ≡ some ch → a ≡ 1
unfolding find_channel
only a ch t = elim (Bool-cases (a == 1)) [
  | inl q ↦ ground (arith, q)
  | inr q ↦ absurd (none-ne-some ch (ground (arith, q, t)))
]

only_channel :
    (a : ℕ) (ch : ReqRespChannel) → find_channel a mux0.rr_channels ≡ some ch → channel0 ≡ ch
unfolding find_channel
only_channel a ch t = some-injective channel0 ch (ground (arith, only a ch t, t))

mux0-IsValid : IsValid set_ops set_laws mux0
unfolding has_channel
mux0-IsValid = record {
  agrees = loop0-Agrees;
  owns = record {
    alive = λ a ch d t h.
        let k : has_channel d (7 ∷ []) ≡ true =
          subst (λ x. has_channel d (own x) ≡ true) (sym (only_channel a ch t)) h in
        (watched0, ground (arith, k));
    once = λ a ch t. subst (λ x. Nodup (own x)) (only_channel a ch t) (refl, tt);
    apart = λ a b ch ch' d t u h k. only a ch t ∙ sym (only b ch' u);
  };
}

on_event-IsValid_example : EndsValid set_ops set_laws mux0 (Event.socket_call 1 (tcp_pipes 8 6 9 4))
unfolding find_channel set_laws
on_event-IsValid_example =
    on_event-IsValid set_ops set_laws mux0 (Event.socket_call 1 (tcp_pipes 8 6 9 4)) mux0-IsValid
      (_, refl, (refl, refl, refl, refl, omega arith, omega arith))

on_eof_lem_example :
    handle_events set_ops (callbacks set_ops (λ b c w. some w) mux0 1 7) 7 loop0 ≡ none
unfolding find_channel fires
on_eof_lem_example =
    on_eof_lem set_ops (λ b c w. some w) mux0 loop0 1
      (record { fd = 5; s_channel = 7; watched = [] }) watched0 refl refl refl refl refl refl
