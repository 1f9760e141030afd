-- ===== src/Interface/Device.antt =====
-- TunDevice::init and base/CmdRunner.cpp.
use mu_quinet.Prelude.{
  ℕ, ◌≡◌, refl, sym, ap, ◌∙◌, ◌↔◌, List, [], ◌∷◌, ◌++◌, false, Option, none, some, take,
}
use mathlib.Core.Option.{some-injective, none-ne-some}
use mu_quinet.Daemon.{Daemon, stop, exit}

pub data Result : Type 0 where
  -- A write through the null pointer `_devname`.
  crashed : Result
  exited : Daemon → Result
  -- The device's name and descriptor, and the commands that were run.
  ready : (devname : List ℕ) (fd : ℕ) (commands : List (List ℕ)) → Result

-- `vsnprintf` into `_buf[128]`.
abbrev pub cmd_runner : List ℕ → List ℕ
cmd_runner text = take 127 text

-- "ip link set dev %s up"
unfoldable pub set_if_up : List ℕ → List ℕ
set_if_up devname = cmd_runner (
    (105 ∷ 112 ∷ 32 ∷ 108 ∷ 105 ∷ 110 ∷ 107 ∷ 32 ∷ 115 ∷ 101 ∷ 116 ∷ 32 ∷ 100 ∷ 101 ∷ 118 ∷ 32 ∷ [])
    ++ devname
    ++ (32 ∷ 117 ∷ 112 ∷ []))

-- "ip addr add dev %s local %s"
unfoldable pub set_if_addr : List ℕ → List ℕ → List ℕ
set_if_addr devname addr_cidr = cmd_runner (
    (105 ∷ 112 ∷ 32 ∷ 97 ∷ 100 ∷ 100 ∷ 114 ∷ 32 ∷ 97 ∷ 100 ∷ 100 ∷ 32 ∷ 100 ∷ 101 ∷ 118 ∷ 32 ∷ [])
    ++ devname
    ++ (32 ∷ 108 ∷ 111 ∷ 99 ∷ 97 ∷ 108 ∷ 32 ∷ [])
    ++ addr_cidr)

-- `allocateTun`, where `opened` is the descriptor that `open` gives and `allocated` the name that the
-- `ioctl` sets; both are `none` on failure.
unfoldable pub allocate_tun :
    (opened : Option ℕ) (allocated : Option (List ℕ)) → List ℕ → Daemon → Result
unfolding exit stop
allocate_tun opened allocated name d = elim opened [
  | none ↦ exited (exit false (stop d))
  | some fd ↦ elim name [
    | x ∷ xs ↦ crashed
    | [] ↦ elim allocated [
      | none ↦ exited (exit false (stop d))
      | some devname ↦ ready devname fd []
    ]
  ]
]

-- `init`: what the commands return is not looked at.
unfoldable pub init :
    (opened : Option ℕ) (allocated : Option (List ℕ)) → List ℕ → List ℕ → Daemon → Result
unfolding allocate_tun set_if_up set_if_addr
init opened allocated name addr_cidr d = elim (allocate_tun opened allocated name d) [
  | crashed ↦ crashed
  | exited d' ↦ exited d'
  | ready devname fd commands ↦
      ready devname fd (commands ++ set_if_up devname ∷ set_if_addr devname addr_cidr ∷ [])
]

abbrev made : Result → Option (List ℕ × ℕ × List (List ℕ))
made crashed = none
made (exited d) = none
made (ready devname fd commands) = some (devname, fd, commands)

-- What `init` runs on a device.
abbrev pub set_up : List ℕ → List ℕ → List (List ℕ)
set_up devname addr_cidr = set_if_up devname ∷ set_if_addr devname addr_cidr ∷ []

ready_only :
    (addr_cidr : List ℕ) (d : Daemon) (devname : List ℕ) (fd : ℕ) (commands : List (List ℕ))
    (opened : Option ℕ) (allocated : Option (List ℕ)) (name : List ℕ)
    → init opened allocated name addr_cidr d ≡ ready devname fd commands
    → (opened ≡ some fd)
      × (allocated ≡ some devname)
      × (name ≡ [])
      × (commands ≡ set_up devname addr_cidr)
unfolding init allocate_tun
ready_only addr_cidr d devname fd commands none allocated name e =
    let w : List ℕ × ℕ × List (List ℕ) = (devname, fd, commands) in
    absurd (none-ne-some w (ap made e))
ready_only addr_cidr d devname fd commands (some f) allocated (x ∷ xs) e =
    let w : List ℕ × ℕ × List (List ℕ) = (devname, fd, commands) in
    absurd (none-ne-some w (ap made e))
ready_only addr_cidr d devname fd commands (some f) none [] e =
    let w : List ℕ × ℕ × List (List ℕ) = (devname, fd, commands) in
    absurd (none-ne-some w (ap made e))
ready_only addr_cidr d devname fd commands (some f) (some n) [] e =
    let w : List ℕ × ℕ × List (List ℕ) = (devname, fd, commands) in
    let v : List ℕ × ℕ × List (List ℕ) = (n, f, set_up n addr_cidr) in
    let same : v ≡ w = some-injective v w (ap made e) in
    let named : n ≡ devname = ap (λ x. x.0) same in
    (
      ap (λ x. some (x.1)) same,
      ap some named,
      refl,
      sym (ap (λ x. x.2) same) ∙ ap (λ x. set_up x addr_cidr) named,
    )

-- TunDevice::init makes a device exactly if the clone device can be opened, the kernel gives a name,
-- and no name is configured, and has then run the command that sets it up and the one that gives it
-- its address. With a configured name it never makes one.
pub init_iff :
    (opened : Option ℕ) (allocated : Option (List ℕ)) (name addr_cidr : List ℕ) (d : Daemon)
    (devname : List ℕ) (fd : ℕ) (commands : List (List ℕ))
    → (init opened allocated name addr_cidr d ≡ ready devname fd commands) ↔ (
        (opened ≡ some fd)
        × (allocated ≡ some devname)
        × (name ≡ [])
        × (commands ≡ set_up devname addr_cidr))
unfolding init allocate_tun
init_iff opened allocated name addr_cidr d devname fd commands = (
  ready_only addr_cidr d devname fd commands opened allocated name,
  λ (a, b, c, e). rw (a, b, c, e) refl,
)
