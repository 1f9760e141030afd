-- ===== src/Interceptor/Fds.antt =====
-- Which descriptors are the interceptor's, and which channel each has.
use mu_quinet.Prelude.{
  ℕ, zero, suc, ◌∷◌, [], ◌-◌, ◌≤◌, ◌<◌, ◌≡◌, ◌≢◌, refl, ◌∙◌, ◌↔◌, List, true, some, arith, length,
  take, length-set, get_elem?-set_self, get_elem?-set_ne,
}
use mu_quinet.Interceptor.{
  Interceptor, fd_range, is_assigned_by_muquinet, next_avail_fd, fd2channel, set_fd2channel,
}

-- The vector has an entry for each descriptor of the range, and the next descriptor is in the range.
pub record IsValid (i : Interceptor) : Type 0 where
  pub entries : length i.vector ≡ i.count
  pub next : is_assigned_by_muquinet i (next_avail_fd i) ≡ true

length-take : (n : ℕ) (l : List ℕ) → n ≤ length l → length (take n l) ≡ n
length-take zero l h = refl
length-take (suc n) [] h = omega arith
length-take (suc n) (x ∷ l) h = omega (arith, length-take n l (omega arith))

-- The range that muQuinetd gives a new process: its 1024 descriptors from 4096 are the
-- interceptor's, no other is, and the state is valid.
pub fd_range-IsValid :
    (memory : List ℕ)
    → 1024 ≤ length memory
    → (i : Interceptor) × (fd_range 4096 1024 memory ≡ some i)
      × IsValid i
      × ((fd : ℕ) → (is_assigned_by_muquinet i fd ≡ true) ↔ (4096 ≤ fd) × (fd < 5120))
unfolding fd_range is_assigned_by_muquinet next_avail_fd
fd_range-IsValid memory h = (
  record { startfd = 4096; count = 1024; last_fd_assigned = 4095; vector = take 1024 memory },
  refl,
  record { entries = length-take 1024 memory h; next = refl },
  λ fd. ground arith,
)

-- The entry that is set is the one that is read, and no other entry of the range changes.
pub fd2channel-set_fd2channel :
    (i : Interceptor) (fd ch : ℕ)
    → IsValid i
    → is_assigned_by_muquinet i fd ≡ true
    → (fd2channel (set_fd2channel i fd ch) fd ≡ some ch)
      × ((fd' : ℕ)
          → is_assigned_by_muquinet i fd' ≡ true
          → fd ≢ fd'
          → fd2channel (set_fd2channel i fd ch) fd' ≡ fd2channel i fd')
unfolding is_assigned_by_muquinet fd2channel set_fd2channel
fd2channel-set_fd2channel i fd ch v a = (
  ground (arith, get_elem?-set_self i.vector (fd - i.startfd) ch (ground (arith, v.entries))),
  λ fd' b ne. ground (
    arith,
    get_elem?-set_ne i.vector {i = fd - i.startfd} {j = fd' - i.startfd} ch (ground arith),
  ),
)

pub set_fd2channel-IsValid :
    (i : Interceptor) (fd ch : ℕ) → IsValid i → IsValid (set_fd2channel i fd ch)
unfolding set_fd2channel next_avail_fd is_assigned_by_muquinet
set_fd2channel-IsValid i fd ch v = record {
  entries = length-set i.vector (fd - i.startfd) ch ∙ v.entries;
  next = v.next;
}
