-- ===== src/Pcb/Ports.antt =====
-- The local ports that successive calls of `nextAvailPort` give.
use mu_quinet.Prelude.{
  ℕ, zero, suc, ◌+◌, ◌-◌, ◌%◌, ◌^◌, ◌<◌, ◌≡◌, ◌≢◌, refl, ap, arith, swap16, swap16-injective, ◌↔◌,
}
use mu_quinet.Pcb.{first_port, next_avail_port}

-- The counter after `n` calls.
unfoldable pub counter_after : ℕ → ℕ
unfolding next_avail_port
counter_after zero = first_port
counter_after (suc n) = (next_avail_port (counter_after n)).0

-- The port, in network byte order, that call `n` gives, counting from 0.
unfoldable pub port_of_call : ℕ → ℕ
unfolding counter_after next_avail_port
port_of_call n = (next_avail_port (counter_after n)).1

counter_after_lem : (n : ℕ) → counter_after n ≡ (first_port + n) % 2 ^ 16
unfolding counter_after next_avail_port
counter_after_lem zero = refl
counter_after_lem (suc n) = omega (arith, counter_after_lem n)

port_of_call_lem : (n : ℕ) → port_of_call n ≡ swap16 ((first_port + n + 1) % 2 ^ 16)
unfolding port_of_call next_avail_port
port_of_call_lem n = ap swap16 (omega (arith, counter_after_lem n))

-- Two calls fewer than 65536 apart give different ports.
pub port_of_call-ne : (m n : ℕ) → m < n → n - m < 2 ^ 16 → port_of_call m ≢ port_of_call n
port_of_call-ne m n h near e =
    let same : (first_port + m + 1) % 2 ^ 16 ≡ (first_port + n + 1) % 2 ^ 16 =
      swap16-injective _ _ (omega arith) (omega arith)
        (omega (arith, port_of_call_lem m, port_of_call_lem n)) in
    omega arith

-- Call number 64511 gives port 0, which the code reads as "no port yet"; the calls before give
-- ports above 1024, and no call but those 65536 apart from it gives 0.
pub port_of_call-zero : (n : ℕ) → (n % 2 ^ 16 ≡ 64511) ↔ (port_of_call n ≡ 0)
unfolding swap16
port_of_call-zero n = ground (arith, port_of_call_lem n)
