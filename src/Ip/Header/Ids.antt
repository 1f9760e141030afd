-- ===== src/Ip/Header/Ids.antt =====
-- The identifications that successive calls of `IpIdGenerator::next` give.
use mu_quinet.Prelude.{
  ℕ, zero, suc, ◌+◌, ◌-◌, ◌%◌, ◌<◌, ◌≡◌, ◌≢◌, refl, arith, swap16, swap16-injective, ap,
}
use mu_quinet.Ip.Header.{next_id}

-- `last` after `n` calls, and what call `n` returns, counting from 0.
unfoldable pub last_after : ℕ → ℕ
unfolding next_id
last_after zero = 0
last_after (suc n) = (next_id (last_after n)).0

unfoldable pub id_of_call : ℕ → ℕ
unfolding last_after next_id
id_of_call n = (next_id (last_after n)).1

last_after_lem : (n : ℕ) → last_after (suc n) ≡ n % 0xffff + 1
unfolding last_after next_id
last_after_lem zero = refl
last_after_lem (suc n) = ground (arith, last_after_lem n)

id_of_call_lem : (n : ℕ) → id_of_call n ≡ swap16 (n % 0xffff + 1)
unfolding id_of_call
id_of_call_lem n = ap swap16 (last_after_lem n)

-- An identification is never 0, and two calls fewer than 65535 apart give different ones.
pub id_of_call-ne :
    (m n : ℕ) → m < n → n - m < 0xffff → (id_of_call m ≢ 0) × (id_of_call m ≢ id_of_call n)
unfolding swap16
id_of_call-ne m n h near = (
  λ e. nonzero m (omega (arith, id_of_call_lem m)),
  λ e. differ (omega (arith, id_of_call_lem m, id_of_call_lem n)),
)
  where
    nonzero : (k : ℕ) → swap16 (k % 0xffff + 1) ≢ 0
    nonzero k e =
        absurd (omega (arith, swap16-injective (k % 0xffff + 1) 0 (omega arith) (omega arith) e))

    differ : swap16 (m % 0xffff + 1) ≢ swap16 (n % 0xffff + 1)
    differ e = absurd (
        omega
          (arith, swap16-injective (m % 0xffff + 1) (n % 0xffff + 1) (omega arith) (omega arith) e))
