-- ===== src/Checksum.antt =====
-- base/InternetChecksum.cpp: the RFC 1071 checksum of a run of bytes.
pub mod Laws
mod Tests
use Prim.Native.Nat.{ℕ, zero, suc, ◌+◌, ◌-◌, ◌*◌, ◌/◌, ◌%◌, ◌^◌, ◌<◌}
use mathlib.Core.Logic.{dite}
use mathlib.Core.WellFounded.{Acc}
use native.Mathlib.Decide.{dec_lt}
use native.Mathlib.Omega.{arith}
use mu_quinet.Prelude.{List, [], ◌∷◌, u32}
use mu_quinet.Prelude.Order.{lt_wf}

-- The inner loop and the left-over byte: `sum` is a `uint32_t`, and a 16-bit word is read from
-- memory on a little-endian host.
unfoldable pub add_words : ℕ → List ℕ → ℕ
add_words sum [] = sum
add_words sum (b ∷ []) = u32 (sum + b)
add_words sum (b ∷ c ∷ rest) = add_words (u32 (sum + (b + c * 2 ^ 8))) rest

-- `while (sum >> 16) sum = (sum & 0xffff) + (sum >> 16);`
fold_sum_acc : (sum : ℕ) → Acc ◌<◌ sum → ℕ
fold_sum_acc sum (Acc.intro _ smaller) =
    dite (dec_lt 0 (sum / 2 ^ 16))
      (λ h.
        fold_sum_acc (sum % 2 ^ 16 + sum / 2 ^ 16)
          (smaller (sum % 2 ^ 16 + sum / 2 ^ 16) (omega arith)))
      (λ _. sum)

unfoldable pub fold_sum : ℕ → ℕ
unfolding fold_sum_acc lt_wf dec_lt
fold_sum sum = fold_sum_acc sum (lt_wf.apply sum)

-- `checksum(addr, count, start_sum)`: the bytes are those at `addr`, `count` of them.
unfoldable pub checksum : List ℕ → ℕ → ℕ
checksum bytes start_sum = 2 ^ 32 - 1 - fold_sum (add_words (u32 start_sum) bytes)
