-- ===== src/Checksum/Laws.antt =====
-- What base/InternetChecksum.cpp computes: the ones' complement sum.
use mathlib.Core.WellFounded.{Acc}
use mu_quinet.Prelude.{
  ℕ, ◌+◌, ◌-◌, ◌*◌, ◌/◌, ◌%◌, ◌^◌, ◌≤◌, ◌<◌, ◌≡◌, ◌≢◌, refl, ap, ◌↔◌, List, [], ◌∷◌, ◌++◌, arith,
  u16, u32, length, if◌then◌else◌, ◌==◌,
}
use mu_quinet.Prelude.Order.{lt_wf}
use mu_quinet.Checksum.{add_words, fold_sum_acc, fold_sum, checksum}

-- The sum of the 16-bit words, as a number of any size.
unfoldable pub word_sum : List ℕ → ℕ
word_sum [] = 0
word_sum (b ∷ []) = b
word_sum (b ∷ c ∷ rest) = b + c * 2 ^ 8 + word_sum rest

pub add_words_lem :
    (sum : ℕ) (bytes : List ℕ) → sum < 2 ^ 32 → add_words sum bytes ≡ u32 (sum + word_sum bytes)
unfolding add_words word_sum
add_words_lem sum [] h = omega arith
add_words_lem sum (b ∷ []) h = refl
add_words_lem sum (b ∷ c ∷ rest) h =
    omega (arith, add_words_lem (u32 (sum + (b + c * 2 ^ 8))) rest (omega arith))

-- A folded sum fits 16 bits, and is the same number modulo 0xffff; it is 0 for 0 only.
record IsFold (s r : ℕ) : Type 0 where
  pub small : r < 2 ^ 16
  pub same : r % 0xffff ≡ s % 0xffff
  pub pos_of_pos : 0 < s → 0 < r
  pub le_self : r ≤ s

-- One round of the fold.
abbrev folded : ℕ → ℕ
folded s = s % 2 ^ 16 + s / 2 ^ 16

folded-IsFold : (s r : ℕ) → IsFold (folded s) r → IsFold s r
folded-IsFold s r h = omega arith

fold_sum_acc-IsFold : (s : ℕ) (w : Acc ◌<◌ s) → IsFold s (fold_sum_acc s w)
unfolding fold_sum_acc
fold_sum_acc-IsFold s (Acc.intro _ smaller) = grind (
  arith,
  λ (p : folded s < s). folded-IsFold s _ (fold_sum_acc-IsFold (folded s) (smaller (folded s) p)),
)

-- The ones' complement sum of a number's 16-bit digits, in closed form.
unfoldable pub ones_sum : ℕ → ℕ
ones_sum n = if n == 0 then 0 else (n - 1) % 0xffff + 1

fold_sum-IsFold : (s : ℕ) → IsFold s (fold_sum s)
unfolding fold_sum
fold_sum-IsFold s = fold_sum_acc-IsFold s (lt_wf.apply s)

IsFold-ones_sum : (s r : ℕ) → IsFold s r → r ≡ ones_sum s
unfolding ones_sum
IsFold-ones_sum s r h = ground arith

sum_fits :
    (bytes : List ℕ) (start_sum : ℕ)
    → start_sum + word_sum bytes < 2 ^ 32
    → add_words (u32 start_sum) bytes ≡ start_sum + word_sum bytes
sum_fits bytes start_sum h = omega (arith, add_words_lem (u32 start_sum) bytes (omega arith))

-- For a sum that stays below 2 ^ 32, the 16 bits that the callers keep of the checksum are the
-- complement of the ones' complement sum of the words.
pub checksum-ones_sum :
    (bytes : List ℕ) (start_sum : ℕ)
    → start_sum + word_sum bytes < 2 ^ 32
    → u16 (checksum bytes start_sum) ≡ 0xffff - ones_sum (start_sum + word_sum bytes)
unfolding checksum
checksum-ones_sum bytes start_sum h = omega (
  arith,
  add_words_lem (u32 start_sum) bytes (omega arith),
  fold_sum-IsFold (add_words (u32 start_sum) bytes),
  IsFold-ones_sum (add_words (u32 start_sum) bytes) _ (fold_sum-IsFold _),
  ap ones_sum (sum_fits bytes start_sum h),
)

pub word_sum-append :
    (xs ys : List ℕ) → length xs % 2 ≡ 0 → word_sum (xs ++ ys) ≡ word_sum xs + word_sum ys
unfolding word_sum
word_sum-append [] ys h = omega arith
word_sum-append (b ∷ []) ys h = absurd (omega arith)
word_sum-append (b ∷ c ∷ xs) ys h = omega (arith, word_sum-append xs ys (omega arith))

-- The word at an even offset counts once.
pub word_sum_field :
    (before after : List ℕ) (lo hi : ℕ)
    → length before % 2 ≡ 0
    → word_sum (before ++ lo ∷ hi ∷ after) ≡ word_sum before + (lo + hi * 2 ^ 8) + word_sum after
unfolding word_sum
word_sum_field before after lo hi even =
    omega (arith, word_sum-append before (lo ∷ hi ∷ after) even)

-- A receiver that sums the words with the check field in place gets 0.
pub Verifies : List ℕ → ℕ → Type 0
Verifies bytes start_sum = u16 (checksum bytes start_sum) ≡ 0

pub Verifies-iff :
    (bytes : List ℕ) (start_sum : ℕ)
    → start_sum + word_sum bytes < 2 ^ 32
    → Verifies bytes start_sum
      ↔ (0 < start_sum + word_sum bytes) × ((start_sum + word_sum bytes) % 0xffff ≡ 0)
unfolding Verifies ones_sum
Verifies-iff bytes start_sum h = ground (arith, checksum-ones_sum bytes start_sum h)

ones_sum_complement :
    (total c rest : ℕ)
    → c ≡ 0xffff - ones_sum total
    → rest ≡ total + c
    → (0 < rest) × (rest % 0xffff ≡ 0)
unfolding ones_sum
ones_sum_complement total c rest e r = ground arith

-- Storing the computed 16 bits in a check field that held 0 makes the bytes verify, wherever the
-- field stands at an even offset.
pub checksum-Verifies :
    (before after : List ℕ) (start_sum : ℕ)
    → length before % 2 ≡ 0
    → start_sum + word_sum (before ++ 0 ∷ 0 ∷ after) < 2 ^ 32 - 2 ^ 16
    → let check = u16 (checksum (before ++ 0 ∷ 0 ∷ after) start_sum) in
      Verifies (before ++ check % 2 ^ 8 ∷ check / 2 ^ 8 ∷ after) start_sum
checksum-Verifies before after start_sum even h =
    let check : ℕ = u16 (checksum (before ++ 0 ∷ 0 ∷ after) start_sum) in
    let zeroed : word_sum (before ++ 0 ∷ 0 ∷ after) ≡ word_sum before + word_sum after =
      omega (arith, word_sum_field before after 0 0 even) in
    let stored : word_sum (before ++ check % 2 ^ 8 ∷ check / 2 ^ 8 ∷ after)
        ≡ word_sum before + check + word_sum after =
      omega (arith, word_sum_field before after (check % 2 ^ 8) (check / 2 ^ 8) even) in
    let sum : check ≡ 0xffff - ones_sum (start_sum + word_sum (before ++ 0 ∷ 0 ∷ after)) =
      checksum-ones_sum (before ++ 0 ∷ 0 ∷ after) start_sum (omega arith) in
    (Verifies-iff (before ++ check % 2 ^ 8 ∷ check / 2 ^ 8 ∷ after) start_sum (omega arith)).1
      (ones_sum_complement _ _ _ sum (omega arith))

-- Changing one 16-bit word of bytes that verify is detected, unless it trades 0 for 0xffff.
pub Verifies-detects :
    (before after : List ℕ) (lo hi lo' hi' start_sum : ℕ)
    → length before % 2 ≡ 0
    → start_sum + word_sum before + word_sum after < 2 ^ 32 - 2 ^ 16
    → lo < 2 ^ 8
    → hi < 2 ^ 8
    → lo' < 2 ^ 8
    → hi' < 2 ^ 8
    → (lo + hi * 2 ^ 8) % 0xffff ≢ (lo' + hi' * 2 ^ 8) % 0xffff
    → Verifies (before ++ lo ∷ hi ∷ after) start_sum
    → ¬ Verifies (before ++ lo' ∷ hi' ∷ after) start_sum
Verifies-detects before after lo hi lo' hi' start_sum even h b c b' c' ne ok bad =
    let old : word_sum (before ++ lo ∷ hi ∷ after)
        ≡ word_sum before + (lo + hi * 2 ^ 8) + word_sum after =
      word_sum_field before after lo hi even in
    let new : word_sum (before ++ lo' ∷ hi' ∷ after)
        ≡ word_sum before + (lo' + hi' * 2 ^ 8) + word_sum after =
      word_sum_field before after lo' hi' even in
    let p : (start_sum + word_sum (before ++ lo ∷ hi ∷ after)) % 0xffff ≡ 0 =
      ((Verifies-iff (before ++ lo ∷ hi ∷ after) start_sum (omega arith)).0 ok).1 in
    let q : (start_sum + word_sum (before ++ lo' ∷ hi' ∷ after)) % 0xffff ≡ 0 =
      ((Verifies-iff (before ++ lo' ∷ hi' ∷ after) start_sum (omega arith)).0 bad).1 in
    omega arith
