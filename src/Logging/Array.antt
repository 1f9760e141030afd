-- ===== src/Logging/Array.antt =====
-- Writes to an array, and pieces of it.
use mu_quinet.Prelude.{
  ℕ, zero, suc, ◌+◌, ◌-◌, ◌≤◌, ◌≡◌, refl, sym, ap, ◌∙◌, List, [], ◌∷◌, ◌++◌, some, arith, length,
  length-append, set, take, drop, replicate,
}
use mathlib.Core.List.{append_assoc}
use mu_quinet.Logging.{put_at, copy_at}

pub put_at-append :
    (pre : List ℕ) (o b : ℕ) (rest : List ℕ)
    → put_at (pre ++ o ∷ rest) (length pre) b ≡ some (pre ++ b ∷ rest)
unfolding put_at
put_at-append pre o b rest = ground (arith, length-append pre (o ∷ rest), set-append pre)
  where
    set-append : (l : List ℕ) → set (l ++ o ∷ rest) (length l) b ≡ l ++ b ∷ rest
    set-append [] = refl
    set-append (x ∷ l) = ap (λ y. x ∷ y) (set-append l)

pub copy_at-cons :
    (mem mem' : List ℕ) (i b : ℕ) (bs : List ℕ)
    → put_at mem i b ≡ some mem'
    → copy_at mem i (b ∷ bs) ≡ copy_at mem' (suc i) bs
unfolding copy_at put_at
copy_at-cons mem mem' i b bs e = ground (arith, e)

-- A copy over what the array holds from a place on.
pub copy_at-append :
    (bytes l pre : List ℕ)
    → length bytes ≤ length l
    → copy_at (pre ++ l) (length pre) bytes ≡ some (pre ++ (bytes ++ drop (length bytes) l))
unfolding copy_at
copy_at-append [] l pre h = refl
copy_at-append (b ∷ bytes) [] pre h = absurd (omega (arith, h))
copy_at-append (b ∷ bytes) (o ∷ l) pre h =
    copy_at-cons _ _ (length pre) b bytes (put_at-append pre o b l)
    ∙ ap (λ m. copy_at m (suc (length pre)) bytes) (sym (append_assoc pre (b ∷ []) l))
    ∙ ap (λ n. copy_at ((pre ++ b ∷ []) ++ l) n bytes) (omega (arith, length-append pre (b ∷ [])))
    ∙ copy_at-append bytes l (pre ++ b ∷ []) (omega (arith, h))
    ∙ ap some (append_assoc pre (b ∷ []) (bytes ++ drop (length bytes) l))

pub drop-replicate :
    (n m k : ℕ) (v j : ℕ) → n + k ≡ m → drop n (replicate m v ++ j ∷ []) ≡ replicate k v ++ j ∷ []
drop-replicate zero m k v j h = ap (λ x. replicate x v ++ j ∷ []) (omega (arith, h))
drop-replicate (suc n) zero k v j h = absurd (omega (arith, h))
drop-replicate (suc n) (suc m) k v j h = drop-replicate n m k v j (omega (arith, h))

pub take-replicate :
    (n m : ℕ) (v : ℕ) (l : List ℕ) → n ≤ m → take n (replicate m v ++ l) ≡ replicate n v
take-replicate zero m v l h = refl
take-replicate (suc n) zero v l h = absurd (omega (arith, h))
take-replicate (suc n) (suc m) v l h = ap (λ y. v ∷ y) (take-replicate n m v l (omega (arith, h)))

pub take-append :
    (xs ys : List ℕ) (n m : ℕ) → m ≡ length xs + n → take m (xs ++ ys) ≡ xs ++ take n ys
take-append [] ys n m h = ap (λ x. take x ys) (omega (arith, h))
take-append (x ∷ xs) ys n zero h = absurd (omega (arith, h))
take-append (x ∷ xs) ys n (suc m) h = ap (λ y. x ∷ y) (take-append xs ys n m (omega (arith, h)))

pub take-short : (n : ℕ) (l : List ℕ) → length l ≤ n → take n l ≡ l
take-short zero [] h = refl
take-short zero (x ∷ l) h = absurd (omega (arith, h))
take-short (suc n) [] h = refl
take-short (suc n) (x ∷ l) h = ap (λ y. x ∷ y) (take-short n l (omega (arith, h)))

pub length-take : (n : ℕ) (l : List ℕ) → length (take n l) ≤ n
length-take zero l = omega arith
length-take (suc n) [] = omega arith
length-take (suc n) (x ∷ l) = omega (arith, length-take n l)

pub length-drop : (n : ℕ) (l : List ℕ) → length (drop n l) ≡ length l - n
length-drop zero l = omega arith
length-drop (suc n) [] = omega arith
length-drop (suc n) (x ∷ l) = omega (arith, length-drop n l)
