-- ===== src/Logging/Padding.antt =====
-- What file_lineno_with_padding makes, and when it stays in its array.
use mu_quinet.Prelude.{
  ℕ, suc, ◌+◌, ◌-◌, ◌≤◌, ◌<◌, ◌≡◌, ◌↔◌, refl, sym, ap, ◌∙◌, List, [], ◌∷◌, ◌++◌, true, Bool-cases,
  inl, inr, Option, none, some, arith, ltb, leb, ltb→lt, if◌then◌else◌, length, length-append,
  length-replicate, length-set, set, take, drop, replicate,
}
use mathlib.Core.List.{append_assoc}
use mathlib.Core.Option.{none-ne-some}
use mu_quinet.Logging.{put_at, copy_at, blank, space, colon, file_lineno_with_padding}
use mu_quinet.Logging.Array.{
  put_at-append, copy_at-append, drop-replicate, take-replicate, take-append, take-short,
  length-take, length-drop,
}

-- What is left of the array after the name.
abbrev after_name : ℕ → List ℕ → List ℕ
after_name junk name = replicate (23 - length name) space ++ junk ∷ []

copy_name :
    (junk : ℕ) (name : List ℕ)
    → length name ≤ 18
    → copy_at (blank junk) 0 name ≡ some (name ++ after_name junk name)
copy_name junk name a =
    copy_at-append name (blank junk) [] (omega (arith, a))
    ∙ ap (λ l. some (name ++ l))
        (drop-replicate (length name) 23 (23 - length name) space junk (omega (arith, a)))

length-after_name :
    (junk : ℕ) (name : List ℕ) → length (after_name junk name) ≡ 23 - length name + 1
length-after_name junk name =
    length-append (replicate (23 - length name) space) (junk ∷ [])
    ∙ ap (λ n. n + 1) (length-replicate (23 - length name) space)

-- What is left after the number and its NUL.
abbrev after_text : ℕ → List ℕ → List ℕ → List ℕ
after_text junk name text = drop (length text + 1) (after_name junk name)

copy_text :
    (junk : ℕ) (name text : List ℕ)
    → length name ≤ 18
    → length text ≤ 5
    → copy_at (name ++ after_name junk name) (length name) (text ++ 0 ∷ [])
      ≡ some ((name ++ text) ++ 0 ∷ after_text junk name text)
copy_text junk name text a b =
    let t = length-append text (0 ∷ []) in
    copy_at-append (text ++ 0 ∷ []) (after_name junk name) name
      (omega (arith, a, b, t, length-after_name junk name))
    ∙ ap (λ n. some (name ++ ((text ++ 0 ∷ []) ++ drop n (after_name junk name)))) t
    ∙ ap (λ l. some (name ++ l)) (append_assoc text (0 ∷ []) (after_text junk name text))
    ∙ ap some (sym (append_assoc name text (0 ∷ after_text junk name text)))

put_space :
    (junk : ℕ) (name text : List ℕ)
    → put_at ((name ++ text) ++ 0 ∷ after_text junk name text) (length name + length text) space
      ≡ some ((name ++ text) ++ space ∷ after_text junk name text)
put_space junk name text =
    ap (λ n. put_at ((name ++ text) ++ 0 ∷ after_text junk name text) n space)
      (sym (length-append name text))
    ∙ put_at-append (name ++ text) 0 space (after_text junk name text)

-- The spaces from the number's end on.
take_spaces :
    (junk : ℕ) (name text : List ℕ)
    → length name ≤ 18
    → take (17 - (length name + length text)) (space ∷ after_text junk name text)
      ≡ replicate (17 - (length name + length text)) space
take_spaces junk name text a = elim (Bool-cases (ltb (length name + length text) 17)) [
  | inr q ↦
      let z : 17 - (length name + length text) ≡ 0 = ground (arith, q) in
      ap (λ n. take n (space ∷ after_text junk name text)) z ∙ ap (λ n. replicate n space) (sym z)
  | inl q ↦
      let k : length name + length text < 17 = ltb→lt _ _ q in
      let left = 22 - (length name + length text) in
      ap (λ l. take (17 - (length name + length text)) (space ∷ l))
        (drop-replicate (length text + 1) (23 - length name) left space junk (omega (arith, k)))
      ∙ take-replicate (17 - (length name + length text)) (suc left) space (junk ∷ [])
          (omega (arith, k))
]

length-filled :
    (junk : ℕ) (name text : List ℕ)
    → length name ≤ 18
    → length text ≤ 5
    → length ((name ++ text) ++ space ∷ after_text junk name text) ≡ 24
length-filled junk name text a b = omega (
  arith,
  a,
  b,
  length-append (name ++ text) (space ∷ after_text junk name text),
  length-append name text,
  length-drop (length text + 1) (after_name junk name),
  length-after_name junk name,
)

-- The length that is returned.
abbrev pub shown : ℕ → ℕ
shown i = if ltb 17 i then i else 17

take-shown :
    (junk : ℕ) (name text : List ℕ)
    → length name ≤ 18
    → take (shown (length name + length text)) ((name ++ text) ++ space ∷ after_text junk name text)
      ≡ (name ++ text) ++ replicate (17 - length (name ++ text)) space
take-shown junk name text a =
    take-append (name ++ text) (space ∷ after_text junk name text)
      (17 - (length name + length text)) (shown (length name + length text))
      (ground (arith, length-append name text))
    ∙ ap (λ l. (name ++ text) ++ l) (take_spaces junk name text a)
    ∙ ap (λ n. (name ++ text) ++ replicate (17 - n) space) (sym (length-append name text))

-- Up to four digits: the name up to 18 bytes, a colon and the number, filled with spaces to 17 bytes,
-- and the array is not left.
pub file_lineno_with_padding_lem :
    (decimal : ℕ → List ℕ) (junk : ℕ) (filename : List ℕ) (lineno : ℕ)
    → length (decimal lineno) ≤ 4
    → let place = take 18 filename ++ colon ∷ decimal lineno in
      file_lineno_with_padding decimal junk filename lineno
      ≡ some (place ++ replicate (17 - length place) space)
unfolding file_lineno_with_padding
file_lineno_with_padding_lem decimal junk filename lineno h =
    let name : List ℕ = take 18 filename in
    let text : List ℕ = colon ∷ decimal lineno in
    let a : length name ≤ 18 = length-take 18 filename in
    let b : length text ≤ 5 = omega (arith, h) in
    let e2 =
      ap (λ t. copy_at (name ++ after_name junk name) (length name) (t ++ 0 ∷ []))
        (take-short 5 text b)
      ∙ copy_text junk name text a b in
    let c : leb (shown (length name + length text)) 24 ≡ true = ground (arith, a, b) in
    rw
      (
        file_lineno_with_padding,
        copy_name junk name a,
        e2,
        put_space junk name text,
        length-filled junk name text a b,
        c,
        take-shown junk name text a,
      )
      refl

-- The array after the number, whatever its digits.
abbrev written : ℕ → List ℕ → List ℕ → List ℕ
written junk name text =
    name
    ++ ((take 5 text ++ 0 ∷ []) ++ drop (length (take 5 text ++ 0 ∷ [])) (after_name junk name))

length-number : (text : List ℕ) → length (take 5 text ++ 0 ∷ []) ≤ 6
length-number text = omega (arith, length-append (take 5 text) (0 ∷ []), length-take 5 text)

length-written :
    (junk : ℕ) (name text : List ℕ) → length name ≤ 18 → length (written junk name text) ≡ 24
length-written junk name text a =
    let bytes = take 5 text ++ 0 ∷ [] in
    omega (
      arith,
      a,
      length-number text,
      length-append name (bytes ++ drop (length bytes) (after_name junk name)),
      length-append bytes (drop (length bytes) (after_name junk name)),
      length-drop (length bytes) (after_name junk name),
      length-after_name junk name,
    )

copy_number :
    (junk : ℕ) (name text : List ℕ)
    → length name ≤ 18
    → copy_at (name ++ after_name junk name) (length name) (take 5 text ++ 0 ∷ [])
      ≡ some (written junk name text)
copy_number junk name text a =
    copy_at-append (take 5 text ++ 0 ∷ []) (after_name junk name) name
      (omega (arith, a, length-number text, length-after_name junk name))

-- The write of the space and what is returned.
abbrev ended : List ℕ → ℕ → Option (List ℕ)
ended m i = elim (put_at m i space) [
  | none ↦ none
  | some m3 ↦ if leb (shown i) (length m3) then some (take (shown i) m3) else none
]

ended-none : (m : List ℕ) (i : ℕ) → length m ≡ 24 → (ended m i ≡ none) ↔ (23 < i)
unfolding put_at
ended-none m i full = elim (Bool-cases (ltb i 24)) [
  | inl q ↦
      let k : leb (shown i) 24 ≡ true = ground (arith, q) in
      let e : ended m i ≡ some (take (shown i) (set m i space)) =
        ground (arith, q, full, length-set m i space, k) in
      (
        (λ z. absurd (none-ne-some (take (shown i) (set m i space)) (sym z ∙ e))),
        λ h. absurd (ground (arith, q, h)),
      )
  | inr q ↦ ((λ z. ground (arith, q)), λ h. ground (arith, q, full))
]

-- The write of the space is the one that can be out of bounds: the result is missing exactly if the
-- name, cut to 18 bytes, the colon and the number together take more than 23 bytes.
pub file_lineno_with_padding-none :
    (decimal : ℕ → List ℕ) (junk : ℕ) (filename : List ℕ) (lineno : ℕ)
    → (file_lineno_with_padding decimal junk filename lineno ≡ none)
      ↔ (23 < length (take 18 filename) + length (colon ∷ decimal lineno))
unfolding file_lineno_with_padding put_at
file_lineno_with_padding-none decimal junk filename lineno =
    let name : List ℕ = take 18 filename in
    let text : List ℕ = colon ∷ decimal lineno in
    let i : ℕ = length name + length text in
    let a : length name ≤ 18 = length-take 18 filename in
    let m : List ℕ = written junk name text in
    let rest : file_lineno_with_padding decimal junk filename lineno ≡ ended m i =
      rw (file_lineno_with_padding, copy_name junk name a, copy_number junk name text a) refl in
    let (there, back) = ended-none m i (length-written junk name text a) in
    ((λ z. there (sym rest ∙ z)), λ h. rest ∙ back h)
