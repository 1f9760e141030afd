-- ===== src/Logging.antt =====
-- Logging.cpp: the parts that compute, a record's place in the source as text, the name of a file and
-- the level. `snprintf` with "%d" is a parameter.
pub mod Array
pub mod Padding
use mu_quinet.Prelude.{
  ℕ, suc, ◌+◌, List, [], ◌∷◌, ◌++◌, Bool, true, false, ◌||◌, Option, none, some, ltb, leb, ◌==◌,
  if◌then◌else◌, length, set, take, drop, replicate,
}

-- A write to the array: `none` is a place outside of it.
unfoldable pub put_at : List ℕ → ℕ → ℕ → Option (List ℕ)
put_at mem i v = if ltb i (length mem) then some (set mem i v) else none

unfoldable pub copy_at : List ℕ → ℕ → List ℕ → Option (List ℕ)
unfolding put_at
copy_at mem i [] = some mem
copy_at mem i (b ∷ bs) = elim (put_at mem i b) [ none ↦ none | some mem' ↦ copy_at mem' (suc i) bs ]

-- ' ' and ':'
abbrev pub space : ℕ
space = 32

abbrev pub colon : ℕ
colon = 58

-- `padded`, 23 bytes that memset writes and one that it does not.
abbrev pub blank : ℕ → List ℕ
blank junk = replicate 23 space ++ junk ∷ []

-- At most 18 bytes of the name, then snprintf into 6 bytes, which returns the length that it would
-- have written in full, then the space and the string of at least 17 bytes.
unfoldable pub file_lineno_with_padding : (ℕ → List ℕ) → ℕ → List ℕ → ℕ → Option (List ℕ)
unfolding put_at copy_at
file_lineno_with_padding decimal junk filename lineno =
    let name : List ℕ = take 18 filename in
    let text : List ℕ = colon ∷ decimal lineno in
    let i : ℕ = length name + length text in
    let len : ℕ = if ltb 17 i then i else 17 in
    elim (copy_at (blank junk) 0 name) [
      | none ↦ none
      | some m1 ↦ elim (copy_at m1 (length name) (take 5 text ++ 0 ∷ [])) [
        | none ↦ none
        | some m2 ↦ elim (put_at m2 i space) [
          | none ↦ none
          | some m3 ↦ if leb len (length m3) then some (take len m3) else none
        ]
      ]
    ]

-- `find_last_of("/\\")`
unfoldable pub find_last_of : List ℕ → Option ℕ
find_last_of [] = none
find_last_of (c ∷ cs) = elim (find_last_of cs) [
  | some k ↦ some (suc k)
  | none ↦ if c == 47 || c == 92 then some 0 else none
]

unfoldable pub path_to_filename : List ℕ → List ℕ
unfolding find_last_of
path_to_filename path = elim (find_last_of path) [ none ↦ path | some k ↦ drop (suc k) path ]

-- The severity that the first character of the configured level names; `none` is the exception.
pub data Severity : Type 0 where
  debug info warning error fatal : Severity

unfoldable pub severity_of : List ℕ → Option Severity
severity_of [] = none
severity_of (c ∷ cs) =
    if c == 100
    then some Severity.debug
    else if c == 105
    then some Severity.info
    else if c == 119
    then some Severity.warning
    else if c == 101
    then some Severity.error
    else if c == 102
    then some Severity.fatal
    else none
