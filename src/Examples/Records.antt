-- ===== src/Examples/Records.antt =====
-- The log records' texts at concrete inputs.
use mu_quinet.Prelude.{
  ℕ, zero, suc, ◌+◌, ◌/◌, ◌%◌, ◌<◌, ◌≡◌, ◌↔◌, refl, List, [], ◌∷◌, ◌++◌, none, some, arith, ltb,
  if◌then◌else◌, replicate,
}
use mu_quinet.Logging.{Severity, file_lineno_with_padding, path_to_filename, severity_of}
use mu_quinet.Logging.Padding.{file_lineno_with_padding_lem, file_lineno_with_padding-none}

-- Decimal digits, of numbers up to ten digits.
abbrev digits : ℕ → ℕ → List ℕ
digits zero n = []
digits (suc f) n =
    let rest = digits f (n / 10) in if ltb n 10 then (48 + n) ∷ [] else rest ++ (48 + n % 10) ∷ []

abbrev decimal0 : ℕ → List ℕ
decimal0 n = digits 10 n

abbrev long_name : List ℕ
long_name = replicate 20 97

file_lineno_with_padding-none_example :
    (file_lineno_with_padding decimal0 7 long_name 12345 ≡ none) ↔ (23 < 24)
file_lineno_with_padding-none_example = file_lineno_with_padding-none decimal0 7 long_name 12345

-- "a.c:12" with spaces.
padded :
    file_lineno_with_padding decimal0 7 (97 ∷ 46 ∷ 99 ∷ []) 12
    ≡ some (97 ∷ 46 ∷ 99 ∷ 58 ∷ 49 ∷ 50 ∷ replicate 11 32)
padded = file_lineno_with_padding_lem decimal0 7 (97 ∷ 46 ∷ 99 ∷ []) 12 (omega arith)

-- "x/y.c" is "y.c".
short_name : path_to_filename (120 ∷ 47 ∷ 121 ∷ 46 ∷ 99 ∷ []) ≡ 121 ∷ 46 ∷ 99 ∷ []
unfolding path_to_filename
short_name = refl

info_level : severity_of (105 ∷ 110 ∷ 102 ∷ 111 ∷ []) ≡ some Severity.info
unfolding severity_of
info_level = refl
