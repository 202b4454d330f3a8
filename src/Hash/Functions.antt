-- ===== src/Hash/Functions.antt =====
-- The hash and compare functions of hash_table.c, and the four sets of them in hash_table.h.
-- A `uint32_t` is a natural, with its wrap-around written out; a C string is the list of its
-- bytes before the terminating 0. `sdscopy` of simple_str.h is an argument.
use Prim.Native.Nat.{bit_or}
use my_little_tool.Prelude.{
  ℕ, ◌+◌, ◌-◌, ◌*◌, ◌/◌, ◌^◌, ◌≡◌, ◌↔◌, refl, sym, ap, ◌∙◌, arith, bit_xor, Bool, true, false, ◌&&◌,
  Bool-cases, inl, inr, List, [], ◌∷◌, none, some, ◌==◌, ==_iff, if◌then◌else◌, length,
}
use my_little_tool.Hash.{HashTypeFunction, uint32}
use my_little_tool.Hash.Chain.{IsLawful}

unfoldable pub socket_fd_hash : ℕ → ℕ
unfolding uint32
socket_fd_hash fd = uint32 (fd + bit_or (fd / 2 ^ 2) (uint32 (fd * 2 ^ 30)))

unfoldable pub interger_hash : ℕ → ℕ
unfolding uint32
interger_hash h =
    let h1 = uint32 (h + (2 ^ 32 - 1 - uint32 (h * 2 ^ 9))) in
    let h2 = bit_xor h1 (bit_or (h1 / 2 ^ 14) (uint32 (h1 * 2 ^ 18))) in
    let h3 = uint32 (h2 + uint32 (h2 * 2 ^ 4)) in
    bit_xor h3 (bit_or (h3 / 2 ^ 10) (uint32 (h3 * 2 ^ 22)))

unfoldable pub interger_compare : ℕ → ℕ → Bool
interger_compare r l = r == l

-- A copy holds the same number; the `malloc` for it is taken to succeed.
unfoldable pub interger_dump : ℕ → ℕ
interger_dump src = src

-- `while (*cp) h = (1000003*h) ^ *cp++;`
unfoldable pub string_hash_loop : ℕ → List ℕ → ℕ
unfolding uint32
string_hash_loop h [] = h
string_hash_loop h (c ∷ cp) = string_hash_loop (bit_xor (uint32 (1000003 * h)) c) cp

unfoldable pub string_hash : List ℕ → ℕ
unfolding uint32
string_hash [] = bit_xor (string_hash_loop 0 []) 0
string_hash (c ∷ cp) =
    bit_xor (string_hash_loop (uint32 (c * 2 ^ 7)) (c ∷ cp)) (uint32 (length (c ∷ cp)))

-- `strcmp(r, l) == 0`
unfoldable pub equal_bytes : List ℕ → List ℕ → Bool
equal_bytes [] [] = true
equal_bytes [] (y ∷ l) = false
equal_bytes (x ∷ r) [] = false
equal_bytes (x ∷ r) (y ∷ l) = (x == y) && equal_bytes r l

unfoldable pub string_compare : List ℕ → List ℕ → Bool
string_compare r l = if length r == length l then equal_bytes r l else false

-- `strdup`, taken to get its memory
unfoldable pub string_dump : List ℕ → List ℕ
string_dump s = s

abbrev pub interge_hash_functions : (List ℕ → List ℕ) → HashTypeFunction ℕ (List ℕ)
interge_hash_functions sdscopy = record {
  hash_ = interger_hash;
  comp_ = interger_compare;
  key_dump_ = some interger_dump;
  value_dump_ = some sdscopy;
}

abbrev pub socket_hash_functions : (V : Type 0) → HashTypeFunction ℕ V
socket_hash_functions V = record {
  hash_ = socket_fd_hash;
  comp_ = interger_compare;
  key_dump_ = some interger_dump;
  value_dump_ = none;
}

abbrev pub sds_hash_functions : (List ℕ → List ℕ) → HashTypeFunction (List ℕ) (List ℕ)
sds_hash_functions sdscopy = record {
  hash_ = string_hash;
  comp_ = string_compare;
  key_dump_ = some sdscopy;
  value_dump_ = some sdscopy;
}

abbrev pub string_hash_functions : HashTypeFunction (List ℕ) (List ℕ)
string_hash_functions = record {
  hash_ = string_hash;
  comp_ = string_compare;
  key_dump_ = some string_dump;
  value_dump_ = some string_dump;
}

equal_bytes_sound : (r l : List ℕ) → equal_bytes r l ≡ true → r ≡ l
unfolding equal_bytes
equal_bytes_sound [] [] h = refl
equal_bytes_sound [] (y ∷ l) h = absurd (ground arith)
equal_bytes_sound (x ∷ r) [] h = absurd (ground arith)
equal_bytes_sound (x ∷ r) (y ∷ l) h = elim (Bool-cases (x == y)) [
  | inl e ↦
      let rest : equal_bytes r l ≡ true = ground arith in
      ap (λ z. z ∷ r) ((==_iff x y).0 e) ∙ ap (◌∷◌ y) (equal_bytes_sound r l rest)
  | inr n ↦ absurd (ground arith)
]

equal_bytes_self : (r : List ℕ) → equal_bytes r r ≡ true
unfolding equal_bytes
equal_bytes_self [] = refl
equal_bytes_self (x ∷ r) = rw ((==_iff x x).1 refl) (equal_bytes_self r)

string_compare_self : (r : List ℕ) → string_compare r r ≡ true
unfolding string_compare
string_compare_self r = rw ((==_iff (length r) (length r)).1 refl) (equal_bytes_self r)

-- `StringCompare` answers 1 exactly when the two strings are equal.
pub string_compare_iff : (r l : List ℕ) → (string_compare r l ≡ true) ↔ (r ≡ l)
unfolding string_compare
string_compare_iff r l = (
  (λ h. elim (Bool-cases (length r == length l)) [
    | inl e ↦ equal_bytes_sound r l (ground arith)
    | inr n ↦ absurd (ground arith)
  ]),
  λ e. ap (string_compare r) (sym e) ∙ string_compare_self r,
)

pub socket-IsLawful : (V : Type 0) → IsLawful (socket_hash_functions V)
unfolding interger_compare interger_dump
socket-IsLawful V = record { compares = λ x y. ==_iff x y; copies = λ x. refl }

pub interge-IsLawful : (sdscopy : List ℕ → List ℕ) → IsLawful (interge_hash_functions sdscopy)
unfolding interger_compare interger_dump
interge-IsLawful sdscopy = record { compares = λ x y. ==_iff x y; copies = λ x. refl }

pub string-IsLawful : IsLawful string_hash_functions
unfolding string_dump
string-IsLawful = record { compares = string_compare_iff; copies = λ x. refl }

pub sds-IsLawful :
    (sdscopy : List ℕ → List ℕ)
    → ((s : List ℕ) → sdscopy s ≡ s)
    → IsLawful (sds_hash_functions sdscopy)
sds-IsLawful sdscopy copies = record { compares = string_compare_iff; copies = copies }
