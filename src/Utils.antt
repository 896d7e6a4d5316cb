-- ===== src/Utils.antt =====
-- The helpers of kernel/core/utils.c: `itoa`, `strcmp` and `align`.
pub mod Digits
pub mod Reversal
pub mod Itoa
pub mod Strings
pub mod Align
mod Tests
use black_diamond_os.Machine.{Memory, update}
use black_diamond_os.Prelude.{
  ◌*◌, ◌/◌, ltb, List, [], ◌∷◌, ℕ, zero, suc, ◌+◌, ◌-◌, ◌%◌, Bool, true, false, u64, ◌==◌,
  if◌then◌else◌, Option, none, some,
}

-- a string literal
abbrev pub literal : List ℕ → ℕ → ℕ
literal [] k = 0
literal (c ∷ cs) k = if k == 0 then c else literal cs (k - 1)

-- "0123456789ABCDEF"
unfoldable pub digit_characters : ℕ → ℕ
digit_characters =
    literal (48 ∷ 49 ∷ 50 ∷ 51 ∷ 52 ∷ 53 ∷ 54 ∷ 55 ∷ 56 ∷ 57 ∷ 65 ∷ 66 ∷ 67 ∷ 68 ∷ 69 ∷ 70 ∷ [])

-- what the first loop of `itoa` leaves: memory, and the address behind the last digit
pub record Written : Type 0 where
  pub bytes : Memory ℕ
  pub buf : ℕ

-- the first loop of `itoa`; nothing if the base is 0 or the digits do not end within the fuel
unfoldable pub write_digits : ℕ → ℕ → ℕ → ℕ → Memory ℕ → Option Written
write_digits zero i buf base m = none
write_digits (suc fuel) i buf base m =
    let rest = i / base in
    let m' = update m buf (digit_characters (i - rest * base)) in
    let more = write_digits fuel rest (buf + 1) base m' in
    if base == 0
    then none
    else if rest == 0
    then some (record { bytes = m'; buf = buf + 1 })
    else more

-- the second loop of `itoa`, which turns the bytes from `tmp_buf` to `buf` around
unfoldable pub flip : ℕ → ℕ → ℕ → Memory ℕ → Option (Memory ℕ)
flip zero tmp_buf buf m = none
flip (suc fuel) tmp_buf buf m =
    let last = buf - 1 in
    let swapped = update (update m tmp_buf (m last)) last (m tmp_buf) in
    let rest = flip fuel (tmp_buf + 1) last swapped in if ltb tmp_buf buf then rest else some m

-- the second loop on what the first left
abbrev pub flip_written : ℕ → Option Written → Option (Memory ℕ)
flip_written tmp_buf none = none
flip_written tmp_buf (some w) = flip 64 tmp_buf w.buf w.bytes

-- `itoa`; a 64-bit number has at most 64 digits.
unfoldable pub itoa : ℕ → ℕ → ℕ → Memory ℕ → Option (Memory ℕ)
itoa i buf base m =
    if i == 0
    then some (update (update m buf 48) (buf + 1) 0)
    else flip_written buf (write_digits 64 i (buf + 1) base (update m buf 0))

-- A string is what the bytes at its offsets are. `strcmp` of a positive length, with `len` bytes
-- left to compare from the offset `i`.
unfoldable pub strcmp_from : ℕ → ℕ → (ℕ → ℕ) → (ℕ → ℕ) → Bool
strcmp_from zero i str1 str2 = true
strcmp_from (suc len) i str1 str2 =
    let rest = strcmp_from len (i + 1) str1 str2 in if str1 i == str2 i then rest else false

-- `strcmp` of length 0, which stops at the terminator; nothing if it reads on for all the fuel
unfoldable pub strcmp_terminated : ℕ → ℕ → (ℕ → ℕ) → (ℕ → ℕ) → Option Bool
strcmp_terminated zero i str1 str2 = none
strcmp_terminated (suc fuel) i str1 str2 =
    let rest = strcmp_terminated fuel (i + 1) str1 str2 in
    if str1 i == str2 i then (if str1 i == 0 then some true else rest) else some false

unfoldable pub strcmp : ℕ → (ℕ → ℕ) → (ℕ → ℕ) → ℕ → Option Bool
strcmp fuel str1 str2 len =
    if len == 0 then strcmp_terminated fuel 0 str1 str2 else some (strcmp_from len 0 str1 str2)

unfoldable pub align : ℕ → ℕ → ℕ
align address alignment =
    let remainder = address % alignment in
    if remainder == 0 then address else u64 (address + (alignment - remainder))
