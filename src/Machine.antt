-- ===== src/Machine.antt =====
-- How a kernel routine ends, and the monad in which routines are written: a state is passed along,
-- and a routine may also end the machine.
use Prim.Native.String.{String}
use black_diamond_os.Prelude.{ℕ, zero, suc, ◌≡◌, refl, ◌+◌, ◌*◌, ◌^◌, ◌==◌, if◌then◌else◌}

-- `done a s`: the routine returned `a`. `panic m`: it called kpanic or serial_kpanic, which halt.
-- `fault`: it used a null pointer. `stuck`: a loop did not end within its fuel.
pub data Outcome (S : Type 0) (A : Type 0) : Type 0 where
  done : A → S → Outcome S A
  panic : String → Outcome S A
  fault : Outcome S A
  stuck : Outcome S A

-- A routine over the state `S`.
abbrev pub Proc : Type 0 → Type 0 → Type 0
Proc S A = S → Outcome S A

module _ {S : Type 0} where
  abbrev pub pure : {A : Type 0} → A → Proc S A
  pure a = λ s. done a s

  abbrev pub crash : {A : Type 0} → Proc S A
  crash = λ s. fault

  abbrev pub spin : {A : Type 0} → Proc S A
  spin = λ s. stuck

  abbrev pub kpanic : {A : Type 0} → String → Proc S A
  kpanic m = λ s. panic m

  abbrev pub get : Proc S S
  get = λ s. done s s

  abbrev pub modify : (S → S) → Proc S (Unit {0})
  modify f = λ s. done tt (f s)

  abbrev pub and_then : {A B : Type 0} → Outcome S A → (A → Proc S B) → Outcome S B
  and_then (done a s) k = k a s
  and_then (panic m) k = panic m
  and_then fault k = fault
  and_then stuck k = stuck

  infixl 5 ◌>>=◌ ◌>>◌
  abbrev pub ◌>>=◌ : {A B : Type 0} → Proc S A → (A → Proc S B) → Proc S B
  m >>= k = λ s. and_then (m s) k

  abbrev pub ◌>>◌ : {B : Type 0} → Proc S (Unit {0}) → Proc S B → Proc S B
  m >> n = m >>= λ _. n

pub and_then-cong :
    {S A B : Type 0} (o : Outcome S A) (f g : A → Proc S B)
    → ((a : A) (s : S) → f a s ≡ g a s)
    → and_then o f ≡ and_then o g
and_then-cong (done a s) f g same = same a s
and_then-cong (panic m) f g same = refl
and_then-cong fault f g same = refl
and_then-cong stuck f g same = refl

-- A memory of structures: what stands at each address.
abbrev pub Memory : Type 0 → Type 0
Memory A = ℕ → A

abbrev pub update : {A : Type 0} → Memory A → ℕ → A → Memory A
update m p v q = if q == p then v else m q

-- The numbers of 16, 32 and 64 bits at an address of a memory of bytes, lowest byte first.
abbrev pub read_u16 : Memory ℕ → ℕ → ℕ
read_u16 m p = m p + 2 ^ 8 * m (p + 1)

abbrev pub read_u32 : Memory ℕ → ℕ → ℕ
read_u32 m p = read_u16 m p + 2 ^ 16 * read_u16 m (p + 2)

abbrev pub read_u64 : Memory ℕ → ℕ → ℕ
read_u64 m p = read_u32 m p + 2 ^ 32 * read_u32 m (p + 4)

-- a write of a byte to a port
pub record PortWrite : Type 0 where
  pub port : ℕ
  pub value : ℕ

-- `memcpy` of bytes, with `j` of them copied
unfoldable pub copy_bytes : ℕ → ℕ → ℕ → ℕ → Memory ℕ → Memory ℕ
copy_bytes zero j dest src m = m
copy_bytes (suc rounds) j dest src m =
    copy_bytes rounds (j + 1) dest src (update m (dest + j) (m (src + j)))

-- a piece of the debug output: a string, or a number in base 16 or 10
pub data Output : Type 0 where
  text : String → Output
  hex : ℕ → Output
  dec : ℕ → Output
