-- ===== src/FileValidation/Bytes.antt =====
-- The reads that file-validation.ts makes of a Node `Buffer`. A read out of bounds throws a
-- RangeError, which is `none`.
use crm_media.Base.{
  ℕ, ◌+◌, ◌*◌, ◌≤◌, ◌≡◌, refl, ◌&&◌, Bool, true, false, List, [], ◌∷◌, Option, none, some, arith,
  length, get_elem?, get_elem?-some, ◌==◌,
}

abbrev pub Bytes : Type 0
Bytes = List ℕ

infixl 5 ◌>>=◌
abbrev pub ◌>>=◌ {ℓ κ} : {A : Type ℓ} {B : Type κ} → Option A → (A → Option B) → Option B
none >>= f = none
some a >>= f = f a

-- Inversion of a read that returns.
pub >>=-eq-some {ℓ κ} :
    {A : Type ℓ} {B : Type κ} (m : Option A) (f : A → Option B) {b : B}
    → (m >>= f) ≡ some b
    → (a : A) × (m ≡ some a) × (f a ≡ some b)
>>=-eq-some (some a) f h = (a, refl, h)
>>=-eq-some none f h = cc

-- `buffer.readUInt16LE(i)`
unfoldable pub read_u16 : Bytes → ℕ → Option ℕ
read_u16 b i = do b0 ← get_elem? b i; b1 ← get_elem? b (i + 1); some (b0 + 256 * b1)

-- `buffer.readUInt32LE(i)`
unfoldable pub read_u32 : Bytes → ℕ → Option ℕ
unfolding read_u16
read_u32 b i = do lo ← read_u16 b i; hi ← read_u16 b (i + 2); some (lo + 65536 * hi)

pub read_u16-some : (b : Bytes) (i : ℕ) → i + 2 ≤ length b → (v : ℕ) × (read_u16 b i ≡ some v)
unfolding read_u16
read_u16-some b i h =
    let (b0, e0) = get_elem?-some b i (omega arith) in
    let (b1, e1) = get_elem?-some b (i + 1) (omega arith) in (b0 + 256 * b1, ground arith)

pub read_u32-some : (b : Bytes) (i : ℕ) → i + 4 ≤ length b → (v : ℕ) × (read_u32 b i ≡ some v)
unfolding read_u32
read_u32-some b i h =
    let (lo, e0) = read_u16-some b i (omega arith) in
    let (hi, e1) = read_u16-some b (i + 2) (omega arith) in (lo + 65536 * hi, ground arith)

-- `buffer.subarray(i, i + magic.length).equals(magic)`: false where the slice is shorter.
unfoldable pub has_magic_at : Bytes → ℕ → Bytes → Bool
has_magic_at b i [] = true
has_magic_at b i (m ∷ ms) = elim (get_elem? b i) [
  | none ↦ false
  | some x ↦ x == m && has_magic_at b (i + 1) ms
]

-- The bytes of the magic stand in the buffer from `i` on.
abbrev pub StandsAt : Bytes → ℕ → Bytes → Type 0
StandsAt b i [] = Unit
StandsAt b i (m ∷ ms) = (get_elem? b i ≡ some m) × StandsAt b (i + 1) ms

pub has_magic_at-StandsAt :
    (b : Bytes) (i : ℕ) (ms : Bytes) → has_magic_at b i ms ≡ true → StandsAt b i ms
unfolding has_magic_at
has_magic_at-StandsAt b i [] h = tt
has_magic_at-StandsAt b i (m ∷ ms) h = ground (arith, has_magic_at-StandsAt b (i + 1) ms)

pub StandsAt-has_magic_at :
    (b : Bytes) (i : ℕ) (ms : Bytes) → StandsAt b i ms → has_magic_at b i ms ≡ true
unfolding has_magic_at
StandsAt-has_magic_at b i [] h = refl
StandsAt-has_magic_at b i (m ∷ ms) h = ground (arith, StandsAt-has_magic_at b (i + 1) ms h.1)
