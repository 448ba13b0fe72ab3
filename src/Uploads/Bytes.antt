-- ===== src/Uploads/Bytes.antt =====
-- Buffers of bytes as features/uploaded-file reads them. A read that throws is `none`.
use sdcorejs_nestjs.Base.{
  ℕ, zero, suc, ◌≡◌, refl, ◌+◌, ◌*◌, ◌^◌, ◌≤◌, Bool, true, false, Option, none, some, List, [], ◌∷◌,
  length, leb, arith, if◌then◌else◌, Bool-cases, inl, inr,
}

abbrev pub byte_at : ℕ → List ℕ → ℕ
byte_at n [] = 0
byte_at zero (b ∷ bytes) = b
byte_at (suc n) (b ∷ bytes) = byte_at n bytes

infixl 5 ◌>>=◌ ◌>>◌
abbrev pub ◌>>=◌ : {A B : Type 0} → Option A → (A → Option B) → Option B
none >>= next = none
some a >>= next = next a

abbrev pub ◌>>◌ : {A B : Type 0} → Option A → Option B → Option B
first >> second = first >>= λ _. second

-- The code goes on only if the test holds.
abbrev pub require : Bool → Option (Unit {0})
require true = some tt
require false = none

-- `readUInt16LE` and `readUInt32LE`
unfoldable pub read_u16 : List ℕ → ℕ → Option ℕ
read_u16 buffer offset =
    if leb (offset + 2) (length buffer)
    then some (byte_at offset buffer + byte_at (offset + 1) buffer * 2 ^ 8)
    else none

unfoldable pub read_u32 : List ℕ → ℕ → Option ℕ
read_u32 buffer offset =
    if leb (offset + 4) (length buffer)
    then some (
        byte_at offset buffer
        + byte_at (offset + 1) buffer * 2 ^ 8
        + byte_at (offset + 2) buffer * 2 ^ 16
        + byte_at (offset + 3) buffer * 2 ^ 24)
    else none

abbrev pub first_bytes : ℕ → List ℕ → List ℕ
first_bytes zero bytes = []
first_bytes (suc n) [] = []
first_bytes (suc n) (b ∷ bytes) = b ∷ first_bytes n bytes

-- `buffer.subarray(start, start + size)`
abbrev pub slice : ℕ → ℕ → List ℕ → List ℕ
slice start size [] = []
slice zero size (b ∷ bytes) = first_bytes size (b ∷ bytes)
slice (suc start) size (b ∷ bytes) = slice start size bytes

-- addWithinLimit; the sums are far below 2 ^ 53.
unfoldable pub add_within_limit : ℕ → ℕ → ℕ → Option ℕ
add_within_limit left right limit = if leb (left + right) limit then some (left + right) else none

pub >>=-some :
    {A B : Type 0} (m : Option A) (next : A → Option B) {b : B}
    → (m >>= next) ≡ some b
    → (a : A) × (m ≡ some a) × (next a ≡ some b)
>>=-some none next h = cc
>>=-some (some a) next h = (a, refl, h)

pub require-some :
    {B : Type 0} (test : Bool) (next : Option B) {b : B}
    → (require test >> next) ≡ some b
    → (test ≡ true) × (next ≡ some b)
require-some true next h = (refl, h)
require-some false next h = cc

pub some_inj : {A : Type 0} (a b : A) → some a ≡ some b → a ≡ b
some_inj a b h = cc h

pub add_within_limit-some :
    (left right limit total : ℕ)
    → add_within_limit left right limit ≡ some total
    → (total ≡ left + right) × (total ≤ limit)
unfolding add_within_limit
add_within_limit-some left right limit total h = elim (Bool-cases (leb (left + right) limit)) [
  | inl e ↦ let same : left + right ≡ total = cc (rw e at h) in (ground arith, ground arith)
  | inr e ↦ cc (rw e at h)
]
