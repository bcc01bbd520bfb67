-- ===== src/Protocol/Wire.antt =====
-- binary.BigEndian as protocol/decoder.go uses it: a uint32 as four bytes, the high one first.
use simple_message.Prelude.{
  ℕ, ◌+◌, ◌*◌, ◌/◌, ◌%◌, ◌^◌, ◌<◌, ◌≡◌, refl, List, [], ◌∷◌, ◌++◌, length, arith,
}

-- The values of a uint32.
abbrev pub u32_mod : ℕ
u32_mod = 2 ^ 32

-- binary.BigEndian.PutUint32
unfoldable pub put_uint32 : ℕ → List ℕ
put_uint32 v = v / 2 ^ 24 % 256 ∷ v / 2 ^ 16 % 256 ∷ v / 2 ^ 8 % 256 ∷ v % 256 ∷ []

-- binary.BigEndian.Uint32, over the four bytes at the head
unfoldable pub uint32 : List ℕ → ℕ
uint32 (a ∷ b ∷ c ∷ d ∷ bs) = a * 2 ^ 24 + b * 2 ^ 16 + c * 2 ^ 8 + d
uint32 _ = 0

abbrev pub All {ℓ κ} : {A : Type ℓ} → (A → Type κ) → List A → Type κ
All P [] = Unit
All P (x ∷ xs) = P x × All P xs

abbrev pub AreBytes : List ℕ → Type 0
AreBytes = All (λ b. b < 256)

pub length-put_uint32 : (v : ℕ) → length (put_uint32 v) ≡ 4
unfolding put_uint32
length-put_uint32 v = refl

pub put_uint32-AreBytes : (v : ℕ) → AreBytes (put_uint32 v)
unfolding put_uint32
put_uint32-AreBytes v = omega arith

pub uint32-put_uint32 : (v : ℕ) (bs : List ℕ) → v < u32_mod → uint32 (put_uint32 v ++ bs) ≡ v
unfolding put_uint32 uint32
uint32-put_uint32 v bs h = omega arith

pub uint32-lt : (bs : List ℕ) → AreBytes bs → uint32 bs < u32_mod
unfolding uint32
uint32-lt [] h = omega arith
uint32-lt (a ∷ []) h = omega arith
uint32-lt (a ∷ b ∷ []) h = omega arith
uint32-lt (a ∷ b ∷ c ∷ []) h = omega arith
uint32-lt (a ∷ b ∷ c ∷ d ∷ bs) h = omega arith

byte_eq : (a b : ℕ) (xs ys : List ℕ) → a ≡ b → xs ≡ ys → a ∷ xs ≡ b ∷ ys
byte_eq a b xs ys p q = λ i. p i ∷ q i

-- Four bytes are those of their number.
pub put_uint32-uint32 :
    (a b c d : ℕ) (bs : List ℕ)
    → AreBytes (a ∷ b ∷ c ∷ d ∷ [])
    → put_uint32 (uint32 (a ∷ b ∷ c ∷ d ∷ bs)) ≡ a ∷ b ∷ c ∷ d ∷ []
unfolding put_uint32 uint32
put_uint32-uint32 a b c d bs h = byte_eq _ _ _ _ (omega arith) (
    byte_eq _ _ _ _ (omega arith)
      (byte_eq _ _ _ _ (omega arith) (byte_eq _ _ _ _ (omega arith) refl)))

pub All-append :
    {A : Type 0} (P : A → Type 0) (xs ys : List A) → All P xs → All P ys → All P (xs ++ ys)
All-append P [] ys a b = b
All-append P (x ∷ xs) ys a b = (a.0, All-append P xs ys a.1 b)
