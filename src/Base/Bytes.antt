-- ===== src/Base/Bytes.antt =====
-- Go's encoding/binary: unsigned integers as big-endian bytes.
use Prim.Native.Nat.{ℕ, zero, suc, ◌+◌, ◌*◌, ◌/◌, ◌%◌, ◌<◌}
use mathlib.Core.Path.{◌≡◌, refl}
use mathlib.Core.List.{List, [], ◌∷◌, ◌++◌}
use native.Mathlib.Omega.{arith}
use pollmux.Base.Lists.{length, length-append, In, here, there}

abbrev pub IsByte : ℕ → Type 0
IsByte b = b < 256

abbrev pub All {ℓ κ} : {A : Type ℓ} → (A → Type κ) → List A → Type κ
All P [] = Unit
All P (x ∷ xs) = P x × All P xs

-- 256 ^ k.
abbrev pub byte_bound : ℕ → ℕ
byte_bound zero = 1
byte_bound (suc k) = 256 * byte_bound k

-- The low `k` bytes of `n`, most significant first.
unfoldable pub big_endian : ℕ → ℕ → List ℕ
big_endian zero n = []
big_endian (suc k) n = big_endian k (n / 256) ++ (n % 256 ∷ [])

unfoldable pub from_big_endian : ℕ → List ℕ → ℕ
from_big_endian acc [] = acc
from_big_endian acc (b ∷ bs) = from_big_endian (acc * 256 + b) bs

pub length-big_endian : (k n : ℕ) → length (big_endian k n) ≡ k
unfolding big_endian
length-big_endian zero n = refl
length-big_endian (suc k) n =
    omega
      (arith, length-append (big_endian k (n / 256)) (n % 256 ∷ []), length-big_endian k (n / 256))

from_big_endian-append :
    (acc : ℕ) (xs : List ℕ) (y : ℕ)
    → from_big_endian acc (xs ++ (y ∷ [])) ≡ from_big_endian acc xs * 256 + y
unfolding from_big_endian
from_big_endian-append acc [] y = refl
from_big_endian-append acc (x ∷ xs) y = from_big_endian-append (acc * 256 + x) xs y

pub from_big_endian-big_endian :
    (k n : ℕ) → n < byte_bound k → from_big_endian 0 (big_endian k n) ≡ n
unfolding big_endian
from_big_endian-big_endian zero n h = unfold from_big_endian in omega arith
from_big_endian-big_endian (suc k) n h = omega (
  arith,
  from_big_endian-append 0 (big_endian k (n / 256)) (n % 256),
  from_big_endian-big_endian k (n / 256) (omega arith),
)

All-big_endian : (k n : ℕ) → All IsByte (big_endian k n)
unfolding big_endian
All-big_endian zero n = tt
All-big_endian (suc k) n = snoc (big_endian k (n / 256)) (All-big_endian k (n / 256))
  where
    snoc : (xs : List ℕ) → All IsByte xs → All IsByte (xs ++ (n % 256 ∷ []))
    snoc [] h = omega arith
    snoc (x ∷ xs) h = (h.0, snoc xs h.1)

pub All_in {ℓ κ} : {A : Type ℓ} (P : A → Type κ) (a : A) (xs : List A) → All P xs → In a xs → P a
All_in P a [] h i = elim i [ ]
All_in P a (x ∷ xs) h here = h.0
All_in P a (x ∷ xs) h (there i) = All_in P a xs h.1 i

pub All-map {ℓ κ} :
    {A : Type ℓ} (P Q : A → Type κ) (xs : List A) → ((a : A) → P a → Q a) → All P xs → All Q xs
All-map P Q [] f h = tt
All-map P Q (x ∷ xs) f h = (f x h.0, All-map P Q xs f h.1)
