-- ===== src/Primitives/Bytes.antt =====
-- Big-endian byte strings of fixed width, as `to_be_bytes`, `from_slice` and slices of the signature
-- bytes use them.
use velochain.Prelude.{
  ℕ, zero, suc, ◌+◌, ◌*◌, ◌/◌, ◌%◌, ◌^◌, ◌<◌, ◌≡◌, refl, List, [], ◌∷◌, ◌++◌, arith, length,
  length-append, take, ap, subst,
}
use native.Mathlib.Nat.{pow-suc, div-add-mod}

abbrev pub drop : ℕ → List ℕ → List ℕ
drop zero xs = xs
drop (suc n) [] = []
drop (suc n) (x ∷ xs) = drop n xs

unfoldable pub bytes_be : ℕ → ℕ → List ℕ
bytes_be zero n = []
bytes_be (suc k) n = bytes_be k (n / 256) ++ (n % 256) ∷ []

unfoldable pub word_from : ℕ → List ℕ → ℕ
word_from acc [] = acc
word_from acc (b ∷ bs) = word_from (acc * 256 + b) bs

unfoldable pub word_be : List ℕ → ℕ
unfolding word_from
word_be bs = word_from 0 bs

pub length-bytes_be : (k n : ℕ) → length (bytes_be k n) ≡ k
unfolding bytes_be
length-bytes_be zero n = refl
length-bytes_be (suc k) n =
    omega
      (arith, length-append (bytes_be k (n / 256)) ((n % 256) ∷ []), length-bytes_be k (n / 256))

word_from-append :
    (acc : ℕ) (xs : List ℕ) (b : ℕ) → word_from acc (xs ++ b ∷ []) ≡ word_from acc xs * 256 + b
unfolding word_from
word_from-append acc [] b = refl
word_from-append acc (x ∷ xs) b = word_from-append (acc * 256 + x) xs b

pub word_be-bytes_be : (k n : ℕ) → n < 256 ^ k → word_be (bytes_be k n) ≡ n
unfolding word_be bytes_be
word_be-bytes_be zero n h = omega arith
word_be-bytes_be (suc k) n h =
    let high : word_be (bytes_be k (n / 256)) ≡ n / 256 =
      word_be-bytes_be k (n / 256) (omega (arith, subst (λ t. n < t) (pow-suc 256 k) h)) in
    rw (word_from-append 0 (bytes_be k (n / 256)) (n % 256), high)
      (omega (arith, div-add-mod n 256))

pub take-append : (xs ys : List ℕ) → take (length xs) (xs ++ ys) ≡ xs
take-append [] ys = refl
take-append (x ∷ xs) ys = ap (◌∷◌ x) (take-append xs ys)

pub drop-append : (xs ys : List ℕ) → drop (length xs) (xs ++ ys) ≡ ys
drop-append [] ys = refl
drop-append (x ∷ xs) ys = drop-append xs ys
