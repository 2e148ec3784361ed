-- ===== src/Samples/Ciphers.antt =====
-- A stand-in for the primitives of OpenSSL, without any secrecy.
use wirebone_cpp.Prelude.{
  ℕ, ◌≡◌, ◌+◌, ◌-◌, refl, ap, some, List, [], ◌∷◌, ◌++◌, length, take, replicate, length-append,
  length-take, take-append, arith,
}
use wirebone_cpp.Crypto.Primitives.{Primitives}

abbrev pub padded : List ℕ → List ℕ
padded xs = take 32 (xs ++ replicate 32 0)

abbrev pub sum : List ℕ → List ℕ → List ℕ
sum [] ys = []
sum (x ∷ xs) [] = []
sum (x ∷ xs) (y ∷ ys) = (x + y) ∷ sum xs ys

pub sum_comm : (xs ys : List ℕ) → sum xs ys ≡ sum ys xs
sum_comm [] [] = refl
sum_comm [] (y ∷ ys) = refl
sum_comm (x ∷ xs) [] = refl
sum_comm (x ∷ xs) (y ∷ ys) =
    let head : x + y ≡ y + x = omega arith in λ i. head i ∷ sum_comm xs ys i

pub length-padded : (xs : List ℕ) → length (padded xs) ≡ 32
length-padded xs =
    omega (arith, length-take 32 (xs ++ replicate 32 0), length-append xs (replicate 32 0))

abbrev pub sample_primitives : Primitives
sample_primitives = record {
  blake2s = padded;
  public_key = padded;
  shared = λ priv pub_key. some (sum (padded priv) pub_key);
  seal = λ key nonce ad text. text ++ replicate 16 0;
  unseal = λ key nonce ad sealed. some (take (length sealed - 16) sealed);
  length-blake2s = length-padded;
  length-public_key = length-padded;
  shared_comm = λ a b. ap some (sum_comm (padded a) (padded b));
  length-seal = λ key nonce ad text. length-append text (replicate 16 0);
  unseal-seal = λ key nonce ad text. ap some (
      take-append text (replicate 16 0) (length (text ++ replicate 16 0) - 16)
        (omega (arith, length-append text (replicate 16 0))));
}
