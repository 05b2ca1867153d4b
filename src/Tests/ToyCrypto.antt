-- ===== src/Tests/ToyCrypto.antt =====
-- A cipher that satisfies the laws that the program assumes: the sealed text carries its key.
use rport.Prelude.{
  ℕ, suc, zero, ◌+◌, ◌≡◌, refl, ap, Option, none, some, [], ◌∷◌, length, arith, ◌==◌, if◌then◌else◌,
}
use rport.Enc.{Bytes, Crypto, IsCrypto}

abbrev sum : Bytes → ℕ
sum [] = 0
sum (b ∷ bs) = b + sum bs

abbrev fill : ℕ → ℕ → Bytes
fill zero b = []
fill (suc n) b = b ∷ fill n b

length-fill : (n b : ℕ) → length (fill n b) ≡ n
length-fill zero b = refl
length-fill (suc n) b = ap suc (length-fill n b)

abbrev unseal_toy : Bytes → Bytes → Bytes → Option Bytes
unseal_toy key nonce [] = none
unseal_toy key nonce (b ∷ bs) = if b == sum key then some bs else none

abbrev pub toy : Crypto
toy = record {
  takes_key = λ key. length key == 32;
  nonce_size = 2;
  seal = λ key nonce plain. sum key ∷ plain;
  unseal = unseal_toy;
  sha256 = λ message. fill 32 (sum message);
  base64_encode = λ message. message;
  base64_decode = λ message. some message;
}

pub toy-IsCrypto : IsCrypto toy
toy-IsCrypto = record {
  takes_32 = λ key h. ground arith;
  unseal-seal = λ key nonce plain h. ground arith;
  seal_nonempty = λ key nonce plain. omega arith;
  sha256_length = λ message. length-fill 32 (sum message);
  decode-encode = λ message. refl;
  encode_nonempty = λ message h. h;
}
