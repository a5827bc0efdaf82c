-- ===== src/L1/Reply.antt =====
-- What a call of the contract comes to (l1-verifier/src/Fusion.sol): a value, or a revert, which
-- undoes all that the call has done.
use fusion_zksnark_circle.Base.{ℕ, zero, suc, ◌≡◌, refl, Bool, true, false, List, [], ◌∷◌}

-- The contract's errors, a panic of Solidity (a sum or an index out of range), a revert of the
-- verifier, and a transfer of ether that fails.
pub data Error : Type 0 where
  invalid_pre_root : Error
  invalid_input_length : Error
  invalid_snark : Error
  invalid_transaction_type : Error
  invalid_l1_address : Error
  deposit_amount_too_low : Error
  deposit_amount_not_available : Error
  panicked verifier_reverted transfer_failed : Error

pub data Reply (A : Type 0) : Type 0 where
  done : A → Reply A
  revert : Error → Reply A

infixl 5 ◌>>=◌ ◌>>◌
abbrev pub ◌>>=◌ : {A B : Type 0} → Reply A → (A → Reply B) → Reply B
done a >>= f = f a
revert e >>= f = revert e

abbrev pub ◌>>◌ : {B : Type 0} → Reply (Unit {0}) → Reply B → Reply B
m >> k = m >>= λ _. k

-- `if (!condition) revert error;`
abbrev pub require : Bool → Error → Reply (Unit {0})
require true e = done tt
require false e = revert e

-- An element of an array in memory.
abbrev pub read : List ℕ → ℕ → Reply ℕ
read [] i = revert panicked
read (x ∷ xs) zero = done x
read (x ∷ xs) (suc i) = read xs i

-- What a sequence that succeeded has done.
pub >>=-done :
    {A B : Type 0} (m : Reply A) (f : A → Reply B) {b : B}
    → (m >>= f) ≡ done b
    → (a : A) × (m ≡ done a) × (f a ≡ done b)
>>=-done (done a) f e = (a, refl, e)
>>=-done (revert x) f e = cc

pub require-done :
    {B : Type 0} (t : Bool) (x : Error) (k : Reply B) {b : B}
    → (require t x >> k) ≡ done b
    → (t ≡ true) × (k ≡ done b)
require-done true x k e = (refl, e)
require-done false x k e = cc

pub done_injective : {A : Type 0} {a b : A} → done a ≡ done b → a ≡ b
done_injective e = cc
