-- ===== src/Prover/L1Proof.antt =====
-- The proof as the contract takes it (fusion-prover/src/lib.rs).
use Prim.Native.String.{String}
use fusion_zksnark_circle.Base.{
  ℕ, Option, some, none, List, [], ◌∷◌, ◌>>=◌, ◌==◌, if◌then◌else◌, length,
}
use fusion_zksnark_circle.Types.External.{External}

pub record G1Point : Type 0 where
  pub x : ℕ
  pub y : ℕ

pub record G2Point : Type 0 where
  pub x : ℕ × ℕ
  pub y : ℕ × ℕ

pub record Proof : Type 0 where
  pub a : G1Point
  pub b : G2Point
  pub c : G1Point

pub record TxProof : Type 0 where
  pub proof : Proof
  pub input : List ℕ

-- `zokrates_proof_systems::G2Affine`, whose other variant has one coordinate pair.
pub data G2Affine : Type 0 where
  fq : String → String → G2Affine
  fq2 : String × String → String × String → G2Affine

-- A ZoKrates proof: hexadecimal texts, each with a prefix of two bytes.
pub record ZokratesProof : Type 0 where
  pub a : String × String
  pub b : G2Affine
  pub c : String × String
  pub inputs : List String

module _ (X : External) (skip_prefix : String → Option String) where
  -- `U256::from_str_radix(&x[2..], 16).unwrap()`; the slice panics on a text of one byte or none.
  unfoldable pub parse_hex : String → Option ℕ
  parse_hex x = do digits ← skip_prefix x; X.from_str_radix_16 digits

  unfoldable pub to_g2 : G2Affine → Option G2Point
  to_g2 (fq x y) = none
  to_g2 (fq2 x y) = do
    x0 ← parse_hex x.0
    x1 ← parse_hex x.1
    y0 ← parse_hex y.0
    y1 ← parse_hex y.1
    some (record { x = (x0, x1); y = (y0, y1) })

  unfoldable pub to_fusion_l1_proof : ZokratesProof → Option Proof
  unfolding parse_hex to_g2
  to_fusion_l1_proof p = do
    ax ← parse_hex p.a.0
    ay ← parse_hex p.a.1
    b ← to_g2 p.b
    cx ← parse_hex p.c.0
    cy ← parse_hex p.c.1
    some (record { a = record { x = ax; y = ay }; b = b; c = record { x = cx; y = cy } })

  unfoldable pub parse_all : List String → Option (List ℕ)
  parse_all [] = some []
  parse_all (x ∷ xs) = do n ← parse_hex x; ns ← parse_all xs; some (n ∷ ns)

  unfoldable pub to_fusion_l1_input : ZokratesProof → Option (List ℕ)
  unfolding parse_all
  to_fusion_l1_input p = if length p.inputs == 18 then parse_all p.inputs else none

  unfoldable pub to_fusion_l1_tx : ZokratesProof → Option TxProof
  unfolding to_fusion_l1_proof to_fusion_l1_input
  to_fusion_l1_tx p = do
    proof ← to_fusion_l1_proof p
    input ← to_fusion_l1_input p
    some (record { proof = proof; input = input })
