-- ===== src/Circuits/MerkleTree.antt =====
-- The state circuit (circuits/merkle_tree.zok, circuits/types.zok). A `field` is a number below the
-- field's size `p`, and `hash` is ZoKrates' Poseidon on two inputs. A number that is given for a
-- `field` is read modulo `p`.
use fusion_zksnark_circle.Base.{
  ℕ, ◌+◌, ◌-◌, ◌%◌, Bool, true, List, [], ◌∷◌, map, ◌==◌, ltb, leb, ◌&&◌, if◌then◌else◌,
}
use fusion_zksnark_circle.Types.PublicKey.{Point}
use fusion_zksnark_circle.Prover.State.{Account, new_account}
use fusion_zksnark_circle.Prover.CircuitInput.{CircuitTx, CircuitInput}

unfoldable pub select : Bool → ℕ → ℕ → ℕ × ℕ
select condition left right = (if condition then right else left, if condition then left else right)

module _ (hash : ℕ → ℕ → ℕ) where
  unfoldable pub merge : ℕ → ℕ → ℕ
  merge v0 v1 =
      if v0 == 0 && v1 == 0 then 0 else if v0 == 0 then v1 else if v1 == 0 then v0 else hash v0 v1

  unfoldable pub hash_leaf : Account → ℕ
  hash_leaf acc =
      if acc.balance == 0 && acc.nonce == 0 then 0 else hash acc.id (hash acc.balance acc.nonce)

  -- The loop of `verify_merkle_path`, over the direction bits and the path, which are equally long.
  unfoldable pub digest : ℕ → List Bool → List ℕ → ℕ
  unfolding select merge
  digest leaf [] path = leaf
  digest leaf (d ∷ directions) [] = leaf
  digest leaf (d ∷ directions) (item ∷ path) =
      let s = select d leaf item in digest (merge s.0 s.1) directions path

  unfoldable pub verify_merkle_path : ℕ → ℕ → List Bool → List ℕ → Bool
  verify_merkle_path root leaf directions path = digest leaf directions path == root

-- Sums and differences in the field.
unfoldable pub field_add : ℕ → ℕ → ℕ → ℕ
field_add p a b = (a + b) % p

unfoldable pub field_sub : ℕ → ℕ → ℕ → ℕ
field_sub p a b = (a + p - b) % p

module _ (p : ℕ) where
  unfoldable pub post_account_sender : CircuitTx → Account → Account
  unfolding field_add field_sub
  post_account_sender tx acc =
      new_account acc.id
        (if tx.kind == 1
          then field_add p acc.balance tx.value
          else field_sub p acc.balance tx.value)
        tx.nonce

  unfoldable pub post_account_recipient : CircuitTx → Account → Account
  unfolding field_add
  post_account_recipient tx acc =
      if tx.kind == 0 then new_account acc.id (field_add p acc.balance tx.value) acc.nonce else acc

-- The input that the circuit computes with: every number of it is a field element.
unfoldable pub elements : ℕ → List ℕ → List ℕ
elements p ns = map (λ n. n % p) ns

module _ (p : ℕ) where
  unfoldable pub field_point : Point → Point
  field_point pt = record { x = pt.x % p; y = pt.y % p }

  unfoldable pub field_account : Account → Account
  field_account acc = new_account (acc.id % p) (acc.balance % p) (acc.nonce % p)

  unfoldable pub field_tx : CircuitTx → CircuitTx
  unfolding field_point
  field_tx tx = record {
    kind = tx.kind % p;
    sender = field_point tx.sender;
    to = field_point tx.to;
    nonce = tx.nonce % p;
    value = tx.value % p;
    sig = record { r = field_point tx.sig.r; s = tx.sig.s % p };
  }

  unfoldable pub elements_of : CircuitInput → CircuitInput
  unfolding elements field_account field_tx
  elements_of i = record {
    pre_root = i.pre_root % p;
    post_root = i.post_root % p;
    tx = field_tx i.tx;
    pre_accounts = (field_account i.pre_accounts.0, field_account i.pre_accounts.1);
    direction_selector = i.direction_selector;
    pre_path = (elements p i.pre_path.0, elements p i.pre_path.1);
    post_path = (elements p i.post_path.0, elements p i.post_path.1);
  }

-- The tests of `main`, on field elements. `&&` has no effect but its value, so the order of tests is free.
unfoldable pub tests : (ℕ → ℕ → ℕ) → ℕ → CircuitInput → Bool
tests hash p input =
    let tx = input.tx in
    let pre_sender = input.pre_accounts.0 in
    let pre_to = input.pre_accounts.1 in
    let directions = input.direction_selector in
    verify_merkle_path hash input.pre_root (hash_leaf hash pre_sender) directions.0 input.pre_path.0
    && (if tx.kind == 0
        then verify_merkle_path hash input.pre_root (hash_leaf hash pre_to) directions.1
            input.pre_path.1
        else true)
    && hash tx.sender.x tx.sender.y == pre_sender.id
    && (if tx.kind == 0 then hash tx.to.x tx.to.y == pre_to.id else true)
    && (if tx.kind == 1 then true else leb tx.value pre_sender.balance)
    && ltb pre_sender.nonce tx.nonce
    && verify_merkle_path hash input.post_root
        (hash_leaf hash (post_account_sender p tx pre_sender)) directions.0 input.post_path.0
    && (if tx.kind == 0
        then verify_merkle_path hash input.post_root
            (hash_leaf hash (post_account_recipient p tx pre_to)) directions.1 input.post_path.1
        else true)

-- `main` of the state circuit.
unfoldable pub main : (ℕ → ℕ → ℕ) → ℕ → CircuitInput → Bool
unfolding tests elements_of
main hash p input = tests hash p (elements_of p input)
