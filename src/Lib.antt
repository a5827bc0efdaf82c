-- ===== src/Lib.antt =====
-- A verification library for Fusion, a zkRollup: clients sign transactions with the wallet, the
-- sequencer validates and applies them to a state of accounts in a sparse Merkle tree, the prover
-- turns each step into the input of a circuit, and the contract on L1 checks the proofs.
--
-- Which file models what:
-- - Base: shared names, Boolean tests, words as bits and bytes, results, and `BTreeMap` as an
--   association list.
-- - Merkle (fusion-prover/src/merkle_tree.rs): BranchKey has the keys and the iterator to the root,
--   Tree the struct `MerkleTree` with its methods under their own names. Paths, Sparse, Refresh,
--   Update, Operations, Delete, Roots, Proofs, Verify and History relate them to the full binary tree
--   of 256 levels and to an abstract map; Binding has what a proof binds. Stored, Single, Neighbours,
--   Focus and Confusion have the lemmas on what a small tree holds and hashes to.
-- - Types (fusion-types/src/lib.rs): Field, PublicKey, PrivateKey and Signature have the conversions,
--   one function for each implementation of a trait; External has what they call of other crates, and
--   Tests the unit tests.
-- - Api (fusion-api/src/lib.rs): transactions, their kinds and their hash; Api/Tests has its test.
-- - Wallet (fusion-wallet/src/lib.rs); Wallet/Cli and Wallet/Commands (fusion-wallet/src/main.rs):
--   the conversions of the arguments, and `main` with its commands. Sending and Printing have the
--   theorems.
-- - Config (fusion-config/src/lib.rs).
-- - Prover: Poseidon (fusion-prover/src/poseidon_hasher.rs), State, Laws and Roots
--   (fusion-prover/src/state.rs), CircuitInput, Prove, Stages, L1Proof and L1Laws
--   (fusion-prover/src/lib.rs). Prove has `Prover::prove` and `compute_witness`. Confusion is about
--   states with one root. TreeTests has the unit tests of the tree, with theorems in TreeLaws,
--   ProofLaws and KeyLaws; StateTests has those of the state.
-- - Sequencer (fusion-sequencer/src/sequencer.rs): Transactions has `validate_tx` and `apply_tx`, Loop
--   the loop of `run_sequencer`, a function from the messages of the channel, and Observer how the
--   tests follow the rollup. Effects, Validity, Transfers, Supply, Replay, Malleable, Turns, Chain,
--   Run and Batches have the theorems; Scenario has the test of the state, for any keys. Server
--   (fusion-sequencer/src/server.rs) takes transactions.
-- - Circuits: MerkleTree has the functions of the state circuit (circuits/merkle_tree.zok,
--   circuits/types.zok), Signature those of the signature circuit (circuits/babyjubjub_signature.zok),
--   Fusion the circuit that combines them (circuits/fusion.zok). Paths, Elements, Steps, Checks, Given,
--   Accepts, Gaps, Scalar and Whole compare them with the prover, the sequencer, the wallet and the
--   curve.
-- - L1 (l1-verifier/src/Fusion.sol): Reply has reverts, Fusion the contract's storage and functions,
--   Steps the theorem on its blocks.
-- - Rollup: both layers together. Inputs and Sizes say what the circuit's inputs contain, System has
--   the steps of the two layers and what ties them; Backing, Payouts, Turning, Settlement, Following
--   and Published have the theorems.
-- - EndToEnd: the end-to-end tests of fusion-sequencer/src/sequencer.rs, written out from the wallet's
--   keys and `Prover::prove` to the contract. Anvil has the chain on which they run, Follow how they
--   read its blocks, with a theorem in Followed, Signing the wallet's part, Tests the tests, and
--   Signatures the wallet's own test (fusion-wallet/src/lib.rs). It is not shown that an end-to-end
--   test passes.
-- - Examples: concrete instances of the parameters, and the theorems applied to them.
--
-- How the code is represented. A `U256` is a natural number; where the code adds or subtracts words
-- the model panics on a result that is not a word. `none` is a panic; an error value is a `Result`.
-- A `Bitmap<256>` is the list of its bits, index 0 first. A method that changes its object returns
-- the new one. The iterator to the root runs on fuel of 257 calls, one for each of at most 256 keys
-- and one for its end. A field element of the circuit is a number below the field's size, which is a
-- parameter: the circuit reads what it is given modulo that size, and takes sums and differences
-- modulo it. The words of the rollup, such as nonces, may be larger; the steps of Rollup/System are
-- those with a block whose inputs are the words themselves.
--
-- What other crates do is a parameter. The record `External` lists what is called of the field, the
-- Poseidon hash, the Baby Jubjub curve and the texts of numbers. `FieldText` says that the texts of
-- field elements and numbers are read back, modulo the field's size; `PoseidonPairs` says that
-- hashing two elements succeeds, `PoseidonLists` that hashing up to six does. The sequencer's loop
-- takes the prover and the contract's client; Rollup/Turning fills the client with the contract of
-- L1, and leaves open what the client makes of a revert.
-- The record `Zokrates` has the files and what the prover calls of ZoKrates; the circuits take
-- Poseidon, the curve's sum and tests, the test of an unpacking into bits and the bits themselves,
-- which the prover chooses; the contract takes the generated verifier and who accepts ether.
-- `IsCurve` and `Unpacks` say what is relied on of curve and bits.
-- `Total` says of a tree's hasher and values that they do not panic; a tree is consistent if its
-- stored hashes are those of the full tree over its stored leaves, and a state is well formed if its
-- tree is consistent, each account has its key as its id, and each balance is a word.
--
-- Of a test the values asserted are modelled, without the hashes that some of them compare with,
-- since Poseidon is a parameter. The messages of an end-to-end test come in the order in which it
-- sends them, one block of L1 holds one transaction, and whoever watches the chain sees every block;
-- the model's `FusionCalls` stands for the bytes of a call.
--
-- Not modelled: the parser of the command line, the RPC server's and client's transport, the node's
-- set-up and `init_l1`, which are input and output, and the concurrency of the tests' tasks; the
-- contract's deployment script and its tests; the generated verifier, Poseidon and the curve, which
-- are not in the repository.
pub mod Base
pub mod Merkle
pub mod Types
pub mod Api
pub mod Wallet
pub mod Prover
pub mod Sequencer
pub mod Config
pub mod Circuits
pub mod L1
pub mod Rollup
pub mod EndToEnd
pub mod Examples
