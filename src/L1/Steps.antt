-- ===== src/L1/Steps.antt =====
-- Which blocks the contract accepts, and what they do (l1-verifier/src/Fusion.sol).
use fusion_zksnark_circle.Base.{
  ℕ, ◌+◌, ◌-◌, ◌%◌, ◌^◌, ◌≤◌, ◌<◌, ◌≡◌, ◌↔◌, sym, ap, subst, ◌∙◌, inl, inr, Bool, true, Bool-cases,
  Option, some, Option-cases, List, leb, ◌==◌, ==_iff, ==_refl, ◌&&◌, if◌then◌else◌, length,
  u256_size, arith,
}
use fusion_zksnark_circle.L1.Reply.{
  done, revert, invalid_transaction_type, read, >>=-done, require-done, done_injective,
}
use fusion_zksnark_circle.L1.Fusion.{
  Fusion, TxProof, write, claim_value, pay_value, claim, pay_out, verify_and_process_deposit,
  check_snark, verify_tx, submit_block,
}

-- Storage holds words.
abbrev pub HoldsWords : Fusion → Type 0
HoldsWords c = (k : ℕ) → c.deposits k < u256_size

-- What an accepted transaction does besides the root, by its kind.
pub data Effect (accepts : ℕ → Bool) (c : Fusion) (input : List ℕ) (c' : Fusion) : Type 0 where
  moved : read input 2 ≡ done 0 → c' ≡ c → Effect accepts c input c'
  claimed :
      (value recipient : ℕ)
      → read input 2 ≡ done 1
      → read input 8 ≡ done value
      → read input 12 ≡ done recipient
      → value ≤ c.deposits recipient
      → c' ≡ record c { deposits = write c.deposits recipient (c.deposits recipient - value) }
      → Effect accepts c input c'
  paid :
      (value recipient : ℕ)
      → read input 2 ≡ done 2
      → read input 8 ≡ done value
      → read input 15 ≡ done recipient
      → recipient < 2 ^ 160
      → accepts recipient ≡ true
      → value ≤ c.balance
      → c' ≡ record c {
        balance = c.balance - value;
        sent = write c.sent recipient (c.sent recipient + value);
      }
      → Effect accepts c input c'

-- The step of the contract that a block describes.
pub record Accepted {P : Type 0} (accepts : ℕ → Bool) (verify : List ℕ → P → Option ℕ) (c : Fusion)
    (block : TxProof P) (c' : Fusion) : Type 0 where
  pub pre_root : read block.input 0 ≡ done c.root
  pub post_root : read block.input 1 ≡ done c'.root
  pub long : length block.input ≡ 18
  pub proved : verify block.input block.proof ≡ some 0
  pub effect : Effect accepts c block.input (record c' { root = c.root })

claim-exact : (a b : ℕ) → b ≤ a → a < u256_size → (a + u256_size - b) % u256_size ≡ a - b
claim-exact a b h l = omega arith

module _ (c : Fusion) (value recipient : ℕ) (c' : Fusion)
    (small : c.deposits recipient < u256_size) where
  abbrev reduced : Fusion
  reduced = record c { deposits = write c.deposits recipient (c.deposits recipient - value) }

  claim_value-done :
      (claim_value c value recipient ≡ done c') ↔ ((value ≤ c.deposits recipient) × (c' ≡ reduced))
  unfolding claim_value
  claim_value-done = (
    λ e.
        let (t, d) = require-done (leb value (c.deposits recipient)) _ _ e in
        let enough : value ≤ c.deposits recipient = ground arith in
        let exact = claim-exact (c.deposits recipient) value enough small in
        (
          enough,
          sym (done_injective d)
              ∙ ap (λ n. record c { deposits = write c.deposits recipient n }) exact,
        ),
    λ (enough, same).
        let t : leb value (c.deposits recipient) ≡ true = ground arith in
        rw (t, claim-exact (c.deposits recipient) value enough small) (ap done (sym same)),
  )

module _ (accepts : ℕ → Bool) (c : Fusion) (value recipient : ℕ) (c' : Fusion) where
  abbrev paid_out : Fusion
  paid_out = record c {
    balance = c.balance - value;
    sent = write c.sent recipient (c.sent recipient + value);
  }

  pay_value-done :
      (pay_value accepts c value recipient ≡ done c')
      ↔ ((recipient < 2 ^ 160) × (accepts recipient ≡ true) × (value ≤ c.balance) × (c' ≡ paid_out))
  unfolding pay_value
  pay_value-done = (
    λ e.
        let (t, d) = require-done (recipient == recipient % 2 ^ 160) _ _ e in
        let same : recipient % 2 ^ 160 ≡ recipient =
          sym ((==_iff recipient (recipient % 2 ^ 160)).0 t) in
        let (u, f) = require-done (leb value c.balance && accepts recipient) _ _ (rw same at d) in
        let small : recipient < 2 ^ 160 = omega (arith, same) in
        let parts : (value ≤ c.balance) × (accepts recipient ≡ true) = ground (arith, u) in
        (small, parts.1, parts.0, sym (done_injective f)),
    λ (small, willing, enough, same).
        let t : leb value c.balance ≡ true = ground arith in
        let a : recipient % 2 ^ 160 ≡ recipient = omega (arith, small) in
        rw (a, ==_refl recipient, t, willing) (ap done (sym same)),
  )

module _ (accepts : ℕ → Bool) (c : Fusion) (words : HoldsWords c) (input : List ℕ)
    (c' : Fusion) where
  Effect-verify : Effect accepts c input c' → verify_and_process_deposit accepts c input ≡ done c'
  unfolding verify_and_process_deposit claim pay_out
  Effect-verify (moved kind same) = rw kind (ap done (sym same))
  Effect-verify (claimed value recipient kind v r enough same) =
      rw (kind, v, r) ((claim_value-done c value recipient c' (words recipient)).1 (enough, same))
  Effect-verify (paid value recipient kind v r small willing enough same) =
      rw (kind, v, r)
        ((pay_value-done accepts c value recipient c').1 (small, willing, enough, same))

  claim-Effect : read input 2 ≡ done 1 → claim c input ≡ done c' → Effect accepts c input c'
  unfolding claim
  claim-Effect kind e =
      let (value, v, e₁) = >>=-done (read input 8) _ e in
      let (recipient, r, e₂) = >>=-done (read input 12) _ e₁ in
      let (enough, same) = (claim_value-done c value recipient c' (words recipient)).0 e₂ in
      claimed value recipient kind v r enough same

  pay_out-Effect :
      read input 2 ≡ done 2 → pay_out accepts c input ≡ done c' → Effect accepts c input c'
  unfolding pay_out
  pay_out-Effect kind e =
      let (value, v, e₁) = >>=-done (read input 8) _ e in
      let (recipient, r, e₂) = >>=-done (read input 15) _ e₁ in
      let (small, willing, enough, same) = (pay_value-done accepts c value recipient c').0 e₂ in
      paid value recipient kind v r small willing enough same

  by_kind :
      (k : ℕ)
      → read input 2 ≡ done k
      → (if k == 0
          then done c
          else if k == 1
          then claim c input
          else if k == 2
          then pay_out accepts c input
          else revert invalid_transaction_type)
        ≡ done c'
      → Effect accepts c input c'
  by_kind k kind e = elim (Bool-cases (k == 0)) [
    | inl z ↦ moved (kind ∙ ap done ((==_iff k 0).0 z)) (sym (done_injective (rw z at e)))
    | inr nz ↦ elim (Bool-cases (k == 1)) [
      | inl o ↦ claim-Effect (kind ∙ ap done ((==_iff k 1).0 o)) (rw (nz, o) at e)
      | inr no_ ↦ elim (Bool-cases (k == 2)) [
        | inl t ↦ pay_out-Effect (kind ∙ ap done ((==_iff k 2).0 t)) (rw (nz, no_, t) at e)
        | inr nt ↦ absurd (cc (rw (nz, no_, nt) at e))
      ]
    ]
  ]

  verify-Effect : verify_and_process_deposit accepts c input ≡ done c' → Effect accepts c input c'
  unfolding verify_and_process_deposit
  verify-Effect e = let (k, kind, e₁) = >>=-done (read input 2) _ e in by_kind k kind e₁

pub Effect-root :
    (accepts : ℕ → Bool) (c : Fusion) (input : List ℕ) (c' : Fusion)
    → Effect accepts c input c'
    → c'.root ≡ c.root
Effect-root accepts c input c' (moved kind same) = ap Fusion.root same
Effect-root accepts c input c' (claimed value recipient kind v r enough same) = ap Fusion.root same
Effect-root accepts c input c' (paid value recipient kind v r small willing enough same) =
    ap Fusion.root same

module _ {P : Type 0} (accepts : ℕ → Bool) (verify : List ℕ → P → Option ℕ) (c : Fusion)
    (block : TxProof P) (c' : Fusion) (words : HoldsWords c) where
  check_snark-done :
      (check_snark accepts verify block ≡ done tt) ↔ (verify block.input block.proof ≡ some 0)
  unfolding check_snark
  check_snark-done = ground (arith, Option-cases (verify block.input block.proof))

  Accepted-submit_block :
      Accepted accepts verify c block c' → submit_block accepts verify c block ≡ done c'
  unfolding submit_block verify_tx
  Accepted-submit_block a = rw (
    a.pre_root,
    ==_refl c.root,
    a.long,
    Effect-verify accepts c words block.input (record c' { root = c.root }) a.effect,
    check_snark-done.1 a.proved,
    a.post_root,
  )

  verify_tx-done :
      (m : Fusion)
      → verify_tx accepts verify c block ≡ done m
      → (length block.input ≡ 18)
        × (verify block.input block.proof ≡ some 0)
        × (verify_and_process_deposit accepts c block.input ≡ done m)
  unfolding verify_tx
  verify_tx-done m e =
      let (long, e₁) = require-done (length block.input == 18) _ _ e in
      let (m', v, e₂) = >>=-done (verify_and_process_deposit accepts c block.input) _ e₁ in
      let (u, k, same) = >>=-done (check_snark accepts verify block) _ e₂ in
      ((==_iff (length block.input) 18).0 long, check_snark-done.0 k, v ∙ same)

  -- In a storage that holds words, the contract accepts a block, leaving the storage `c'`, exactly
  -- if the block starts from the contract's root and has 18 inputs, the verifier returns 0, and
  -- `c'` is the storage after one of three effects, with the block's new root: nothing for a
  -- transfer, a claim of at most the sender's deposit, or a payment of at most the contract's ether
  -- to a recipient of 160 bits that takes it.
  pub submit_block-Accepted :
      (submit_block accepts verify c block ≡ done c') ↔ Accepted accepts verify c block c'
  unfolding submit_block
  submit_block-Accepted = (
    λ e.
        let (pre, p, e₁) = >>=-done (read block.input 0) _ e in
        let (same, e₂) = require-done (c.root == pre) _ _ e₁ in
        let (m, v, e₃) = >>=-done (verify_tx accepts verify c block) _ e₂ in
        let (post, q, e₄) = >>=-done (read block.input 1) _ e₃ in
        let (long, proved, processed) = verify_tx-done m v in
        let effect = verify-Effect accepts c words block.input m processed in
        let kept = Effect-root accepts c block.input m effect in
        let rooted : m ≡ record c' { root = c.root } =
          ap {A = ℕ} {B = Fusion} (λ r. record m { root = r }) kept
          ∙ ap {A = Fusion} {B = Fusion} (λ d. record d { root = c.root }) (done_injective e₄) in
        record {
          pre_root = p ∙ ap done (sym ((==_iff c.root pre).0 same));
          post_root = q ∙ ap (λ (d : Fusion). done d.root) (done_injective e₄);
          long = long;
          proved = proved;
          effect = subst (Effect accepts c block.input) rooted effect;
        },
    Accepted-submit_block,
  )
