-- ===== src/Examples/Proving.antt =====
-- A prover whose programs return their inputs, and the theorems on `Prover::prove` with it.
use Prim.Native.Char.{len_utf8}
use Prim.Native.String.{String, [] as empty_text, ◌∷◌ as cons_text}
use fusion_zksnark_circle.Base.{
  ◌≡◌, refl, sym, ap, ◌∙◌, some_injective, some, List, [], ◌∷◌, map, length, Result, ok,
}
use fusion_zksnark_circle.Config.{default_config}
use fusion_zksnark_circle.Prover.CircuitInput.{CircuitInput, new_input}
use fusion_zksnark_circle.Prover.L1Proof.{
  TxProof, ZokratesProof, fq2, parse_hex, to_g2, to_fusion_l1_proof, to_fusion_l1_tx,
}
use fusion_zksnark_circle.Prover.L1Laws.{to_fusion_l1_input-hex}
use fusion_zksnark_circle.Prover.Prove.{Zokrates, bn128_program, prove}
use fusion_zksnark_circle.Prover.Stages.{Proved, prove-Proved}
use fusion_zksnark_circle.Circuits.Fusion.{public_inputs}
use fusion_zksnark_circle.Rollup.Published.{IsCompiled, prove-public_inputs}
use fusion_zksnark_circle.Examples.Scheme.{
  Residue, r0, r1, r2, reduce, canonical, write, read, scheme, scheme_text,
}
use fusion_zksnark_circle.Examples.Accounts.{moved, funded, transferring}
use fusion_zksnark_circle.Examples.Strangers.{block_input}
use fusion_zksnark_circle.Examples.Proofs.{skip_two, prefixed, skipped}

-- Elements as characters of one, two and three bytes.
unfoldable spell : List Residue → String
spell [] = empty_text
spell (r0 ∷ fs) = cons_text "€" (spell fs)
spell (r1 ∷ fs) = cons_text "a" (spell fs)
spell (r2 ∷ fs) = cons_text "é" (spell fs)

unfoldable unspell : String → List Residue
unspell empty_text = []
unspell (cons_text c t) = reduce (len_utf8 c) ∷ unspell t

unspell-spell : (fs : List Residue) → unspell (spell fs) ≡ fs
unfolding spell unspell reduce
unspell-spell [] = refl
unspell-spell (r0 ∷ fs) = ap (λ l. r0 ∷ l) (unspell-spell fs)
unspell-spell (r1 ∷ fs) = ap (λ l. r1 ∷ l) (unspell-spell fs)
unspell-spell (r2 ∷ fs) = ap (λ l. r2 ∷ l) (unspell-spell fs)

abbrev elements_of : CircuitInput → List Residue
elements_of i = map reduce (public_inputs i)

abbrev proof_of : List Residue → ZokratesProof
proof_of fs = record {
  a = ("0x1", "0x11");
  b = fq2 ("0x1", "0x11") ("0x111", "0x1111");
  c = ("0x1", "0x11");
  inputs = map (λ f. prefixed (write (canonical f))) fs;
}

abbrev prover : (String → Result (Unit {0})) → Zokrates
prover open_file = record {
  File = Unit;
  open_file = open_file;
  Lazy = Unit;
  Program = Unit;
  deserialize = λ file. some (bn128_program tt);
  collect = some;
  Abi = Unit;
  from_reader = ok;
  Signature = Unit;
  signature = λ abi. abi;
  to_json = λ i. some (spell (elements_of i));
  Values = List Residue;
  parse_strict = λ json signature. ok (unspell json);
  Field = Residue;
  encode = λ values. values;
  Witness = List Residue;
  execute = λ fs prog. ok fs;
  Entropy = Unit;
  generate_proof = λ prog witness file entropy. some (proof_of witness);
}

abbrev present : Zokrates
present = prover (λ path. ok tt)

ok_injective : {A : Type 0} {a b : A} → ok a ≡ ok b → a ≡ b
ok_injective e = cc

compiled : IsCompiled scheme_text present prefixed tt
compiled = record {
  lists_inputs = λ i json abi values witness file entropy proof written parsed executed generated.
      let shown : values ≡ elements_of i =
        sym (ok_injective parsed)
        ∙ ap unspell (sym (some_injective written))
        ∙ unspell-spell (elements_of i) in
      sym (ap ZokratesProof.inputs (some_injective generated))
      ∙ ap (map (λ f. prefixed (write (canonical f)))) (sym (ok_injective executed) ∙ shown);
}

elements_total :
    (fs : List Residue)
    → length fs ≡ 18
    → (t : TxProof) × (to_fusion_l1_tx scheme skip_two (proof_of fs) ≡ some t)
unfolding to_fusion_l1_tx to_fusion_l1_proof parse_hex to_g2 skip_two read
elements_total fs long = (
  record {
    proof = record {
      a = record { x = 1; y = 2 };
      b = record { x = (1, 2); y = (3, 4) };
      c = record { x = 1; y = 2 };
    };
    input = map canonical fs;
  },
  rw (to_fusion_l1_input-hex scheme_text skip_two prefixed skipped (proof_of fs) fs refl, long)
      refl,
)

total :
    (t : TxProof) × (to_fusion_l1_tx scheme skip_two (proof_of (elements_of block_input.0))
      ≡ some t)
unfolding public_inputs
total = elements_total (elements_of block_input.0) refl

proved : Proved scheme present default_config moved funded transferring.0 skip_two tt total.0
proved = record {
  prog = tt;
  loaded = record { file = tt; lazy = tt; opened = refl; read = refl; collected = refl };
  witness = elements_of block_input.0;
  witnessed = record {
    i = block_input.0;
    values = elements_of block_input.0;
    arguments = record {
      file = tt;
      abi = tt;
      json = spell (elements_of block_input.0);
      opened = refl;
      read = refl;
      input = block_input.1;
      written = refl;
      parsed = ap ok (unspell-spell (elements_of block_input.0));
    };
    executed = refl;
  };
  pk_file = tt;
  pk_opened = refl;
  proof = proof_of (elements_of block_input.0);
  generated = refl;
  converted = total.1;
}

succeeds :
    prove scheme present default_config moved funded transferring.0 skip_two tt ≡ some (ok total.0)
succeeds =
    (prove-Proved scheme present default_config moved funded transferring.0 skip_two tt total.0).1
      proved

prove-public_inputs_example :
    (i : CircuitInput) × (new_input scheme moved funded transferring.0 ≡ some i)
    × (total.0.input ≡ map (λ n. canonical (reduce n)) (public_inputs i))
prove-public_inputs_example =
    prove-public_inputs scheme_text present prefixed skip_two skipped default_config moved funded
      transferring.0 tt total.0 (λ prog loaded. compiled) succeeds
