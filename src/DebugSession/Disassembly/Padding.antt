-- ===== src/DebugSession/Disassembly/Padding.antt =====
-- The entries that `disassembleRequest` of src/ascendDebugSession.ts gives.
use vscode_cann_debugger.Base.{
  ℕ, zero, suc, ◌+◌, ◌*◌, ◌<◌, get_elem?, get_elem?-take, ◌-◌, Option, none, some, List, [], ◌∷◌,
  ◌++◌, Text, length, length-append, length-take, codes, ◌+ℤ◌, ◌*ℤ◌, pos, ◌≡◌, refl, ap, ◌∙◌, arith,
  ℤ,
}
use vscode_cann_debugger.Mi.Value.{MiTuple, get, mi_list}
use vscode_cann_debugger.Mi.Number.{hexadecimal_ℤ}
use vscode_cann_debugger.VarObjects.Manager.{
  Outcome, done, rejected, Debugger, Manager, send, and_then,
}
use vscode_cann_debugger.VarObjects.Outcomes.{Gives, gives, Gives-value}
use vscode_cann_debugger.DebugSession.Helpers.Resolved.{resolve_address_expression-Gives}
use vscode_cann_debugger.DebugSession.Helpers.{resolve_address_expression}
use vscode_cann_debugger.DebugSession.Disassembly.{
  disassemble_command, unreadable_at, address_at, read_instructions, DisassembledInstruction,
  DisassembleResponse, instructions, disassemble_error, padding, padded, disassembled,
  disassemble_from, disassemble_request,
}

length-padding : (start : ℤ) (index n : ℕ) → length (padding start index n) ≡ n
unfolding padding
length-padding start index zero = refl
length-padding start index (suc n) = ap suc (length-padding start (suc index) n)

-- The entry that stands for an instruction that is missing at `index`.
abbrev pub missing : ℤ → ℕ → DisassembledInstruction
missing start index = record {
  address = codes "0x" ++ hexadecimal_ℤ (start +ℤ pos (index * 4));
  instruction = codes "(unreadable)";
  instruction_bytes = none;
  symbol = none;
}

padding-missing :
    (start : ℤ) (index n i : ℕ)
    → i < n
    → get_elem? (padding start index n) i ≡ some (missing start (index + i))
unfolding padding unreadable_at address_at
padding-missing start index zero i h = absurd (omega arith)
padding-missing start index (suc n) zero h =
    let e : index ≡ index + 0 = omega arith in ap (λ j. some (missing start j)) e
padding-missing start index (suc n) (suc i) h =
    let e : suc index + i ≡ index + suc i = omega arith in
    padding-missing start (suc index) n i (omega arith) ∙ ap (λ j. some (missing start j)) e

-- The instruction found at a place, or the entry of a missing one.
abbrev pub found_or_missing : Option DisassembledInstruction → ℤ → ℕ → DisassembledInstruction
found_or_missing (some x) start index = x
found_or_missing none start index = missing start index

append-missing :
    (found : List DisassembledInstruction) (start : ℤ) (b n i : ℕ)
    → i < length found + n
    → get_elem? (found ++ padding start (b + length found) n) i
      ≡ some (found_or_missing (get_elem? found i) start (b + i))
append-missing [] start b n i h =
    let e : b + 0 ≡ b = omega arith in
    ap (λ j. get_elem? (padding start j n) i) e ∙ padding-missing start b n i (omega arith)
append-missing (x ∷ found) start b n zero h = refl
append-missing (x ∷ found) start b n (suc i) h =
    let e : b + suc (length found) ≡ suc b + length found = omega arith in
    let e' : suc b + i ≡ b + suc i = omega arith in
    ap (λ j. get_elem? (found ++ padding start j n) i) e
    ∙ append-missing found start (suc b) n i (omega arith)
    ∙ ap (λ j. some (found_or_missing (get_elem? found i) start j)) e'

padded-missing :
    (start : ℤ) (count i : ℕ) (found : List DisassembledInstruction)
    → i < count
    → get_elem? (padded start count found) i ≡ some (found_or_missing (get_elem? found i) start i)
unfolding padded
padded-missing start count i found h =
    let lacking = count - length found in
    let e : length found ≡ 0 + length found = omega arith in
    let e' : 0 + i ≡ i = omega arith in
    get_elem?-take count i (found ++ padding start (length found) lacking) h
    ∙ ap (λ j. get_elem? (found ++ padding start j lacking) i) e
    ∙ append-missing found start 0 lacking i (omega arith)
    ∙ ap (λ j. some (found_or_missing (get_elem? found i) start j)) e'

length-padded :
    (start : ℤ) (count : ℕ) (found : List DisassembledInstruction)
    → length (padded start count found) ≡ count
unfolding padded
length-padded start count found =
    length-take count (found ++ padding start (length found) (count - length found)) (
      omega (
        arith,
        length-append found (padding start (length found) (count - length found)),
        length-padding start (length found) (count - length found),
      ))

-- A listing of exactly `count` entries, the one at each place the instruction found there, or the
-- entry of a missing one.
pub record Fills (start : ℤ) (count : ℕ) (found listing : List DisassembledInstruction)
    : Type 0 where
  pub as_many : length listing ≡ count
  pub each :
      (i : ℕ)
      → i < count
      → get_elem? listing i ≡ some (found_or_missing (get_elem? found i) start i)

-- The instructions in an answer of the debugger.
abbrev pub found_in : MiTuple → List DisassembledInstruction
found_in r = read_instructions (mi_list (get r (codes "asm_insns")) (codes "src_and_asm_line"))

-- The response to the debugger's answer, for `count` instructions from `start` on.
unfoldable pub Answers : ℤ → ℕ → Outcome MiTuple → DisassembleResponse → Type 0
Answers start count (done r) response =
    (listing : List DisassembledInstruction) × (response ≡ instructions listing)
    × Fills start count (found_in r) listing
Answers start count (rejected e) response = response ≡ disassemble_error 1017 e

-- The response for a resolved reference; instructions have four bytes.
unfoldable pub Responds : Debugger → ℤ → ℕ → Option ℤ → Manager → DisassembleResponse → Type 0
unfolding Answers send
Responds d offset count none m response =
    response ≡ disassemble_error 1016 (codes "Cannot resolve the disassembly address.")
Responds d offset count (some base) m response =
    let start = base +ℤ offset *ℤ pos 4 in
    Answers start count (send d (disassemble_command start count) m).0 response

disassembled-Answers :
    (start : ℤ) (count : ℕ) (o : Outcome MiTuple × Manager)
    → Gives (Answers start count o.0) (disassembled start count o)
unfolding disassembled Answers
disassembled-Answers start count (done r, m) = gives (
  padded start count (found_in r),
  refl,
  record {
    as_many = length-padded start count (found_in r);
    each = λ i. padded-missing start count i (found_in r);
  },
)
disassembled-Answers start count (rejected e, m) = gives refl

disassemble_from-Responds :
    (d : Debugger) (offset : ℤ) (count : ℕ) (base : Option ℤ) (m : Manager)
    → Gives (Responds d offset count base m) (disassemble_from d offset count base m)
unfolding disassemble_from Responds
disassemble_from-Responds d offset count none m = gives refl
disassemble_from-Responds d offset count (some base) m =
    disassembled-Answers (base +ℤ offset *ℤ pos 4) count _

-- `disassembleRequest` never rejects. Where its address resolves and the debugger answers, it gives
-- a listing of exactly as many entries as were asked for, whether the answer has fewer or more: at
-- each place the instruction that was found there, or else an unreadable entry whose address is
-- four bytes times its index behind the start. Otherwise it gives the error 1016 or 1017.
pub disassemble_request-Responds :
    (d : Debugger) (reference : Text) (offset instruction_offset : ℤ) (count : ℕ) (m : Manager)
    → (base : Option ℤ) × (m1 : Manager) × (response : DisassembleResponse)
      × (resolve_address_expression d reference offset m ≡ (done base, m1))
      × ((disassemble_request d reference offset instruction_offset count m).0 ≡ done response)
      × Responds d instruction_offset count base m1 response
unfolding disassemble_request
disassemble_request-Responds d reference offset instruction_offset count m =
    let (base, m1, e) = resolved (resolve_address_expression-Gives d reference offset m) in
    let (response, r, h) =
      Gives-value (disassemble_from-Responds d instruction_offset count base m1) in
    (
      base,
      m1,
      response,
      e,
      ap (λ o. (and_then o (disassemble_from d instruction_offset count)).0) e ∙ r,
      h,
    )
  where
    resolved :
        {o : Outcome (Option ℤ) × Manager}
        → Gives (λ (a : Option ℤ). Unit {0}) o
        → (base : Option ℤ) × (m1 : Manager) × (o ≡ (done base, m1))
    resolved (gives {a} {s} h) = (a, s, refl)
