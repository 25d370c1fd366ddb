-- ===== src/DebugSession/Memory.antt =====
-- The Hex Editor's requests of src/ascendDebugSession.ts: `readMemoryRequest`, `writeMemoryRequest`
-- and `writeBytes`. Bytes cross the protocol in base64, which the model leaves out.
pub mod Reading
pub mod Writing
use vscode_cann_debugger.Base.{
  ℕ, zero, suc, ◌+◌, ◌-◌, ◌*◌, Bool, true, false, not, ◌&&◌, ◌||◌, Option, none, some, List, [],
  ◌∷◌, ◌++◌, Text, codes, decimal, ltb, ◌==◌, if◌then◌else◌, length, take, min, ℤ, pos, ◌+ℤ◌,
}
use vscode_cann_debugger.Mi.Value.{MiTuple, get, mi_list}
use vscode_cann_debugger.Mi.CString.{quote_mi_string}
use vscode_cann_debugger.Mi.Number.{hexadecimal, hexadecimal_ℤ}
use vscode_cann_debugger.Registers.{lower_case, pad_start}
use vscode_cann_debugger.VarObjects.Manager.{
  Outcome, done, rejected, Debugger, Manager, Async, ◌>>=◌, return, send, text_of,
}
use vscode_cann_debugger.VarObjects.Memory.{bytes_of_hex, read_command}
use vscode_cann_debugger.DebugSession.Helpers.{
  contains, is_unsupported_command, parse_address, resolve_address_expression,
}

-- The answer to a memory request: its body, or an error with its id.
pub data MemoryResponse : Type 0 where
  memory : Text → List ℕ → ℕ → MemoryResponse
  memory_error : ℕ → Text → MemoryResponse

pub record MemoryBlock : Type 0 where
  pub begin : ℕ
  pub end : ℕ
  pub contents : Text

abbrev or_zero : Option ℕ → ℕ
or_zero none = 0
or_zero (some n) = n

block_of : MiTuple → MemoryBlock
unfolding parse_address text_of
block_of b = record {
  begin = or_zero (parse_address (text_of b (codes "begin")));
  end = or_zero (parse_address (text_of b (codes "end")));
  contents = text_of b (codes "contents");
}

abbrev has_contents : Text → Bool
has_contents [] = false
has_contents (c ∷ t) = true

unfoldable pub blocks_of : List MiTuple → List MemoryBlock
unfolding block_of
blocks_of [] = []
blocks_of (b ∷ bs) =
    if has_contents (block_of b).contents then block_of b ∷ blocks_of bs else blocks_of bs

-- The sort is stable, and is one by insertion here.
insert_block : MemoryBlock → List MemoryBlock → List MemoryBlock
insert_block b [] = b ∷ []
insert_block b (x ∷ xs) = if ltb x.begin b.begin then x ∷ insert_block b xs else b ∷ x ∷ xs

unfoldable pub sort_blocks : List MemoryBlock → List MemoryBlock
unfolding insert_block
sort_blocks [] = []
sort_blocks (b ∷ bs) = insert_block b (sort_blocks bs)

-- The loop over the blocks: their contents as long as they follow on from `cursor`.
unfoldable pub contiguous : ℕ → List MemoryBlock → Text
contiguous cursor [] = []
contiguous cursor (b ∷ bs) =
    let rest = contiguous b.end bs in if b.begin == cursor then b.contents ++ rest else []

-- The body for sorted blocks.
unfoldable pub body_of : ℤ → ℕ → List MemoryBlock → MemoryResponse
unfolding contiguous hexadecimal_ℤ hexadecimal bytes_of_hex
body_of start count [] = memory (codes "0x" ++ hexadecimal_ℤ start) [] count
body_of start count (b ∷ bs) =
    let bytes = bytes_of_hex (contiguous b.begin (b ∷ bs)) in
    let readable = min (length bytes) count in
    memory (codes "0x" ++ hexadecimal b.begin) (take readable bytes) (count - readable)

-- The request's error handling: an unmapped window is unreadable.
refused : ℤ → ℕ → Text → MemoryResponse
unfolding hexadecimal_ℤ contains lower_case
refused start count message =
    if contains (codes "cannot access memory") (lower_case message)
    then memory (codes "0x" ++ hexadecimal_ℤ start) [] count
    else memory_error 1013 message

read_answered : ℤ → ℕ → Outcome MiTuple × Manager → Outcome MemoryResponse × Manager
unfolding refused body_of sort_blocks blocks_of mi_list get
read_answered start count (done r, m) = (
  done (
      body_of start count
        (sort_blocks (blocks_of (mi_list (get r (codes "memory")) (codes "memory"))))),
  m,
)
read_answered start count (rejected e, m) = (done (refused start count e), m)

unresolved : ℕ → Text → MemoryResponse
unresolved id reference =
    memory_error id (codes "Cannot resolve \"" ++ (reference ++ codes "\" to an address."))

read_from : Debugger → Text → ℕ → Option ℤ → Async Manager MemoryResponse
unfolding unresolved read_answered send read_command
read_from d reference count none m = (done (unresolved 1012 reference), m)
read_from d reference count (some start) m =
    read_answered start count (send d (read_command start count) m)

-- `readMemoryRequest`; a count that is absent or negative is 0.
unfoldable pub read_memory_request : Debugger → Text → ℤ → ℕ → Async Manager MemoryResponse
unfolding read_from resolve_address_expression
read_memory_request d reference offset zero = return (memory reference [] 0)
read_memory_request d reference offset (suc n) =
    resolve_address_expression d reference offset >>= (λ start. read_from d reference (suc n) start)

-- What the session knows of `-data-write-memory-bytes`, next to the manager.
pub record Writer : Type 0 where
  pub manager : Manager
  pub supports_write : Option Bool

abbrev pub with_manager {ℓ} : {A : Type ℓ} → Writer → Outcome A × Manager → Outcome A × Writer
with_manager w (o, m) = (o, record w { manager = m })

sent_by : Debugger → Text → Async Writer MiTuple
unfolding send
sent_by d command w = with_manager w (send d command w.manager)

-- `bytes.toString('hex')`
unfoldable pub hex_text : List ℕ → Text
unfolding hexadecimal pad_start
hex_text [] = []
hex_text (b ∷ bs) = pad_start 2 (hexadecimal b) ++ hex_text bs

unfoldable pub assignment : ℤ → ℕ → Text
unfolding quote_mi_string hexadecimal_ℤ decimal
assignment address b =
    codes "-data-evaluate-expression "
    ++ quote_mi_string
        (codes "*(unsigned char *)0x" ++ (hexadecimal_ℤ address ++ (codes " = " ++ decimal b)))

-- The loop of single bytes, `i` of them written; it gives how many are.
unfoldable pub write_each : Debugger → ℤ → ℕ → List ℕ → Async Writer ℕ
unfolding sent_by assignment
write_each d start i [] = return i
write_each d start i (b ∷ bs) =
    sent_by d (assignment (start +ℤ pos i) b) >>= (λ r. write_each d start (suc i) bs)

unfoldable pub write_command : ℤ → List ℕ → Text
unfolding quote_mi_string hexadecimal_ℤ hex_text
write_command start bytes =
    codes "-data-write-memory-bytes 0x"
    ++ (hexadecimal_ℤ start ++ (codes " " ++ quote_mi_string (hex_text bytes)))

-- Behind the attempt to write all bytes at once.
written_or_each : Debugger → ℤ → List ℕ → Outcome MiTuple × Writer → Outcome ℕ × Writer
unfolding write_each is_unsupported_command
written_or_each d start bytes (done r, w) =
    (done (length bytes), record w { supports_write = some true })
written_or_each d start bytes (rejected e, w) =
    if is_unsupported_command e
    then write_each d start 0 bytes (record w { supports_write = some false })
    else (rejected e, w)

abbrev is_refuted : Option Bool → Bool
is_refuted (some false) = true
is_refuted _ = false

-- `writeBytes`
unfoldable pub write_bytes : Debugger → ℤ → List ℕ → Async Writer ℕ
unfolding write_each written_or_each sent_by write_command
write_bytes d start bytes w =
    if is_refuted w.supports_write
    then write_each d start 0 bytes w
    else written_or_each d start bytes (sent_by d (write_command start bytes) w)

pub data WriteResponse : Type 0 where
  written : ℕ → WriteResponse
  write_error : ℕ → Text → WriteResponse

write_answered : Outcome ℕ × Writer → Outcome WriteResponse × Writer
write_answered (done n, w) = (done (written n), w)
write_answered (rejected e, w) = (done (write_error 1015 e), w)

write_to : Debugger → Text → List ℕ → Option ℤ → Writer → Outcome WriteResponse × Writer
unfolding write_answered write_bytes
write_to d reference bytes none w = (
  done (write_error 1014 (codes "Cannot resolve \"" ++ (reference ++ codes "\" to an address."))),
  w,
)
write_to d reference [] (some start) w = (done (written 0), w)
write_to d reference (b ∷ bytes) (some start) w = write_answered (write_bytes d start (b ∷ bytes) w)

-- `writeMemoryRequest`, of the decoded bytes.
unfoldable pub write_memory_request : Debugger → Text → ℤ → List ℕ → Async Writer WriteResponse
unfolding write_to resolve_address_expression
write_memory_request d reference offset bytes =
    (λ w. with_manager w (resolve_address_expression d reference offset w.manager))
    >>= (λ start. write_to d reference bytes start)
