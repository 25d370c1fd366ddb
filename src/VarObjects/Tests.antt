-- ===== src/VarObjects/Tests.antt =====
-- Concrete runs of the theorems on src/varObjects.ts.
use vscode_cann_debugger.Base.{
  is_space, true, false, none, some, List, [], ◌∷◌, ◌++◌, ◌≡◌, refl, Text, codes, map,
}
use vscode_cann_debugger.Mi.Value.{MiTuple, str, field, no_fields}
use vscode_cann_debugger.VarObjects.Manager.{done, Debugger, Manager, delete_command, release_all}
use vscode_cann_debugger.VarObjects.Manager.Lifetime.{
  Call, creating, perform_all, occurrences, names_of, is_named, one_if_any, release_all-deletes,
}
use vscode_cann_debugger.VarObjects.Types.{TypeShape, classify_type}
use vscode_cann_debugger.VarObjects.Memory.{resolve_memory_address}

abbrev idle : Manager
idle = record { running = true; sent = []; live = [] }

abbrev shared_name : MiTuple
shared_name = field (codes "name") (str (codes "var1")) no_fields

-- Names every object var1.
abbrev forgetful : Debugger
forgetful = record { reply = λ sent command. done shared_name }

abbrev two_objects : List Call
two_objects = creating (codes "x") 1 0 ∷ creating (codes "y") 1 0 ∷ []

release_all-deletes_example :
    (names : List Text) × (release_all forgetful (perform_all forgetful two_objects idle).1 ≡ (
      done tt,
      record (perform_all forgetful two_objects idle).1 {
        sent = (perform_all forgetful two_objects idle).1.sent ++ map delete_command names;
        live = [];
      },
    ))
    × ((n : Text)
        → is_named n ≡ true
        → occurrences n names
          ≡ one_if_any (occurrences n (names_of (perform_all forgetful two_objects idle).0)))
unfolding perform_all
release_all-deletes_example = release_all-deletes forgetful two_objects idle refl refl

classified :
    classify_type (codes "const __gm__ float [16]")
    ≡ record { is_pointer = false; is_array = true; is_aggregate = false; array_length = some 16 }
unfolding classify_type
classified = refl

abbrev evaluated : MiTuple
evaluated = field (codes "value") (str (codes "4198400 <main>")) no_fields

abbrev evaluator : Debugger
evaluator = record { reply = λ sent command. done evaluated }

abbrev pointer : TypeShape
pointer = record { is_pointer = true; is_array = false; is_aggregate = false; array_length = none }

resolved :
    (resolve_memory_address evaluator (codes "p") pointer 1 0 idle).0
    ≡ done (some (codes "0x401000"))
unfolding resolve_memory_address is_space
resolved = refl
