-- ===== src/DebugSession/Helpers/Resolved.antt =====
-- `resolveAddressExpression` of src/ascendDebugSession.ts never rejects.
use vscode_cann_debugger.Base.{ℕ, Option, none, some, Text, ℤ}
use vscode_cann_debugger.VarObjects.Manager.{Debugger, Manager}
use vscode_cann_debugger.VarObjects.Outcomes.{Gives, gives, Gives-recovered, any_outcome}
use vscode_cann_debugger.DebugSession.Helpers.{
  parse_address, evaluate_address, address_or_evaluated, resolve_address_expression,
}

address_or_evaluated-Gives :
    (d : Debugger) (reference : Text) (offset : ℤ) (literal : Option ℕ) (m : Manager)
    → Gives (λ (a : Option ℤ). Unit {0}) (address_or_evaluated d reference offset literal m)
unfolding address_or_evaluated evaluate_address
address_or_evaluated-Gives d reference offset (some literal) m = gives tt
address_or_evaluated-Gives d reference offset none m = Gives-recovered none (any_outcome _) tt

pub resolve_address_expression-Gives :
    (d : Debugger) (reference : Text) (offset : ℤ) (m : Manager)
    → Gives (λ (a : Option ℤ). Unit {0}) (resolve_address_expression d reference offset m)
unfolding resolve_address_expression
resolve_address_expression-Gives d reference offset m =
    address_or_evaluated-Gives d reference offset (parse_address reference) m
