-- ===== src/TypeFormatters/Registry.antt =====
-- The interface of a formatter and the registry: `ITypeFormatter`, `FormatterView`,
-- `FormatterContext` and `TypeFormatterRegistry` of src/typeFormatters.ts.
use vscode_cann_debugger.Base.{
  ℕ, Bool, Option, none, some, List, [], ◌∷◌, ◌++◌, Text, if◌then◌else◌, ℤ,
}
use vscode_cann_debugger.VarObjects.Manager.{Outcome, done, Debugger, Manager, Async}

-- What the formatters and the session share: the manager of variable objects, and the expressions
-- that references are reserved for, in order.
pub record Client : Type 0 where
  pub manager : Manager
  pub reserved : List Text

-- `reference` is the number that the session hands out next, given the expressions before.
pub record FormatterContext : Type 0 where
  pub debugger : Debugger
  pub thread_id : ℕ
  pub frame_level : ℕ
  pub reference : List Text → ℕ

-- A DAP variable, the fields that formatters set.
pub record Variable : Type 0 where
  pub name : Text
  pub value : Text
  pub type : Text
  pub evaluate_name : Text
  pub variables_reference : ℕ
  pub memory_reference : Option Text

pub record FormatterView (State : Type 0) : Type 0 where
  pub value : Text
  pub indexed_variables : ℕ
  pub memory_reference : Option Text
  pub state : State

pub record TypeFormatter : Type 1 where
  pub State : Type 0
  pub name : Text
  pub matches : Text → Bool
  pub inspect : FormatterContext → Text → Text → Async Client (Option (FormatterView State))
  pub get_children : FormatterContext → FormatterView State → ℤ → ℤ → Async Client (List Variable)

abbrev keep {ℓ} : {A : Type ℓ} → Client → Outcome A × Manager → Outcome A × Client
keep c (o, m) = (o, record c { manager = m })

-- A method of the manager, as part of a formatter's.
abbrev pub on_manager {ℓ} : {A : Type ℓ} → Async Manager A → Async Client A
on_manager x c = keep c (x c.manager)

-- `reserveExpansion`
unfoldable pub reserve_expansion : FormatterContext → Text → Async Client ℕ
reserve_expansion ctx expression c =
    (done (ctx.reference c.reserved), record c { reserved = c.reserved ++ expression ∷ [] })

-- `register`: later formatters stand in front.
unfoldable pub register : TypeFormatter → List TypeFormatter → List TypeFormatter
register f formatters = f ∷ formatters

first_match : Text → List TypeFormatter → Option TypeFormatter
first_match type [] = none
first_match type (f ∷ fs) = if f.matches type then some f else first_match type fs

-- `find`; an absent type is the empty text.
unfoldable pub find : Text → List TypeFormatter → Option TypeFormatter
unfolding first_match
find [] formatters = none
find (c ∷ type) formatters = first_match (c ∷ type) formatters
