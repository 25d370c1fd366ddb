-- ===== src/Registers/Groups.antt =====
-- Grouping of src/registers.ts: `groupRegisters` files every name, in the debugger's order.
use vscode_cann_debugger.Base.{
  Bool, true, false, List, [], ◌∷◌, ◌++◌, append-nil, append_assoc, Text, ◌≡◌, refl, sym, ap, ◌∙◌,
  if◌then◌else◌,
}
use vscode_cann_debugger.Registers.{
  RegisterGroup, vector, scalar, system, RegisterGroups, categorize_register, push_name, grouped,
  group_registers,
}

-- `groups.get(group)`.
abbrev pub names_of : RegisterGroup → RegisterGroups → List Text
names_of vector g = g.vector_names
names_of scalar g = g.scalar_names
names_of system g = g.system_names

abbrev pub same_group : RegisterGroup → RegisterGroup → Bool
same_group vector vector = true
same_group scalar scalar = true
same_group system system = true
same_group _ _ = false

-- The names of a group, picked from the debugger's list.
unfoldable pub filed_under : RegisterGroup → List Text → List Text
filed_under k [] = []
filed_under k ([] ∷ names) = filed_under k names
filed_under k ((c ∷ t) ∷ names) =
    let others = filed_under k names in
    if same_group (categorize_register (c ∷ t)) k then (c ∷ t) ∷ others else others

names_of-push_name :
    (k j : RegisterGroup) (name : Text) (g : RegisterGroups)
    → names_of k (push_name j name g)
      ≡ (if same_group j k then names_of k g ++ name ∷ [] else names_of k g)
unfolding push_name
names_of-push_name vector vector name g = refl
names_of-push_name vector scalar name g = refl
names_of-push_name vector system name g = refl
names_of-push_name scalar vector name g = refl
names_of-push_name scalar scalar name g = refl
names_of-push_name scalar system name g = refl
names_of-push_name system vector name g = refl
names_of-push_name system scalar name g = refl
names_of-push_name system system name g = refl

if-append :
    (b : Bool) (xs ys : List Text) (x : Text)
    → (if b then xs ++ x ∷ [] else xs) ++ ys ≡ xs ++ (if b then x ∷ ys else ys)
if-append true xs ys x = append_assoc xs (x ∷ []) ys
if-append false xs ys x = refl

names_of-grouped :
    (k : RegisterGroup) (names : List Text) (g : RegisterGroups)
    → names_of k (grouped names g) ≡ names_of k g ++ filed_under k names
unfolding grouped filed_under
names_of-grouped k [] g = sym (append-nil (names_of k g))
names_of-grouped k ([] ∷ names) g = names_of-grouped k names g
names_of-grouped k ((c ∷ t) ∷ names) g =
    let j = categorize_register (c ∷ t) in
    names_of-grouped k names (push_name j (c ∷ t) g)
    ∙ ap (λ ns. ns ++ filed_under k names) (names_of-push_name k j (c ∷ t) g)
    ∙ if-append (same_group j k) (names_of k g) (filed_under k names) (c ∷ t)

-- Each folder holds exactly the registers of its category, all of them and in the debugger's
-- order; only empty names are left out.
pub group_registers-filed_under :
    (k : RegisterGroup) (names : List Text)
    → names_of k (group_registers names) ≡ filed_under k names
unfolding group_registers
group_registers-filed_under vector names = names_of-grouped vector names _
group_registers-filed_under scalar names = names_of-grouped scalar names _
group_registers-filed_under system names = names_of-grouped system names _
