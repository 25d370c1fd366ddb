-- ===== src/Launch/Shell.antt =====
-- Quoting for the guest shell: `shQuote` of src/wslLauncher.ts.
pub mod Words
pub mod Last
use vscode_cann_debugger.Base.{List, [], ◌∷◌, ◌++◌, Text, codes}
use vscode_cann_debugger.Mi.CString.{replace_unit}

unfoldable pub sh_quote : Text → Text
sh_quote value = b'\'' ∷ (replace_unit b'\'' (codes "'\\''") value ++ b'\'' ∷ [])

-- `parts.join(separator)`.
unfoldable pub join : Text → List Text → Text
join separator [] = []
join separator (p ∷ []) = p
join separator (p ∷ q ∷ parts) = p ++ (separator ++ join separator (q ∷ parts))

-- `values.map(shQuote)`.
unfoldable pub quote_all : List Text → List Text
quote_all [] = []
quote_all (v ∷ vs) = sh_quote v ∷ quote_all vs
