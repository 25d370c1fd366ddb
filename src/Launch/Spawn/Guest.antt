-- ===== src/Launch/Spawn/Guest.antt =====
-- What arrives in the guest: the script of `buildGuestScript` and the remote command of
-- `buildDebuggerSpawn` in src/wslLauncher.ts, as the shell there reads them.
use vscode_cann_debugger.Base.{
  ℕ, Option, none, some, All, List, [], ◌∷◌, ◌++◌, append_assoc, Text, codes, ◌≡◌, refl, ap, ◌∙◌,
}
use vscode_cann_debugger.Launch.Shell.{sh_quote, join, quote_all}
use vscode_cann_debugger.Launch.Shell.Words.{
  shell_words, between, is_plain, IsPlain, shell_words-plain_word, in_front, shell_words-quote_all,
}
use vscode_cann_debugger.Launch.Shell.Last.{outside, Leads, IsBland}
use vscode_cann_debugger.Launch.Spawn.{remote_command}

-- A text that stands in double quotes in a warning, if it is set.
abbrev pub IsBlandIf : Option Text → Type 0
IsBlandIf none = Unit
IsBlandIf (some t) = IsBland t

-- The parts of a script that leave no quote open.
abbrev Parts : List Text → Type 0
Parts = All (Leads outside outside)

-- The names of variables need no quotes.
abbrev pub ArePlain : List (Text × Text) → Type 0
ArePlain = All (λ e. IsPlain e.0)

-- The login shell of the remote host reads the one word that ssh hands it as the three words that
-- the other modes pass on: the shell, `-lc` and the whole script. The shell's name must need no
-- quotes.
remote_command-words :
    (c : ℕ) (shell script : Text)
    → IsPlain (c ∷ shell)
    → shell_words between (remote_command (c ∷ shell) script)
      ≡ some ((c ∷ shell) ∷ codes "-lc" ∷ script ∷ [])
unfolding remote_command join quote_all is_plain
remote_command-words c shell script h =
    ap (shell_words between) (append_assoc (c ∷ shell) (codes " -lc ") (sh_quote script))
    ∙ shell_words-plain_word c shell (codes "-lc " ++ sh_quote script) h
    ∙ ap (in_front ((c ∷ shell) ∷ [])) (
        shell_words-plain_word b'-' (codes "lc") (sh_quote script) (refl, (refl, (refl, tt)))
        ∙ ap (in_front (codes "-lc" ∷ [])) (shell_words-quote_all (script ∷ [])))
