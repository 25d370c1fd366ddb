-- ===== src/Launch/Commands/Secrets.antt =====
-- The password of src/sshLauncher.ts: it is never in the command line.
use vscode_cann_debugger.Base.{
  ℕ, ap, subst, ◌∙◌, inl, inr, Bool, ◌===◌, true, false, Option, none, some, List, [], ◌∷◌, Text,
  codes, ◌≡◌, refl, sym,
}
use vscode_cann_debugger.Launch.Options.{
  is_set, or_default, ProcessEnv, lookup, WslOptions, SshOptions, SshInvocation, Built, built,
  threw,
}
use vscode_cann_debugger.Launch.Commands.{
  build_ssh_command, client_argv, ssh_invocation, connect_to, resolve_ssh_password, sshpass_args,
  some_if_set, default_password_env_var, append_wsl_env, wsl_entries, entry_name, batch_args,
  password_env, ssh_runs_in_wsl,
}
use vscode_cann_debugger.Launch.Commands.WslEnv.{
  IsEntry, entry, HasName, HasName-append, entries_of, append_wsl_env-entries,
}

abbrev pub argv_of : Built SshInvocation → Built (List Text)
argv_of (built i) = built i.argv
argv_of (threw e) = threw e

-- Whether there is a password at all.
abbrev pub is_some : Option Text → Bool
is_some none = false
is_some (some p) = true

client_argv-secret :
    (p q : Option Text) (host : Text) (s : SshOptions) (given_password : Option Text)
    (command : Text)
    → is_some p ≡ is_some q
    → client_argv p host s command
      ≡ client_argv q host (record s { password = given_password }) command
unfolding client_argv sshpass_args batch_args
client_argv-secret none none host s given_password command e = refl
client_argv-secret none (some q) host s given_password command e = cc
client_argv-secret (some p) none host s given_password command e = cc
client_argv-secret (some p) (some q) host s given_password command e = refl

connect_to-secret :
    (host : Option Text) (win32 : Bool) (s : SshOptions) (given_password : Option Text)
    (wsl : Option WslOptions) (command : Text) (env other : ProcessEnv)
    → is_some (resolve_ssh_password s env)
      ≡ is_some (resolve_ssh_password (record s { password = given_password }) other)
    → argv_of (connect_to host win32 s wsl command env)
      ≡ argv_of (connect_to host win32 (record s { password = given_password }) wsl command other)
unfolding connect_to ssh_invocation ssh_runs_in_wsl
connect_to-secret none win32 s given_password wsl command env other e = refl
connect_to-secret (some []) win32 s given_password wsl command env other e = refl
connect_to-secret (some (c ∷ host)) win32 s given_password wsl command env other e =
    rw (client_argv-secret _ _ (c ∷ host) s given_password command e) refl

-- The words of the command line tell nothing of the password but whether there is one: with any
-- other password, in the options or in any other environment, they are the same, errors included.
pub build_ssh_command-argv_secret :
    (win32 : Bool) (s : SshOptions) (given_password : Option Text) (wsl : Option WslOptions)
    (command : Text) (env other : ProcessEnv)
    → is_some (resolve_ssh_password s env)
      ≡ is_some (resolve_ssh_password (record s { password = given_password }) other)
    → argv_of (build_ssh_command win32 s wsl command env)
      ≡ argv_of (build_ssh_command win32 (record s { password = given_password }) wsl command other)
unfolding build_ssh_command
build_ssh_command-argv_secret win32 s given_password wsl command env other e =
    connect_to-secret s.host win32 s given_password wsl command env other e

-- Where the password is found: the variable first, then the options.
pub data Finds (s : SshOptions) (env : ProcessEnv) : Option Text → Type 0 where
  in_env :
      (c : ℕ) (t : Text)
      → lookup env (or_default s.password_env_var default_password_env_var) ≡ some (c ∷ t)
      → Finds s env (some (c ∷ t))
  in_options :
      (c : ℕ) (t : Text)
      → is_set (lookup env (or_default s.password_env_var default_password_env_var)) ≡ false
      → s.password ≡ some (c ∷ t)
      → Finds s env (some (c ∷ t))
  nowhere :
      is_set (lookup env (or_default s.password_env_var default_password_env_var)) ≡ false
      → is_set s.password ≡ false
      → Finds s env none

some_if_set-unset :
    (o otherwise : Option Text) → is_set o ≡ false → some_if_set o otherwise ≡ otherwise
some_if_set-unset none otherwise h = refl
some_if_set-unset (some []) otherwise h = refl
some_if_set-unset (some (c ∷ t)) otherwise h = cc

resolve_ssh_password-Finds :
    (s : SshOptions) (env : ProcessEnv) {secret : Option Text}
    → Finds s env secret
    → resolve_ssh_password s env ≡ secret
unfolding resolve_ssh_password
resolve_ssh_password-Finds s env (in_env c t e) =
    ap (λ o. some_if_set o (some_if_set s.password none)) e
resolve_ssh_password-Finds s env (in_options c t u e) =
    some_if_set-unset _ (some_if_set s.password none) u ∙ ap (λ o. some_if_set o none) e
resolve_ssh_password-Finds s env (nowhere u v) =
    some_if_set-unset _ (some_if_set s.password none) u ∙ some_if_set-unset s.password none v

-- A client inside WSL finds a variable only if WSLENV names it; another needs no WSLENV.
unfoldable pub Passes : Bool → ProcessEnv → Type 0
unfolding lookup
Passes true env =
    (names : Text) × (lookup env (codes "WSLENV") ≡ some names)
    × HasName (codes "SSHPASS") (wsl_entries names)
Passes false env = lookup env (codes "WSLENV") ≡ none

-- The variables that go with the command, for a secret and a client inside WSL or outside.
unfoldable pub Delivers : Option Text → Bool → ProcessEnv → Type 0
unfolding Passes
Delivers none via env = lookup env (codes "SSHPASS") ≡ none
Delivers (some p) via env = (lookup env (codes "SSHPASS") ≡ some p) × Passes via env

passed-HasName :
    (existing : Option Text)
    → HasName (codes "SSHPASS") (wsl_entries (append_wsl_env existing (codes "SSHPASS/u")))
unfolding entry_name
passed-HasName existing = elim (append_wsl_env-entries existing (codes "SSHPASS/u") sshpass_entry) [
  | inl (n, e) ↦ subst (HasName (codes "SSHPASS")) (sym e) n
  | inr (n, e) ↦
      subst (HasName (codes "SSHPASS")) (sym e)
        (HasName-append (entries_of existing) (codes "SSHPASS/u"))
]
  where
    sshpass_entry : IsEntry (codes "SSHPASS/u")
    sshpass_entry =
        entry b'S' (codes "SHPASS/u")
          (refl, (refl, (refl, (refl, (refl, (refl, (refl, (refl, (refl, tt)))))))))

password_env-Delivers :
    (secret : Option Text) (via : Bool) (env : ProcessEnv)
    → Delivers secret via (password_env secret via env)
unfolding password_env lookup ◌===◌ Delivers
password_env-Delivers none via env = refl
password_env-Delivers (some p) true env = (
  refl,
  (
    append_wsl_env (lookup env (codes "WSLENV")) (codes "SSHPASS/u"),
    refl,
    passed-HasName (lookup env (codes "WSLENV")),
  ),
)
password_env-Delivers (some p) false env = (refl, refl)

connect_to-Delivers :
    (host : Option Text) (win32 : Bool) (s : SshOptions) (wsl : Option WslOptions) (command : Text)
    (env : ProcessEnv) (i : SshInvocation)
    → connect_to host win32 s wsl command env ≡ built i
    → Delivers (resolve_ssh_password s env) (ssh_runs_in_wsl win32 s) i.env
unfolding connect_to ssh_invocation
connect_to-Delivers none win32 s wsl command env i e = cc
connect_to-Delivers (some []) win32 s wsl command env i e = cc
connect_to-Delivers (some (c ∷ host)) win32 s wsl command env i e =
    let same : password_env (resolve_ssh_password s env) (ssh_runs_in_wsl win32 s) env ≡ i.env =
      cc in
    subst (Delivers (resolve_ssh_password s env) (ssh_runs_in_wsl win32 s)) same
      (password_env-Delivers (resolve_ssh_password s env) (ssh_runs_in_wsl win32 s) env)

-- The environment that goes with a command that was built has the password under SSHPASS, and for a
-- client inside WSL a WSLENV list with an entry of that name. The password is that of the
-- variable, or where it is not set that of the options; where there is none, there is no SSHPASS.
pub build_ssh_command-password :
    (win32 : Bool) (s : SshOptions) (wsl : Option WslOptions) (command : Text) (env : ProcessEnv)
    (i : SshInvocation) (secret : Option Text)
    → Finds s env secret
    → build_ssh_command win32 s wsl command env ≡ built i
    → Delivers secret (ssh_runs_in_wsl win32 s) i.env
unfolding build_ssh_command
build_ssh_command-password win32 s wsl command env i secret f e =
    subst (λ o. Delivers o (ssh_runs_in_wsl win32 s) i.env) (resolve_ssh_password-Finds s env f)
      (connect_to-Delivers s.host win32 s wsl command env i e)
