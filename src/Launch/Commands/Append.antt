-- ===== src/Launch/Commands/Append.antt =====
-- A command for the guest is the bare prefix with the command behind it: src/dockerLauncher.ts,
-- src/sshLauncher.ts and `buildWslCommand` of src/wslLauncher.ts.
use vscode_cann_debugger.Base.{
  Bool, true, false, Option, none, some, List, [], ◌∷◌, ◌++◌, append-nil, append_assoc, Text, ◌≡◌,
  refl, sym, ap, ◌∙◌,
}
use vscode_cann_debugger.Launch.Options.{
  ProcessEnv, WslOptions, DockerOptions, SshOptions, SshInvocation, Built, built, threw, ◌>>=◌,
}
use vscode_cann_debugger.Launch.Commands.{
  wsl_prefix, build_wsl_command, build_container_command, build_docker_exec_argv, build_ssh_command,
  command_args, client_argv, docker_exec, through_wsl, ssh_invocation, exec_in, connect_to,
  password_env,
}

docker_exec-append :
    (name : Text) (d : DockerOptions) (inner : List Text)
    → docker_exec name d inner ≡ docker_exec name d [] ++ inner
unfolding docker_exec
docker_exec-append name d inner = simp (append_assoc)

through_wsl-append :
    (via : Option Bool) (wsl : Option WslOptions) (argv inner : List Text)
    → through_wsl via wsl (argv ++ inner) ≡ through_wsl via wsl argv ++ inner
unfolding through_wsl
through_wsl-append (some false) wsl argv inner = refl
through_wsl-append (some true) wsl argv inner = simp (append_assoc)
through_wsl-append none wsl argv inner = simp (append_assoc)

client_argv-append :
    (secret : Option Text) (host : Text) (s : SshOptions) (command : Text)
    → client_argv secret host s command ≡ client_argv secret host s [] ++ command_args command
unfolding client_argv
client_argv-append secret host s command = simp (append_assoc)

pub build_wsl_command-append :
    (wsl : Option WslOptions) (inner : List Text)
    → build_wsl_command wsl inner ≡ build_wsl_command wsl [] ++ inner
unfolding build_wsl_command
build_wsl_command-append wsl inner = rw (append-nil) refl

exec_in-append :
    (name : Option Text) (d : DockerOptions) (inner : List Text)
    → exec_in name d inner ≡ (exec_in name d [] >>= λ argv. built (argv ++ inner))
unfolding exec_in
exec_in-append none d inner = refl
exec_in-append (some []) d inner = refl
exec_in-append (some (c ∷ name)) d inner = ap built (docker_exec-append (c ∷ name) d inner)

carried-append :
    (via : Option Bool) (wsl : Option WslOptions) (inner : List Text) (b : Built (List Text))
    → ((b >>= (λ argv. built (argv ++ inner))) >>= (λ argv. built (through_wsl via wsl argv)))
      ≡ ((b >>= (λ argv. built (through_wsl via wsl argv))) >>= (λ argv. built (argv ++ inner)))
carried-append via wsl inner (threw e) = refl
carried-append via wsl inner (built argv) = ap built (through_wsl-append via wsl argv inner)

pub build_container_command-append :
    (d : DockerOptions) (wsl : Option WslOptions) (inner : List Text)
    → build_container_command d wsl inner
      ≡ (build_container_command d wsl [] >>= λ argv. built (argv ++ inner))
unfolding build_container_command build_docker_exec_argv
build_container_command-append d wsl inner =
    ap (λ b. b >>= λ argv. built (through_wsl d.via_wsl wsl argv))
      (exec_in-append d.container_name d inner)
    ∙ carried-append d.via_wsl wsl inner (exec_in d.container_name d [])

-- The invocation with more words behind its own.
abbrev pub extended : List Text → SshInvocation → SshInvocation
extended words i = record i { argv = i.argv ++ words }

ssh_invocation-append :
    (secret : Option Text) (via : Bool) (host : Text) (s : SshOptions) (wsl : Option WslOptions)
    (command : Text) (env : ProcessEnv)
    → ssh_invocation secret via host s wsl command env
      ≡ extended (command_args command) (ssh_invocation secret via host s wsl [] env)
unfolding ssh_invocation
ssh_invocation-append secret true host s wsl command env =
    rw (client_argv-append secret host s command) (
      ap (λ argv. record { argv = argv; env = password_env secret true env })
        (sym (append_assoc (wsl_prefix wsl) (client_argv secret host s []) (command_args command))))
ssh_invocation-append secret false host s wsl command env =
    rw (client_argv-append secret host s command) refl

connect_to-append :
    (host : Option Text) (win32 : Bool) (s : SshOptions) (wsl : Option WslOptions) (command : Text)
    (env : ProcessEnv)
    → connect_to host win32 s wsl command env
      ≡ (connect_to host win32 s wsl [] env >>= λ i. built (extended (command_args command) i))
unfolding connect_to
connect_to-append none win32 s wsl command env = refl
connect_to-append (some []) win32 s wsl command env = refl
connect_to-append (some (c ∷ host)) win32 s wsl command env =
    ap built (ssh_invocation-append _ _ (c ∷ host) s wsl command env)

pub build_ssh_command-append :
    (win32 : Bool) (s : SshOptions) (wsl : Option WslOptions) (command : Text) (env : ProcessEnv)
    → build_ssh_command win32 s wsl command env
      ≡ (build_ssh_command win32 s wsl [] env >>= λ i. built (extended (command_args command) i))
unfolding build_ssh_command
build_ssh_command-append win32 s wsl command env = connect_to-append s.host win32 s wsl command env
