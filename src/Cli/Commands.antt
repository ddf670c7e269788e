-- ===== src/Cli/Commands.antt =====
-- Command lines with one command among paths, as src/cli.cpp reads them.
use pars_c.Common.{
  if◌then◌else◌, arith, ℕ, Bool, true, false, none, some, List, [], ◌∷◌, ◌++◌, append_assoc,
  append-nil, Bytes, lookup, ◌≡◌, refl, sym, ap, ◌∙◌,
}
use pars_c.Outcome.{ok, undefined}
use pars_c.Cli.{
  Registry, CliCommandInfo, CliSwitch, parsed, message, command_used, no_command, number, begins,
  read_command, read_switch, write_switch, parse_arg, parse_from, parse_cli_args,
}

module _ {C : Type 0} (g : Registry C) where
  -- Neither a switch nor a command.
  pub record IsPath (arg : Bytes) : Type 0 where
    pub no_dash : begins (b'-' ∷ []) arg ≡ false
    pub no_command_is : lookup arg g.commands ≡ none

  abbrev pub AllPaths : List Bytes → Type 0
  AllPaths [] = Unit
  AllPaths (arg ∷ args) = IsPath arg × AllPaths args

  pub record IsCommand (arg : Bytes) (info : CliCommandInfo C) : Type 0 where
    pub no_dash : begins (b'-' ∷ []) arg ≡ false
    pub command_is : lookup arg g.commands ≡ some info

  no_dashes : (arg : Bytes) → begins (b'-' ∷ []) arg ≡ false → begins (b'-' ∷ b'-' ∷ []) arg ≡ false
  no_dashes [] h = refl
  no_dashes (c ∷ arg) h = ground arith

module _ {C : Type 0} (atoi : Bytes → ℕ) (g : Registry C) (needs_command : Bool) where
  parse_from-path :
      (arg : Bytes) (rest : List Bytes) (found : Bool) (args : List Bytes) (c : C)
      → IsPath g arg
      → parse_from atoi g needs_command (arg ∷ rest) found args c
        ≡ parse_from atoi g needs_command rest found (args ++ arg ∷ []) c
  unfolding parse_from parse_arg read_command
  parse_from-path arg [] found args c p =
      rw (no_dashes g arg p.no_dash, p.no_dash, p.no_command_is) refl
  parse_from-path arg (value ∷ rest) found args c p =
      rw (no_dashes g arg p.no_dash, p.no_dash, p.no_command_is) refl

  parse_from-command :
      (arg : Bytes) (info : CliCommandInfo C) (rest args : List Bytes) (c : C)
      → IsCommand g arg info
      → parse_from atoi g needs_command (arg ∷ rest) false args c
        ≡ parse_from atoi g needs_command rest true args (info.buffer info.index c)
  unfolding parse_from parse_arg read_command
  parse_from-command arg info [] args c p =
      rw (no_dashes g arg p.no_dash, p.no_dash, p.command_is) refl
  parse_from-command arg info (value ∷ rest) args c p =
      rw (no_dashes g arg p.no_dash, p.no_dash, p.command_is) refl

  parse_from-again :
      (arg : Bytes) (info : CliCommandInfo C) (rest args : List Bytes) (c : C)
      → IsCommand g arg info
      → parse_from atoi g needs_command (arg ∷ rest) true args c ≡ ok (message command_used, c)
  unfolding parse_from parse_arg read_command
  parse_from-again arg info [] args c p =
      rw (no_dashes g arg p.no_dash, p.no_dash, p.command_is) refl
  parse_from-again arg info (value ∷ rest) args c p =
      rw (no_dashes g arg p.no_dash, p.no_dash, p.command_is) refl

  parse_from-paths :
      (paths rest : List Bytes) (found : Bool) (args : List Bytes) (c : C)
      → AllPaths g paths
      → parse_from atoi g needs_command (paths ++ rest) found args c
        ≡ parse_from atoi g needs_command rest found (args ++ paths) c
  parse_from-paths [] rest found args c p =
      ap (λ x. parse_from atoi g needs_command rest found x c) (sym (append-nil args))
  parse_from-paths (path ∷ paths) rest found args c p =
      parse_from-path path (paths ++ rest) found args c p.0
      ∙ parse_from-paths paths rest found (args ++ path ∷ []) c p.1
      ∙ ap (λ x. parse_from atoi g needs_command rest found x c)
          (append_assoc args (path ∷ []) paths)

  -- With one command among paths, `parse_cli_args` writes the command's index through its buffer
  -- and returns the paths in their order.
  pub parse_cli_args-command :
      (before : List Bytes) (arg : Bytes) (info : CliCommandInfo C) (after : List Bytes) (c : C)
      → AllPaths g before
      → IsCommand g arg info
      → AllPaths g after
      → parse_cli_args atoi g needs_command (before ++ arg ∷ after) c
        ≡ ok (parsed (before ++ after), info.buffer info.index c)
  unfolding parse_cli_args parse_from
  parse_cli_args-command before arg info after c p q r =
      parse_from-paths before (arg ∷ after) false [] c p
      ∙ parse_from-command arg info after before c q
      ∙ ap (λ x. parse_from atoi g needs_command x true before (info.buffer info.index c))
          (sym (append-nil after))
      ∙ parse_from-paths after [] true before (info.buffer info.index c) r

  -- With two commands among paths, `parse_cli_args` stops at the second with an error; the first one
  -- is written by then.
  pub parse_cli_args-second :
      (before : List Bytes) (arg : Bytes) (info : CliCommandInfo C) (between : List Bytes)
      (again : Bytes) (other : CliCommandInfo C) (after : List Bytes) (c : C)
      → AllPaths g before
      → IsCommand g arg info
      → AllPaths g between
      → IsCommand g again other
      → parse_cli_args atoi g needs_command (before ++ arg ∷ (between ++ again ∷ after)) c
        ≡ ok (message command_used, info.buffer info.index c)
  unfolding parse_cli_args
  parse_cli_args-second before arg info between again other after c p q r s =
      parse_from-paths before (arg ∷ (between ++ again ∷ after)) false [] c p
      ∙ parse_from-command arg info (between ++ again ∷ after) before c q
      ∙ parse_from-paths between (again ∷ after) true before (info.buffer info.index c) r
      ∙ parse_from-again again other after (before ++ between) (info.buffer info.index c) s

  -- With paths alone, `parse_cli_args` returns them all and writes nothing, and it is an error if a
  -- command is needed.
  pub parse_cli_args-paths :
      (paths : List Bytes) (c : C)
      → AllPaths g paths
      → parse_cli_args atoi g needs_command paths c
        ≡ ok ((if needs_command then message no_command else parsed paths), c)
  unfolding parse_cli_args parse_from
  parse_cli_args-paths paths c p =
      ap (λ x. parse_from atoi g needs_command x false [] c) (sym (append-nil paths))
      ∙ parse_from-paths paths [] false [] c p
      ∙ ground arith

  -- With a switch that takes a number as the last argument, behind paths, the code reads the null
  -- pointer behind the arguments, which is undefined.
  pub parse_cli_args-no_value :
      (paths : List Bytes) (name : Bytes) (s : CliSwitch C) (put : ℕ → C → C) (c : C)
      → AllPaths g paths
      → lookup name g.switches ≡ some s
      → s.buffer ≡ number put
      → parse_cli_args atoi g needs_command (paths ++ (b'-' ∷ b'-' ∷ name) ∷ []) c ≡ undefined
  unfolding parse_cli_args parse_from parse_arg read_switch write_switch
  parse_cli_args-no_value paths name s put c p h k =
      parse_from-paths paths ((b'-' ∷ b'-' ∷ name) ∷ []) false [] c p ∙ rw (h, k) refl
