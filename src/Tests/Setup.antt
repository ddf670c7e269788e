-- ===== src/Tests/Setup.antt =====
-- Witnesses of the theorems on the command line and the attributes.
use pars_c.Token.{TokenType}
use pars_c.Symbol.{get_attributes-set_attributes, symbol_with, get_attributes, set_attributes}
use pars_c.Common.{ℕ, true, [], ◌∷◌, Bytes, ◌≡◌, refl, arith, bytes_eq}
use pars_c.Outcome.{undefined, ok}
use pars_c.Lexer.Keywords.{codes}
use pars_c.Cli.{
  Registry, CliCommandInfo, CliSwitch, parsed, message, command_used, number, parse_cli_args,
  set_cli_command, add_cli_switch,
}
use pars_c.Cli.Commands.{
  parse_cli_args-no_value, IsPath, IsCommand, parse_cli_args-command, parse_cli_args-second,
}
use pars_c.Config.{Config, g_config, init_config}

abbrev nothing : Registry Config
nothing = record { commands = []; switches = []; aliases = [] }

abbrev atoi : Bytes → ℕ
atoi text = 2

abbrev put_command : ℕ → Config → Config
put_command n c = record c { command = n }

abbrev run_info : CliCommandInfo Config
run_info = record { index = 1; buffer = put_command }

abbrev build_info : CliCommandInfo Config
build_info = record { index = 0; buffer = put_command }

main-IsPath : IsPath (init_config nothing) (codes "main.pars")
unfolding init_config set_cli_command add_cli_switch bytes_eq
main-IsPath = record { no_dash = refl; no_command_is = refl }

run-IsCommand : IsCommand (init_config nothing) (codes "run") run_info
unfolding init_config set_cli_command add_cli_switch bytes_eq
run-IsCommand = record { no_dash = refl; command_is = refl }

build-IsCommand : IsCommand (init_config nothing) (codes "build") build_info
unfolding init_config set_cli_command add_cli_switch bytes_eq
build-IsCommand = record { no_dash = refl; command_is = refl }

parse_cli_args-command_example :
    parse_cli_args atoi (init_config nothing) true (codes "main.pars" ∷ codes "run" ∷ []) g_config
    ≡ ok (parsed (codes "main.pars" ∷ []), record g_config { command = 1 })
parse_cli_args-command_example =
    parse_cli_args-command atoi (init_config nothing) true (codes "main.pars" ∷ []) (codes "run")
      run_info [] g_config (main-IsPath, tt) run-IsCommand tt

parse_cli_args-second_example :
    parse_cli_args atoi
      (init_config nothing)
      true
      (codes "run" ∷ codes "main.pars" ∷ codes "build" ∷ codes "main.pars" ∷ [])
      g_config
    ≡ ok (message command_used, record g_config { command = 1 })
parse_cli_args-second_example =
    parse_cli_args-second atoi (init_config nothing) true [] (codes "run") run_info
      (codes "main.pars" ∷ []) (codes "build") build_info (codes "main.pars" ∷ []) g_config tt
      run-IsCommand (main-IsPath, tt) build-IsCommand

abbrev optimize : CliSwitch Config
optimize = record {
  name = codes "optimize";
  alias = codes "opt";
  buffer = number (λ n c. record c { opt_level = n });
}

parse_cli_args-no_value_example :
    parse_cli_args atoi
      (init_config nothing)
      true
      (codes "main.pars" ∷ codes "--optimize" ∷ [])
      g_config
    ≡ undefined
unfolding init_config set_cli_command add_cli_switch bytes_eq
parse_cli_args-no_value_example =
    parse_cli_args-no_value atoi (init_config nothing) true (codes "main.pars" ∷ [])
      (codes "optimize") optimize (λ n c. record c { opt_level = n }) g_config (main-IsPath, tt)
      refl refl

get_attributes-set_attributes_example :
    get_attributes
      (symbol_with (codes "f") 1 2)
      (TokenType.static_kw ∷ TokenType.const_kw ∷ TokenType.async_kw ∷ TokenType.enum_kw ∷ [])
    ≡ (TokenType.const_kw ∷ TokenType.async_kw ∷ [])
unfolding set_attributes
get_attributes-set_attributes_example =
    get_attributes-set_attributes (TokenType.const_kw ∷ TokenType.async_kw ∷ [])
      (TokenType.static_kw ∷ []) (TokenType.enum_kw ∷ []) (codes "f") (omega arith) (omega arith)
