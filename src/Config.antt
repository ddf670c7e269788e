-- ===== src/Config.antt =====
-- src/config.cpp: what the commands and the switches of the compiler set.
use Prim.Native.String.{String}
use pars_c.Common.{ℕ, Bool, true, false, not, ◌&&◌, ◌||◌, [], Bytes, ◌==◌}
use pars_c.Lexer.Keywords.{codes}
use pars_c.Cli.{CliSwitchValue, Registry, flag, number, text, set_cli_command, add_cli_switch}

-- `CompileCommand`
abbrev pub build : ℕ
build = 0

abbrev pub run : ℕ
run = 1

abbrev pub help : ℕ
help = 2

abbrev pub test : ℕ
test = 3

-- The field `command` is written through a pointer to its number.
pub record Config : Type 0 where
  pub command : ℕ
  pub emit_llvm : Bool
  pub do_not_compile : Bool
  pub do_not_warn : Bool
  pub fail_on_warning : Bool
  pub silent_errors : Bool
  pub out : Bytes
  pub opt_level : ℕ

abbrev pub g_config : Config
g_config = record {
  command = build;
  emit_llvm = false;
  do_not_compile = false;
  do_not_warn = false;
  fail_on_warning = false;
  silent_errors = false;
  out = [];
  opt_level = 0;
}

unfoldable pub should_compile : Config → Bool
should_compile c = not c.do_not_compile && c.command == build || c.command == run

abbrev put_command : ℕ → Config → Config
put_command n c = record c { command = n }

abbrev command : String → ℕ → Registry Config → Registry Config
command name index = set_cli_command (codes name) (record { index = index; buffer = put_command })

abbrev switch : String → String → CliSwitchValue Config → Registry Config → Registry Config
switch name alias buffer =
    add_cli_switch (record { name = codes name; alias = codes alias; buffer = buffer })

-- the registrations of `init_config`, from the last one to the first
unfoldable pub init_config : Registry Config → Registry Config
init_config g = switch "optimize" "opt" (number (λ n c. record c { opt_level = n })) (
    switch "silent-errors" "silent" (flag (λ c. record c { silent_errors = true })) (
      switch "fail-on-warning" "fow" (flag (λ c. record c { fail_on_warning = true })) (
        switch "no-warnings" "nowarn" (flag (λ c. record c { do_not_warn = true })) (
          switch "out" "o" (text (λ t c. record c { out = t })) (
            switch "do-not-compile" "nocomp" (flag (λ c. record c { do_not_compile = true })) (
              switch "emit-llvm" "llvm" (flag (λ c. record c { emit_llvm = true })) (
                command "test" test
                  (command "help" help (command "run" run (command "build" build g))))))))))
