-- ===== src/Cli.antt =====
-- The command line of src/cli.cpp. A buffer of a command or a switch is modelled by what a write
-- through it does to the state `C` that it points into. `atoi` is the C library's.
pub mod Commands
use pars_c.Common.{
  ℕ, Bool, true, false, not, ◌&&◌, Option, none, some, List, [], ◌∷◌, ◌++◌, Bytes, drop, ◌==◌,
  if◌then◌else◌, lookup, insert,
}
use pars_c.Outcome.{Outcome, ok, undefined, ◌>>=◌}

-- `bool *`, `i32 *`, `std::string_view *`
pub data CliSwitchValue (C : Type 0) : Type 0 where
  flag : (C → C) → CliSwitchValue C
  number : (ℕ → C → C) → CliSwitchValue C
  text : (Bytes → C → C) → CliSwitchValue C

pub record CliSwitch (C : Type 0) : Type 0 where
  pub name : Bytes
  pub alias : Bytes
  pub buffer : CliSwitchValue C

pub record CliCommandInfo (C : Type 0) : Type 0 where
  pub index : ℕ
  pub buffer : ℕ → C → C

-- The tables `g_cli_commands`, `g_switches` and `g_switches_aliases`.
pub record Registry (C : Type 0) : Type 0 where
  pub commands : List (Bytes × CliCommandInfo C)
  pub switches : List (Bytes × CliSwitch C)
  pub aliases : List (Bytes × CliSwitch C)

-- The messages of `CliParseResult`, unformatted.
pub data CliError : Type 0 where
  no_switch : Bytes → CliError
  command_used : CliError
  no_command : CliError

pub data CliParseResult : Type 0 where
  message : CliError → CliParseResult
  parsed : List Bytes → CliParseResult

-- How a round of the loop ends: with a return, or with `value_used` if it took the argument behind
-- its own.
pub data Round (C : Type 0) : Type 0 where
  return : CliParseResult → C → Round C
  next : (value_used found_command : Bool) → List Bytes → C → Round C

-- `starts_with`
abbrev pub begins : Bytes → Bytes → Bool
begins [] arg = true
begins (c ∷ cs) [] = false
begins (c ∷ cs) (d ∷ arg) = if c == d then begins cs arg else false

abbrev pub is_nil : Bytes → Bool
is_nil [] = true
is_nil (c ∷ cs) = false

module _ {C : Type 0} where
  unfoldable pub set_cli_command : Bytes → CliCommandInfo C → Registry C → Registry C
  set_cli_command name info g = record g { commands = insert name info g.commands }

  unfoldable pub add_cli_switch : CliSwitch C → Registry C → Registry C
  add_cli_switch s g = record g {
    switches = insert s.name s g.switches;
    aliases = if not (is_nil s.alias) then insert s.alias s g.aliases else g.aliases;
  }

  module _ (atoi : Bytes → ℕ) where
    -- The `std::visit` on the buffer; there is no argument behind the last one.
    unfoldable pub write_switch :
        CliSwitchValue C → Option Bytes → Bool → List Bytes → C → Outcome (Round C)
    write_switch (flag put) value found args c = ok (next false found args (put c))
    write_switch (number put) none found args c = undefined
    write_switch (number put) (some value) found args c =
        ok (next true found args (put (atoi value) c))
    write_switch (text put) none found args c = undefined
    write_switch (text put) (some value) found args c = ok (next true found args (put value c))

    unfoldable pub read_switch :
        Option (CliSwitch C) → Bytes → Option Bytes → Bool → List Bytes → C → Outcome (Round C)
    read_switch none name value found args c = ok (return (message (no_switch name)) c)
    read_switch (some s) name value found args c = write_switch s.buffer value found args c

  unfoldable pub read_command :
      Option (CliCommandInfo C) → Bytes → Bool → List Bytes → C → Outcome (Round C)
  read_command none arg found args c = ok (next false found (args ++ arg ∷ []) c)
  read_command (some info) arg true args c = ok (return (message command_used) c)
  read_command (some info) arg false args c = ok (next false true args (info.buffer info.index c))

  module _ (atoi : Bytes → ℕ) (g : Registry C) (needs_command : Bool) where
    -- one round of the loop of `parse_cli_args`, on `arg` with `value` behind it
    unfoldable pub parse_arg : Bytes → Option Bytes → Bool → List Bytes → C → Outcome (Round C)
    parse_arg arg value found args c =
        if begins (b'-' ∷ b'-' ∷ []) arg
        then read_switch atoi (lookup (drop 2 arg) g.switches) (drop 2 arg) value found args c
        else if begins (b'-' ∷ []) arg
        then read_switch atoi (lookup (drop 1 arg) g.aliases) (drop 1 arg) value found args c
        else read_command (lookup arg g.commands) arg found args c

    unfoldable pub parse_from : List Bytes → Bool → List Bytes → C → Outcome (CliParseResult × C)
    parse_from [] found args c =
        if not found && needs_command then ok (message no_command, c) else ok (parsed args, c)
    parse_from (arg ∷ []) found args c = parse_arg arg none found args c >>= λ round. elim round [
      | return result c' ↦ ok (result, c')
      | next used found' args' c' ↦ parse_from [] found' args' c'
    ]
    parse_from (arg ∷ value ∷ rest) found args c =
        parse_arg arg (some value) found args c >>= λ round. elim round [
          | return result c' ↦ ok (result, c')
          | next used found' args' c' ↦ elim used [
            | true ↦ parse_from rest found' args' c'
            | false ↦ parse_from (value ∷ rest) found' args' c'
          ]
        ]

    -- `argv` without the name of the program.
    unfoldable pub parse_cli_args : List Bytes → C → Outcome (CliParseResult × C)
    parse_cli_args argv c = parse_from argv false [] c
