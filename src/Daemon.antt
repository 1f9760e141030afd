-- ===== src/Daemon.antt =====
-- Conf.h, ConfReader.cpp and muQuinetd.cpp: the configuration, and the daemon's life. The parsing of
-- the command line is that of boost: an option is present with its value, or it is not.
use mu_quinet.Prelude.{ℕ, List, Bool, true, false, Option, none, some, if◌then◌else◌}

pub record Conf : Type 0 where
  pub level : List ℕ
  pub to_stdout : Bool
  pub dir : List ℕ
  pub tun_name : List ℕ
  pub tun_addr_cidr : List ℕ
  pub stack_addr : List ℕ
  pub conf_file : List ℕ

pub data CmdOption : Type 0 where
  help version verbose config logging_level logging_dir : CmdOption
  logging_to_stdout tundev_name tundev_addr stack_addr : CmdOption

abbrev pub given : Option (List ℕ) → List ℕ → List ℕ
given none old = old
given (some value) old = value

abbrev pub present : Option (List ℕ) → Bool
present none = false
present (some value) = true

-- `none` is an exit with success.
unfoldable pub read_cmd_line : (CmdOption → Option (List ℕ)) → Conf → Option Conf
read_cmd_line options conf =
    if present (options CmdOption.help)
    then none
    else if present (options CmdOption.version)
    then none
    else some (record conf {
      level = given (options CmdOption.logging_level) conf.level;
      to_stdout = if present (options CmdOption.logging_to_stdout) then true else conf.to_stdout;
      tun_name = given (options CmdOption.tundev_name) conf.tun_name;
      tun_addr_cidr = given (options CmdOption.tundev_addr) conf.tun_addr_cidr;
      stack_addr = given (options CmdOption.stack_addr) conf.stack_addr;
    })

-- The flags that the layers' threads look at, `running`, and the status of an exit.
pub record Daemon : Type 0 where
  pub interface_stopped : Bool
  pub ip_stopped : Bool
  pub loop_stopped : Bool
  pub running : Bool
  pub exited : Option Bool

unfoldable pub run : Daemon → Daemon
run d = record d { running = true }

unfoldable pub stop : Daemon → Daemon
stop d = record d {
  interface_stopped = true;
  ip_stopped = true;
  loop_stopped = true;
  running = false;
}

unfoldable pub exit : Bool → Daemon → Daemon
unfolding stop
exit success d = let d' = if d.running then stop d else d in record d' { exited = some success }
