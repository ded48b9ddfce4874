-- ===== src/Tests/Command.antt =====
-- The command chos on a configuration file.
use chos.Command.Bounds.{set_env-overflows, overflows}
use chos.Text.{read_lines}
use chos.Conf.Section.{section}
use chos.Command.Env.{set_env-entries, entries}
use chos.Command.{line_size, envhead, defpath, environment, set_env, set_beh, Shell}
use chos.Prelude.{false, [], refl, Bytes, codes, some, none, true, ◌∷◌, ◌≡◌, str_eq, if◌then◌else◌}

abbrev conf_bytes : Bytes
conf_bytes = codes "# shells\n%ENV\nPATH\nHOME\nTERM\n\n%BEH\nBASHLOGIN\n"

-- HOME is set, TERM is not.
abbrev pub shell : Shell
shell = record {
  conf = some conf_bytes;
  getenv = λ name. if str_eq name (codes "HOME") then some (codes "/home/joe") else none;
  array = true;
  room = λ entry. true;
}

builds : set_env shell ≡ environment (defpath ∷ codes "HOME=/home/joe" ∷ [])
unfolding set_env
builds = refl

asks_for_login : set_beh (some conf_bytes) ≡ true
unfolding set_beh
asks_for_login = refl

-- The properties here.

set_env-entries_example :
    set_env shell ≡ environment (entries shell (section envhead (read_lines line_size conf_bytes)))
set_env-entries_example =
    set_env-entries shell conf_bytes (record { array = refl; room = λ entry. refl }) refl

-- There is no room for the second entry.
set_env-overflows_example : overflows (set_env (record shell { room = λ entry. false })) ≡ false
set_env-overflows_example = set_env-overflows (record shell { room = λ entry. false })
