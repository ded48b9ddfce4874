-- ===== src/Command.antt =====
-- utils/chos.c: set_env and set_beh, which read /etc/chos.conf for a login shell. check_chos is
-- in Conf.antt.
pub mod Env
pub mod Main
pub mod Bounds
use chos.Conf.{is_skipped}
use chos.Text.{read_lines, until_end}
use chos.Prelude.{
  ℕ, ◌+◌, Bool, true, false, not, Option, none, some, List, [], ◌∷◌, ◌++◌, Bytes, codes, length,
  str_eq, head_or, ltb, ◌==◌, if◌then◌else◌,
}

-- `MAXLINE`
abbrev pub line_size : ℕ
line_size = 80

-- `ENVHEAD`
abbrev pub envhead : Bytes
envhead = codes "%ENV"

-- `BEHHEAD`
abbrev pub behhead : Bytes
behhead = codes "%BEH"

-- `DEFPATH`
abbrev pub defpath : Bytes
defpath = codes "PATH=/bin:/usr/bin:/usr/local/bin"

-- What set_env gets: the bytes of the file, or none if it cannot be opened; the environment;
-- and whether malloc gives the array and room for an entry.
pub record Shell : Type 0 where
  pub conf : Option Bytes
  pub getenv : Bytes → Option Bytes
  pub array : Bool
  pub room : Bytes → Bool

-- A null pointer, the entries before the null pointer that ends them, a write behind the array, or
-- the return with no value when there is no room for an entry.
pub data Envp : Type 0 where
  no_env : Envp
  environment : List Bytes → Envp
  overflow : Envp
  undefined : Envp

-- The first loop, with `start` and `count`.
unfoldable pub count_vars : Bool → ℕ → List Bytes → ℕ
count_vars start count [] = count
count_vars start count (line ∷ lines) = elim (is_skipped line) [
  | true ↦ count_vars start count lines
  | false ↦ elim start [
    | false ↦ count_vars (str_eq (until_end line) envhead) count lines
    | true ↦ elim (head_or 0 (until_end line) == b'%') [
      | true ↦ count + 1
      | false ↦ count_vars true (count + 1) lines
    ]
  ]
]

-- One variable of the second loop: go on with the entries so far, of which there are `setc`, or stop.
pub data Entry : Type 0 where
  kept : List Bytes → Entry
  stop : Envp → Entry

-- `env[setc]=entry; setc++;` in an array of `size` pointers.
abbrev pub put : ℕ → Bytes → List Bytes → Entry
put size entry env = if ltb (length env) size then kept (env ++ entry ∷ []) else stop overflow

-- `sprintf(var,"%s=%s",buffer,value)`
abbrev pub assignment : Bytes → Bytes → Bytes
assignment name value = name ++ b'=' ∷ value

unfoldable pub put_var : Shell → ℕ → ℕ → Bytes → List Bytes → Entry
put_var sh size count name env =
    if str_eq name (codes "PATH") then put size defpath env else elim (sh.getenv name) [
      | none ↦ kept env
      | some value ↦
          if not (ltb (length env) count)
          then kept env
          else if sh.room (assignment name value)
          then put size (assignment name value) env
          else stop undefined
    ]

-- The part behind the second loop.
unfoldable pub terminate : ℕ → ℕ → List Bytes → Envp
terminate size count env =
    if ltb (length env) count
    then (if ltb (length env) size then environment env else overflow)
    else no_env

-- The second loop; `count` goes on from the first.
unfoldable pub fill_env : Shell → ℕ → Bool → ℕ → List Bytes → List Bytes → Envp
unfolding put_var terminate
fill_env sh size start count env [] = terminate size count env
fill_env sh size start count env (line ∷ lines) = elim (is_skipped line) [
  | true ↦ fill_env sh size start count env lines
  | false ↦ elim start [
    | false ↦ fill_env sh size (str_eq (until_end line) envhead) count env lines
    | true ↦ elim (head_or 0 (until_end line) == b'%') [
      | true ↦ terminate size (count + 1) env
      | false ↦ elim (put_var sh size (count + 1) (until_end line) env) [
        | kept env' ↦ fill_env sh size true (count + 1) env' lines
        | stop result ↦ result
      ]
    ]
  ]
]

unfoldable pub set_env : Shell → Envp
unfolding count_vars fill_env read_lines
set_env sh = elim sh.conf [
  | none ↦ no_env
  | some bytes ↦
      let lines = read_lines line_size bytes in
      let size = count_vars false 1 lines in
      if not sh.array then no_env else fill_env sh size false size [] lines
]

-- The loop of set_beh, with `start` and `dobashlog`.
unfoldable pub beh_lines : Bool → Bool → List Bytes → Bool
beh_lines start dobashlog [] = dobashlog
beh_lines start dobashlog (line ∷ lines) = elim (is_skipped line) [
  | true ↦ beh_lines start dobashlog lines
  | false ↦ elim start [
    | false ↦ beh_lines (str_eq (until_end line) behhead) dobashlog lines
    | true ↦ elim (head_or 0 (until_end line) == b'%') [
      | true ↦ dobashlog
      | false ↦
          beh_lines true (if str_eq (until_end line) (codes "BASHLOGIN") then true else dobashlog)
            lines
    ]
  ]
]

unfoldable pub set_beh : Option Bytes → Bool
unfolding beh_lines read_lines
set_beh none = false
set_beh (some bytes) = beh_lines false false (read_lines line_size bytes)
