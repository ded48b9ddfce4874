-- ===== src/Pam/Info/Resolve.antt =====
-- Which environment get_chos_info chooses, and when it calls fputs on a null pointer.
use chos.Conf.{check_chos}
use chos.Pam.UserFile.{default_env_name, read_chos_file}
use chos.Pam.Sanitize.Cleans.{Cleans, Cleans-unique}
use chos.Text.{until_nul}
use chos.Pam.Sanitize.Clean.{AllValid}
use chos.Pam.Sanitize.{sanitize_name, sanitize_str}
use chos.Pam.UserFile.Name.{
  Names, Names-unique, read_chos_file-Reads, sanitized_whole, Reads, close_fails, opened_at, IsName,
  file_name,
}
use chos.Pam.Args.{maxline, init_pam_chos_config, parse_pam_chos_args, PamChosConfig}
use chos.Pam.Info.{
  crash, answer, sent, choose_os, get_chos_info, Surroundings, choose_name, write_info,
}
use chos.Prelude.{
  ◌≤◌, ◌<◌, [], ◌∷◌, ◌==◌, Bool, sym, str_eq, none, length, ltb, List, Option, ap, ◌||◌, refl,
  arith, ◌∙◌, inr, inl, subst, ◌+◌, true, false, Bool-cases, some, Bytes, ℕ, ◌≡◌,
}

until_nul-AllValid :
    (p : Bool) (bs : Bytes)
    → AllValid p bs
    → AllValid p (until_nul bs) × (length (until_nul bs) ≤ length bs)
until_nul-AllValid p [] h = (tt, omega arith)
until_nul-AllValid p (c ∷ cs) h =
    let rest = until_nul-AllValid p cs h.1 in
    elim (Bool-cases (c == 0)) [
      | inl nul ↦ rw nul (tt, omega arith)
      | inr more ↦ rw more ((h.0, rest.0), omega (arith, rest.1))
    ]

choose_name-IsName :
    (env : Option Bytes) (file : Bytes) → IsName file → IsName (choose_name env file)
unfolding choose_name sanitize_name
choose_name-IsName none file h = h
choose_name-IsName (some e) file h = elim (Bool-cases (ltb maxline (length e))) [
  | inl long ↦ rw long h
  | inr fits ↦
      let (valid, len) = sanitized_whole e false in
      let (ends, short) = until_nul-AllValid false _ valid in
      rw fits (record { valid = ends; fits = ground (arith, len, fits, short) })
]

-- The name that get_chos_info works with, once its arguments are read.
abbrev pub chosen_name : Surroundings → PamChosConfig → Bytes → Bytes
chosen_name s cfg dir = choose_name s.env (file_name (opened_at s.open_file cfg.user_conf_file dir))

-- The name that get_chos_info should choose: $CHOS, and behind that the user's file.
pub data Chosen (s : Surroundings) (cfg : PamChosConfig) (dir : Bytes) : Bytes → Type 0 where
  from_variable :
      {env name : Bytes}
      → s.env ≡ some env
      → length env ≤ maxline
      → Cleans env name
      → Chosen s cfg dir name
  too_long :
      {env name : Bytes}
      → s.env ≡ some env
      → maxline < length env
      → Names (opened_at s.open_file cfg.user_conf_file dir) name
      → Chosen s cfg dir name
  unset :
      {name : Bytes}
      → s.env ≡ none
      → Names (opened_at s.open_file cfg.user_conf_file dir) name
      → Chosen s cfg dir name

Chosen-unique :
    (s : Surroundings) {cfg : PamChosConfig} {dir name : Bytes}
    → Chosen s cfg dir name
    → chosen_name s cfg dir ≡ name
unfolding choose_name sanitize_name sanitize_str
Chosen-unique s (from_variable {env} e short q) =
    let fits : ltb maxline (length env) ≡ false = ground (arith, short) in
    rw (e, fits) (Cleans-unique true q)
Chosen-unique s {cfg} {dir} (too_long {env} e long q) =
    let over : ltb maxline (length env) ≡ true = ground (arith, long) in
    rw (e, over) (sym (Names-unique (opened_at s.open_file cfg.user_conf_file dir) q))
Chosen-unique s {cfg} {dir} (unset e q) =
    rw e (sym (Names-unique (opened_at s.open_file cfg.user_conf_file dir) q))

module _ (s : Surroundings) {cfg : PamChosConfig} (args : List Bytes) (dir : Bytes)
    (parsed : parse_pam_chos_args init_pam_chos_config args ≡ some cfg)
    (closed : close_fails (opened_at s.open_file cfg.user_conf_file dir) ≡ false) where
  read :
      (count : ℕ) × (name : Bytes) × (read_chos_file s.open_file cfg.user_conf_file dir
        ≡ some (count, name))
      × (name ≡ file_name (opened_at s.open_file cfg.user_conf_file dir))
      × IsName name
  read = go (read_chos_file s.open_file cfg.user_conf_file dir) refl
    where
      go :
          (o : Option (ℕ × Bytes))
          → read_chos_file s.open_file cfg.user_conf_file dir ≡ o
          → (count : ℕ) × (name : Bytes) × (read_chos_file s.open_file cfg.user_conf_file dir
              ≡ some (count, name))
            × (name ≡ file_name (opened_at s.open_file cfg.user_conf_file dir))
            × IsName name
      go none e = absurd (
          no_close (
            subst (Reads (opened_at s.open_file cfg.user_conf_file dir)) e
              (read_chos_file-Reads s.open_file cfg.user_conf_file dir)))
        where
          no_close : close_fails (opened_at s.open_file cfg.user_conf_file dir) ≡ true → ⊥
          no_close h = cc
      go (some (count, name)) e =
          let r =
            subst (Reads (opened_at s.open_file cfg.user_conf_file dir)) e
              (read_chos_file-Reads s.open_file cfg.user_conf_file dir) in
          (count, name, e, r.1, r.2)

  get_chos_info-write :
      (get_chos_info s args dir
        ≡ write_info s (choose_os cfg s.conf (chosen_name s cfg dir)) (chosen_name s cfg dir))
      × IsName (chosen_name s cfg dir)
  unfolding get_chos_info
  get_chos_info-write =
      let (count, name, e, same, is_name) = read in
      (
        rw (parsed, get_chos_info, e)
            (ap
              (λ n. write_info s (choose_os cfg s.conf (choose_name s.env n)) (choose_name s.env n))
              same),
        choose_name-IsName s.env _ (rw same at is_name),
      )

  -- If the arguments parse, close on the user's file does not fail, fdopen and fclose succeed, and
  -- the configuration file has an entry for the name: then get_chos_info sends the path of the
  -- entry and the name, which holds only the characters of names and fits the buffers. The name is
  -- that of $CHOS, if it is set and of at most 80 bytes, up to its first newline and with '_' for
  -- every other character that names cannot have; and else the one that the user's file gives to
  -- read_chos_file.
  pub get_chos_info-entry :
      {name path : Bytes}
      → Chosen s cfg dir name
      → check_chos (maxline + 1) s.conf name ≡ some path
      → s.fdopens ≡ true
      → s.fcloses ≡ true
      → (get_chos_info s args dir ≡ sent (answer path name)) × IsName name
  get_chos_info-entry q e fd fc =
      let same = Chosen-unique s q in
      let (w, is_name) = get_chos_info-write in
      (w ∙ rw same (unfold write_info choose_os in rw (e, fd, fc) refl), subst IsName same is_name)

  -- If the arguments parse, close on the user's file does not fail, fdopen succeeds, and the
  -- configuration file has no entry for the chosen name and none for the default, which is wanted
  -- because the chosen name is the default's or fail_to_default is set: then get_chos_info calls
  -- fputs with a null pointer.
  get_chos_info-crash :
      check_chos (maxline + 1) s.conf (chosen_name s cfg dir) ≡ none
      → check_chos (maxline + 1) s.conf default_env_name ≡ none
      → (str_eq (chosen_name s cfg dir) default_env_name || ltb 0 cfg.fail_to_default) ≡ true
      → s.fdopens ≡ true
      → get_chos_info s args dir ≡ crash
  get_chos_info-crash e d to_default fd =
      get_chos_info-write.0 ∙ unfold write_info choose_os in rw (e, to_default, d, fd) refl
