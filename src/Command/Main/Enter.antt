-- ===== src/Command/Main/Enter.antt =====
-- What main of utils/chos.c leaves behind in the kernel module for the program that it starts.
use chos.Command.Main.{
  Host, main, enter, update_link, get_multi, set_multi, terminated, got, requested, differ, start,
  chos_parse_args, max_os,
}
use chos.Command.Main.Again.{Kept, reads, reads_again}
use chos.Text.{until_nul}
use chos.Kernel.Proc.{Services, link_readlink, write_setchos, slash}
use chos.Kernel.Proc.Assign.{Request, path_of, same-Inv}
use chos.Kernel.Proc.Readlink.{Target, link_readlink-Found}
use chos.Kernel.Proc.Setchos.{write_setchos-Switched}
use chos.Kernel.Paths.{is_valid_path}
use chos.Kernel.Buffer.{Write}
use chos.Kernel.Links.Inv.{Frame, Inv, text_of}
use chos.Kernel.Links.Way.{at_entry, Lineage, Distinct, is_top}
use chos.Kernel.Links.Resolve.{Found}
use chos.Kernel.State.{State, Machine, Ptr, null, ok, pure, ◌>>◌}
use chos.Kernel.State.Returns.{Returns, returns}
use chos.Kernel.State.Returns
use chos.Prelude.{
  ℕ, zero, suc, true, false, Option, some, none, List, [], ◌∷◌, Bytes, length, take, codes, str_eq,
  ◌||◌, ◌==◌, ◌≡◌, ◌<◌, refl, arith, Bool-cases, inl, inr, eq_of_str_eq, ap, sym,
}

-- The steps up to the link: no option is given, the variable CHOS asks for `os`, and the user is
-- known.
pub record Asks (h : Host) (argv : List Bytes) (shell os : Bytes) : Type 0 where
  pub osenv : Bytes
  pub parsed : chos_parse_args h argv ≡ none
  pub variable : h.shell.getenv (codes "CHOS") ≡ some osenv
  pub chosen : requested h osenv ≡ some os
  pub user : h.pw_shell ≡ some shell

-- The files are those of the module, for the task that runs main; the stream writes `os` by the
-- one write `w`, for which kmalloc finds new objects; setuid leaves the links alone.
pub record Served (h : Host) (k : Services) (m : Machine) (fuel : ℕ) (w : Write) (os : Bytes)
    (s : State) : Type 0 where
  pub readlink :
      (n : ℕ) (s1 : State) → h.readlink n s1 ≡ link_readlink (λ t. some (take n t)) m fuel s1
  pub opens : h.opens_setchos ≡ true
  pub printed : h.printed os ≡ some os
  pub close : (s1 : State) → h.close_setchos os s1 ≡ (write_setchos k m w >> pure tt) s1
  pub path : path_of w ≡ os
  pub request : (r : Option Bytes) (s1 : State) → h.readlink max_os s ≡ ok r s1 → Request m w s1
  pub setuid : (s1 : State) → Returns (λ _ s2. Kept s1 s2) (h.setuid s1)

-- A string that fits in the array with its terminator.
pub record Fits (t : Bytes) : Type 0 where
  pub some_bytes : 0 < length t
  pub short : length t < max_os
  pub string : until_nul t ≡ t

abbrev pub AllFit : State → Type 0
AllFit s = (a : Ptr) (t : Bytes) → text_of s a ≡ some t → Fits t

take_all : (n : ℕ) (xs : Bytes) → length xs < n → take n xs ≡ xs
take_all zero xs h = absurd (omega (arith, h))
take_all (suc n) [] h = refl
take_all (suc n) (x ∷ xs) h = ap (◌∷◌ x) (take_all n xs (omega (arith, h)))

main-enter :
    (h : Host) (argv : List Bytes) (shell os : Bytes) (s : State)
    → Asks h argv shell os
    → main h argv s ≡ enter h (some os) shell argv s
unfolding main
main-enter h argv shell os s q = ground (arith, q.parsed, q.variable, q.user, q.chosen)

terminated-got : (t : Bytes) → Fits t → terminated (some (take max_os t)) ≡ got t
unfolding terminated
terminated-got t f =
    rw (take_all max_os t f.short) (ground (arith, f.string, f.some_bytes, f.short))

agree : (t os : Bytes) → Fits t → length os < max_os → differ t os ≡ false → t ≡ os
agree t os f h e =
    eq_of_str_eq t os (ground (arith, e, take_all max_os t f.short, take_all max_os os h))

Target-Fits : (s : State) (a : Ptr) {t : Bytes} → AllFit s → Target s a t → Fits t
Target-Fits s a {t} all target = elim (Bool-cases (a == null)) [
  | inl is_null ↦
      let e : t ≡ slash = ground arith in
      rw e (record { some_bytes = omega arith; short = omega arith; string = refl })
  | inr is_link ↦ all a t (ground arith)
]

module _ {R : Type 0} (vfs_readlink : Bytes → R) {h : Host} {k : Services} {m : Machine} {fuel : ℕ}
    {w : Write} {os : Bytes} {s : State} {ps : List ℕ} (v : Inv null s) (d : Distinct m)
    (line : Lineage m s.pid_max m.current ps) (enough : length ps < fuel)
    (served : Served h k m fuel w os s) where
  -- The next read gives `os`, whatever setuid does before.
  abbrev Agrees : State → Type 0
  Agrees s1 =
      (s2 : State)
      → Kept s1 s2
      → Returns (λ r s'. r ≡ vfs_readlink os) (link_readlink vfs_readlink m fuel s2)

  abbrev Read : Ptr → Bytes → State → Type 0
  Read a t s1 = Inv null s1 × Found m m.current ps a s s1 × Target s a t

  get_multi-got :
      AllFit s
      → Returns
          (λ g s1. (a : Ptr) × (t : Bytes) × (g ≡ got t) × Fits t × Request m w s1 × Read a t s1)
          (get_multi h s)
  unfolding get_multi
  get_multi-got fit =
      let (r, s1, e, (v1, (a, t, found, target, er))) =
        Returns.run (link_readlink-Found (λ t. some (take max_os t)) m fuel v line enough) in
      let el : h.readlink max_os s ≡ ok r s1 = ground (arith, served.readlink max_os s, e) in
      let ft = Target-Fits s a fit target in
      let req = served.request r s1 el in
      rw (el, er) (returns (a, t, terminated-got t ft, ft, req, (v1, found, target)))

  -- The write, when the link is another one.
  set_multi-Agrees :
      {s1 : State}
      → is_top m m.current ≡ false
      → (str_eq os slash || is_valid_path s.valid_paths os) ≡ true
      → Request m w s1
      → Inv null s1
      → Frame s s1
      → Returns (λ done s'. (done ≡ true) × Agrees s') (set_multi h os s1)
  unfolding set_multi
  set_multi-Agrees {s1} low listed q v1 frame =
      let accepted : (str_eq (path_of w) slash || is_valid_path s1.valid_paths (path_of w)) ≡ true =
        rw (served.path, frame.valid_paths) listed in
      let (r, s', e, (er, z)) = Returns.run (write_setchos-Switched k v1 q accepted) in
      let own = z.chosen.own in
      rw (served.opens, served.printed, served.close s1, e)
        (returns (
          refl,
          λ s2 kept.
              reads vfs_readlink fuel {a = w.object}
                (same-Inv z.inv kept.pid_max kept.procs kept.links kept.texts)
                (rw (kept.pid_max, z.pid_max, frame.pid_max) line) enough
                (at_entry low (ground (arith, own, kept.procs, q.object_ne))
                  (ground (arith, own, kept.procs)))
                λ t e.
                  ground (arith, z.chosen.target, served.path, kept.links, kept.texts, q.object_ne),
        ))

  update_link-Agrees :
      is_top m m.current ≡ false
      → (str_eq os slash || is_valid_path s.valid_paths os) ≡ true
      → length os < max_os
      → AllFit s
      → Returns (λ stop s'. (stop ≡ none) × Agrees s') (update_link h (some os) s)
  unfolding update_link
  update_link-Agrees low listed short fit =
      Returns.bind (get_multi-got fit) λ g s1 (a, t, eg, ft, q, (v1, found, target)).
        elim (Bool-cases (differ t os)) [
          | inl other ↦
              rw (eg, other)
                (Returns.bind (set_multi-Agrees low listed q v1 found.frame)
                  λ done s' (ed, agrees). rw ed (returns (refl, agrees)))
          | inr same ↦
              rw (eg, same)
                (returns (
                  refl,
                  λ s2 kept.
                      rw (sym (agree t os ft short same))
                        (reads_again vfs_readlink fuel d line enough v1 found target kept),
                ))
        ]

  enter-Agrees :
      (argv : List Bytes) (shell : Bytes)
      → is_top m m.current ≡ false
      → (str_eq os slash || is_valid_path s.valid_paths os) ≡ true
      → length os < max_os
      → AllFit s
      → Returns
          (λ exit s'.
            (exit ≡ start h shell argv)
            × Returns (λ r s2. r ≡ vfs_readlink os) (link_readlink vfs_readlink m fuel s'))
          (enter h (some os) shell argv s)
  unfolding enter
  enter-Agrees argv shell low listed short fit =
      Returns.bind (update_link-Agrees low listed short fit) λ stop s1 (es, agrees).
        rw es (Returns.bind (served.setuid s1) λ u s2 kept. returns (refl, agrees s2 kept))

-- In a state that satisfies the invariant and in which every text fits the array of main, no two
-- tasks have one pid, and the caller is not process 0 or 1 and has a way up that is in range and
-- free of repetitions, with enough fuel for it: if the environment that CHOS asks for has a path
-- that is "/" or on the list of valid ones and fits the array, and the files under /proc/chos are
-- those of the module as `Served` describes them, then main ends with no fault of the module in
-- what `start` gives, which is the call of the program that the arguments name or, with none, the
-- branch of the login shell, and the next read of /proc/chos/link by the same process gives just
-- that path, whether main had to write it or found it there.
pub main-reads :
    {R : Type 0} (vfs_readlink : Bytes → R) {h : Host} {k : Services} {m : Machine} {fuel : ℕ}
    {w : Write} {os : Bytes} {s : State} {ps : List ℕ} (argv : List Bytes) (shell : Bytes)
    → Inv null s
    → Distinct m
    → Lineage m s.pid_max m.current ps
    → length ps < fuel
    → is_top m m.current ≡ false
    → AllFit s
    → Served h k m fuel w os s
    → Asks h argv shell os
    → length os < max_os
    → (str_eq os slash || is_valid_path s.valid_paths os) ≡ true
    → Returns
        (λ exit s'.
          (exit ≡ start h shell argv)
          × Returns (λ r s2. r ≡ vfs_readlink os) (link_readlink vfs_readlink m fuel s'))
        (main h argv s)
main-reads vfs_readlink {h} {os} {s} argv shell v d line enough low fit served asks short listed =
    rw (main-enter h argv shell os s asks)
      (enter-Agrees vfs_readlink v d line enough served argv shell low listed short fit)
