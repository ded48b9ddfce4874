-- ===== src/Pam/Session/Login.antt =====
-- What a login gets.
use chos.Pam.Info.Answer.{retrieve-answer}
use chos.Kernel.Buffer.{is_line}
use chos.Pam.Sanitize.Clean.{valid_percent, AllValid}
use chos.Pam.Info.{answer, sent, get_chos_info, received, retrieve_from_child}
use chos.Pam.Args.{maxline, max_len}
use chos.Pam.Session.{
  no_fork, Passwd, forked, onerr, pam_sm_open_session, run_child, open_session, envvar, Child,
  pam_success, Calls, run_parent, finish_session,
}
use chos.Prelude.{
  not, List, Bool, true, some, none, codes, false, take, ltb, length, ◌∙◌, ◌<◌, refl, ◌&&◌, ◌≢◌,
  ◌==◌, if◌then◌else◌, All, [], length-append, zero, inr, ◌∷◌, inl, suc, ◌+◌, arith, ◌≤◌,
  Option-cases, Bytes, ℕ, ◌≡◌,
}

length-take_le : (n : ℕ) (xs : Bytes) → length (take n xs) ≤ n
length-take_le zero xs = omega arith
length-take_le (suc n) [] = omega arith
length-take_le (suc n) (x ∷ xs) = omega (arith, length-take_le n xs)

short : (osenv : Bytes) → ltb (max_len + 1) (length (envvar osenv)) ≡ false
short osenv = ground (arith, length-append (codes "CHOS=") (take 40 osenv), length-take_le 40 osenv)

finish_session-ret :
    (c : Calls) (lines : Bytes × Bytes) → (finish_session c lines).ret ≡ pam_success
unfolding finish_session
finish_session-ret c lines = ground (arith, short (received lines.1 false))

run_parent-none :
    (c : Calls) (child : Child)
    → retrieve_from_child c.fdopens c.fcloses child.pipe ≡ none
    → run_parent c child ≡ onerr
unfolding run_parent
run_parent-none c child e = rw (e, run_parent) (ground arith)

run_parent-some :
    (c : Calls) (child : Child) (lines : Bytes × Bytes)
    → retrieve_from_child c.fdopens c.fcloses child.pipe ≡ some lines
    → run_parent c child
      ≡ (if c.parent_close && child.exits_0 then finish_session c lines else onerr)
unfolding run_parent
run_parent-some c child lines e = rw (e, run_parent) (ground arith)

run_parent-ret : (c : Calls) (child : Child) → (run_parent c child).ret ≡ pam_success
run_parent-ret c child = elim (Option-cases (retrieve_from_child c.fdopens c.fcloses child.pipe)) [
  | inl e ↦ rw (run_parent-none c child e) refl
  | inr (lines, e) ↦
      rw (run_parent-some c child lines e) (ground (arith, finish_session-ret c lines))
]

open_session-parent :
    (c : Calls) (args : List Bytes) (pw : Passwd)
    → open_session c args pw ≡ (
        if pw.uid == 0
        then onerr
        else if not c.pipe
        then onerr
        else elim c.fork [ no_fork ↦ onerr | forked ↦ run_parent c (run_child c args pw) ])
unfolding open_session
open_session-parent c args pw = refl

-- pam_sm_open_session returns PAM_SUCCESS whatever fails; and for the user with uid 0 it neither
-- writes to setchos nor sets a variable.
pub pam_sm_open_session-success :
    (c : Calls) (args : List Bytes)
    → ((pam_sm_open_session c args).ret ≡ pam_success)
      × ((user : Bytes) (pw : Passwd)
          → c.user ≡ some user
          → c.passwd user ≡ some pw
          → pw.uid ≡ 0
          → pam_sm_open_session c args
            ≡ record { ret = pam_success; setchos = none; variable = none })
unfolding pam_sm_open_session
pam_sm_open_session-success c args = (
  ret,
  λ user pw eu ep e0. rw (eu, ep, pam_sm_open_session, open_session-parent c args pw, e0) refl,
)
  where
    open_ret : (pw : Passwd) → (open_session c args pw).ret ≡ pam_success
    open_ret pw =
        rw (open_session-parent c args pw) (ground (arith, run_parent-ret c (run_child c args pw)))

    ret : (pam_sm_open_session c args).ret ≡ pam_success
    ret = elim (Option-cases c.user) [
      | inl e ↦ rw (e, pam_sm_open_session) refl
      | inr (user, e) ↦ elim (Option-cases (c.passwd user)) [
        | inl e' ↦ rw (e, pam_sm_open_session, e') refl
        | inr (pw, e') ↦ rw (e, pam_sm_open_session, e') (open_ret pw)
      ]
    ]

-- Every call succeeds.
pub record AllWell (c : Calls) : Type 0 where
  pub pipe : c.pipe ≡ true
  pub fork : c.fork ≡ forked
  pub child_close : c.child_close ≡ true
  pub setgroups : c.setgroups ≡ true
  pub setresgid : c.setresgid ≡ true
  pub setresuid : c.setresuid ≡ true
  pub child_fdopens : c.surroundings.fdopens ≡ true
  pub child_fcloses : c.surroundings.fcloses ≡ true
  pub parent_close : c.parent_close ≡ true
  pub fdopens : c.fdopens ≡ true
  pub fcloses : c.fcloses ≡ true
  pub opens_setchos : c.opens_setchos ≡ true
  pub putenv : c.putenv ≡ true

-- fprintf writes a format with no '%' as it is.
abbrev pub PrintsPlain : Calls → Type 0
PrintsPlain c = (t : Bytes) → All (λ x. (x == b'%') ≡ false) t → c.printed t ≡ some t

no_percent : (is_path : Bool) (t : Bytes) → AllValid is_path t → All (λ x. (x == b'%') ≡ false) t
no_percent is_path [] h = tt
no_percent is_path (c ∷ cs) h = (valid_percent c is_path h.0, no_percent is_path cs h.1)

run_child-sent :
    (c : Calls) (args : List Bytes) (pw : Passwd) (bytes : Bytes)
    → AllWell c
    → get_chos_info c.surroundings args pw.dir ≡ sent bytes
    → run_child c args pw ≡ record { exits_0 = true; pipe = bytes }
unfolding run_child
run_child-sent c args pw bytes w e =
    rw (w.child_close, w.setgroups, w.setresgid, w.setresuid, e, run_child) refl

run_parent-well :
    (c : Calls) (bytes : Bytes) (lines : Bytes × Bytes)
    → AllWell c
    → retrieve_from_child true true bytes ≡ some lines
    → run_parent c (record { exits_0 = true; pipe = bytes }) ≡ finish_session c lines
run_parent-well c bytes lines w e =
    let child : Child = record { exits_0 = true; pipe = bytes } in
    let back : retrieve_from_child c.fdopens c.fcloses bytes ≡ some lines =
      rw (w.fdopens, w.fcloses) e in
    let open_pipe : (if c.parent_close && true then finish_session c lines else onerr)
        ≡ finish_session c lines =
      ground (arith, w.parent_close) in
    run_parent-some c child lines back ∙ open_pipe

finish_session-set :
    (c : Calls) (path name : Bytes) (lines : Bytes × Bytes)
    → AllWell c
    → PrintsPlain c
    → AllValid true path
    → received lines.0 true ≡ path
    → received lines.1 false ≡ name
    → finish_session c lines
      ≡ record { ret = pam_success; setchos = some path; variable = some (envvar name) }
unfolding finish_session
finish_session-set c path name lines w plain valid ep en =
    rw
      (
        w.opens_setchos,
        ep,
        finish_session,
        plain path (no_percent true path valid),
        en,
        short name,
        w.putenv,
      )
      refl

-- If every call succeeds, fprintf writes a format with no '%' as it is, the user is not root, and
-- the child sends a path and a name that are lines of valid characters with room in the buffers:
-- then the session writes exactly that path to setchos and sets CHOS to the first 40 bytes of the
-- name.
pub open_session-sets :
    (c : Calls) (args : List Bytes) (pw : Passwd) (path name : Bytes)
    → AllWell c
    → PrintsPlain c
    → pw.uid ≢ 0
    → get_chos_info c.surroundings args pw.dir ≡ sent (answer path name)
    → is_line path ≡ true
    → is_line name ≡ true
    → AllValid true path
    → AllValid false name
    → length path + 1 < maxline
    → length name + 1 < maxline
    → open_session c args pw
      ≡ record { ret = pam_success; setchos = some path; variable = some (envvar name) }
open_session-sets c args pw path name w plain user e lp ln vp vn hp hn =
    let (lines, read, p, n) = retrieve-answer path name lp ln vp vn hp hn in
    let uid : (pw.uid == 0) ≡ false = ground arith in
    rw
      (
        open_session-parent c args pw,
        uid,
        w.pipe,
        w.fork,
        run_child-sent c args pw (answer path name) w e,
        run_parent-well c (answer path name) lines w read,
      )
      (finish_session-set c path name lines w plain vp p n)
