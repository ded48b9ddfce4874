-- ===== src/Kernel/Paths/Nodes.antt =====
-- The list of valid paths as it lies in memory: kernel/chos_lkm.c, add_valid_path to is_valid_path,
-- with a node from kmalloc for each path and a string from kmalloc behind it. list_add_tail,
-- list_del and the walk along `next` are those of linux/list.h: they keep an order of the nodes.
pub mod Refines
pub mod Added
pub mod Written
use chos.Kernel.Buffer.{Ssize, Write, eperm, errno, text_length, written}
use chos.Kernel.State.{Fault, Ptr, double_free, null, null_deref, use_after_free}
use chos.Prelude.{
  ℕ, Bool, true, false, not, Option, none, some, List, [], ◌∷◌, ◌++◌, Bytes, str_eq, ◌==◌, update,
  if◌then◌else◌,
}

-- `struct valid_path`, less its place in the list.
pub record Node : Type 0 where
  pub path : Ptr
  pub length : ℕ

-- The nodes and strings that are allocated, and the order of the nodes in the list.
pub record Heap : Type 0 where
  pub nodes : Ptr → Option Node
  pub texts : Ptr → Option Bytes
  pub order : List Ptr

pub data Ran (A : Type 0) : Type 0 where
  done : A → Heap → Ran A
  oops : Fault → Ran A

abbrev pub Act : Type 0 → Type 0
Act A = Heap → Ran A

module _ {A B : Type 0} where
  abbrev pub after : Ran A → (A → Act B) → Ran B
  after (done a h) k = k a h
  after (oops f) k = oops f

  infixl 5 ◌>>=◌ ◌>>◌
  abbrev pub ◌>>=◌ : Act A → (A → Act B) → Act B
  (f >>= k) h = after (f h) k

  abbrev pub ◌>>◌ : Act A → Act B → Act B
  f >> g = f >>= λ _. g

abbrev pub pure : {A : Type 0} → A → Act A
pure = done

-- `*c`
unfoldable pub load_node : Ptr → Act Node
load_node c h =
    if c == null
    then oops null_deref
    else elim (h.nodes c) [ none ↦ oops use_after_free | some n ↦ done n h ]

-- `*c->path`
unfoldable pub load_path : Ptr → Act Bytes
load_path p h =
    if p == null
    then oops null_deref
    else elim (h.texts p) [ none ↦ oops use_after_free | some t ↦ done t h ]

abbrev pub without : Ptr → List Ptr → List Ptr
without c [] = []
without c (d ∷ ds) = if d == c then ds else d ∷ without c ds

-- `list_del(&(v->list))`
abbrev pub list_del : Ptr → Act (Unit {0})
list_del c h = done tt (record h { order = without c h.order })

-- `kfree` of a string and of a node.
unfoldable pub free_path : Ptr → Act (Unit {0})
free_path p h = if p == null then done tt h else elim (h.texts p) [
  | none ↦ oops double_free
  | some t ↦ done tt (record h { texts = update h.texts p none })
]

unfoldable pub free_node : Ptr → Act (Unit {0})
free_node c h = elim (h.nodes c) [
  | none ↦ oops double_free
  | some n ↦ done tt (record h { nodes = update h.nodes c none })
]

-- add_valid_path
unfoldable pub add_node : Ptr → Ptr → ℕ → Act (Unit {0})
add_node object path len h =
    if object == null
    then done tt h
    else done tt (record h {
      nodes = update h.nodes object (some (record { path = path; length = len }));
      order = h.order ++ object ∷ [];
    })

-- remove_valid_path
unfoldable pub remove_node : Ptr → Act (Unit {0})
unfolding load_node free_path free_node
remove_node v h =
    if v == null
    then done tt h
    else (do n ← load_node v; list_del v; free_path n.path; free_node v) h

-- The loop of resetvalid over the nodes from one on; the next one is read before the node is freed.
unfoldable pub reset_from : List Ptr → Act (Unit {0})
unfolding load_node remove_node
reset_from [] h = done tt h
reset_from (c ∷ cs) h = (do load_node c; remove_node c; reset_from cs) h

-- write_valid; `root` is the test on the user.
unfoldable pub write_nodes : Bool → Write → Act Ssize
unfolding add_node reset_from text_length
write_nodes root w h =
    if not root
    then done (errno eperm) h
    else if w.buf 0 == b'-'
    then (reset_from h.order >> pure (written w.count)) h
    else if w.text == null
    then done (written 0) h
    else (add_node w.object w.text (text_length w) >> pure (written w.count))
        (record h { texts = update h.texts w.text (some (w.copy w.buf (text_length w))) })

-- The loop of is_valid_path.
unfoldable pub search_nodes : Bytes → List Ptr → Act Bool
unfolding load_node load_path
search_nodes path [] h = done false h
search_nodes path (c ∷ cs) h =
    (do
      n ← load_node c
      t ← load_path n.path
      if str_eq path t then pure true else search_nodes path cs)
      h

-- The loop of print_valid.
unfoldable pub print_nodes : List Ptr → Act Bytes
unfolding load_node load_path
print_nodes [] h = done [] h
print_nodes (c ∷ cs) h =
    (do n ← load_node c; t ← load_path n.path; rest ← print_nodes cs; pure (t ++ b'\n' ∷ rest)) h
