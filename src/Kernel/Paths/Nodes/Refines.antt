-- ===== src/Kernel/Paths/Nodes/Refines.antt =====
-- The list in memory beside the list of paths of Kernel/Paths.antt.
use chos.Kernel.Paths.{true, is_valid_path, print_valid}
use chos.Kernel.Paths.Nodes.{
  Heap, done, load_node, print_nodes, remove_node, reset_from, search_nodes,
}
use chos.Kernel.State.{Ptr, ValidPath, null}
use chos.Prelude.{
  inr, inl, true, ◌∙◌, Bool-cases, ℕ, ◌≡◌, ◌≢◌, refl, List, [], ◌∷◌, map, All, Bytes, str_eq, none,
  some, update, arith, if◌then◌else◌,
}

-- A node with its string.
pub record Cell : Type 0 where
  pub node : Ptr
  pub text : Ptr
  pub path : Bytes
  pub length : ℕ

abbrev pub shown : Cell → ValidPath
shown c = record { path = c.path; length = c.length }

abbrev pub node_of : Cell → Ptr
node_of c = c.node

pub record Live (h : Heap) (c : Cell) : Type 0 where
  pub node_ne : c.node ≢ null
  pub node_there : h.nodes c.node ≡ some (record { path = c.text; length = c.length })
  pub text_ne : c.text ≢ null
  pub text_there : h.texts c.text ≡ some c.path

pub record Differ (c d : Cell) : Type 0 where
  pub nodes : c.node ≢ d.node
  pub texts : c.text ≢ d.text

abbrev pub Apart : List Cell → Type 0
Apart [] = Unit
Apart (c ∷ cs) = All (Differ c) cs × Apart cs

-- The list in memory holds the paths `vs`: each in a node of its own with a string of its own, both
-- allocated.
pub record Lists (h : Heap) (vs : List ValidPath) : Type 0 where
  pub cells : List Cell
  pub order : h.order ≡ map node_of cells
  pub live : All (Live h) cells
  pub apart : Apart cells
  pub view : vs ≡ map shown cells

pub All-both :
    {A : Type 0} {P Q R : A → Type 0} (xs : List A)
    → All P xs
    → All Q xs
    → ((x : A) → P x → Q x → R x)
    → All R xs
All-both [] p q f = tt
All-both (x ∷ xs) p q f = (f x p.0 q.0, All-both xs p.1 q.1 f)

search_nodes-step :
    (h : Heap) (path : Bytes) (c : Cell) (cs : List Ptr)
    → Live h c
    → search_nodes path (c.node ∷ cs) h
      ≡ (if str_eq path c.path then done true h else search_nodes path cs h)
unfolding search_nodes
search_nodes-step h path c cs l = ground (arith, l.node_ne, l.node_there, l.text_ne, l.text_there)

pub search_nodes-cells :
    (h : Heap) (path : Bytes) (cs : List Cell)
    → All (Live h) cs
    → search_nodes path (map node_of cs) h ≡ done (is_valid_path (map shown cs) path) h
unfolding is_valid_path
search_nodes-cells h path [] l = unfold search_nodes in refl
search_nodes-cells h path (c ∷ cs) l =
    rw (search_nodes-step h path c (map node_of cs) l.0, search_nodes-cells h path cs l.1)
      (elim (Bool-cases (str_eq path c.path)) [
        | inl same ↦ rw same refl
        | inr other ↦ rw other refl
      ])

pub print_nodes-cells :
    (h : Heap) (cs : List Cell)
    → All (Live h) cs
    → print_nodes (map node_of cs) h ≡ done (print_valid (map shown cs)) h
unfolding print_nodes print_valid
print_nodes-cells h [] l = refl
print_nodes-cells h (c ∷ cs) l =
    ground
      (arith, l.0.node_ne, l.0.node_there, l.0.text_ne, l.0.text_there, print_nodes-cells h cs l.1)

-- Without the cell `c`, the first of the list.
abbrev freed : Cell → List Ptr → Heap → Heap
freed c order h = record h {
  nodes = update h.nodes c.node none;
  texts = update h.texts c.text none;
  order = order;
}

remove_node-freed :
    (h : Heap) (c : Cell) (order : List Ptr)
    → Live h c
    → h.order ≡ c.node ∷ order
    → remove_node c.node h ≡ done tt (freed c order h)
unfolding remove_node
remove_node-freed h c order l e =
    ground (arith, l.node_ne, l.node_there, l.text_ne, l.text_there, e)

-- The heap behind the loop of resetvalid.
pub record Reset (cs : List Cell) (h h' : Heap) : Type 0 where
  pub order : h'.order ≡ []
  pub freed_all : All (λ (c : Cell). (h'.nodes c.node ≡ none) × (h'.texts c.text ≡ none)) cs
  pub no_node : (p : Ptr) → h.nodes p ≡ none → h'.nodes p ≡ none
  pub no_text : (p : Ptr) → h.texts p ≡ none → h'.texts p ≡ none

reset_from-step :
    (h h1 : Heap) (c : Cell) (cs : List Ptr)
    → Live h c
    → remove_node c.node h ≡ done tt h1
    → reset_from (c.node ∷ cs) h ≡ reset_from cs h1
unfolding reset_from load_node
reset_from-step h h1 c cs l e = ground (arith, l.node_ne, l.node_there, e)

pub reset_from-Reset :
    (h : Heap) (cs : List Cell)
    → h.order ≡ map node_of cs
    → All (Live h) cs
    → Apart cs
    → (h' : Heap) × (reset_from (map node_of cs) h ≡ done tt h') × Reset cs h h'
reset_from-Reset h [] e l a = (
  h,
  unfold reset_from in refl,
  record { order = e; freed_all = tt; no_node = λ p n. n; no_text = λ p n. n },
)
reset_from-Reset h (c ∷ cs) e l a =
    let h1 : Heap = freed c (map node_of cs) h in
    let still = All-both {R = Live h1} cs l.1 a.0 λ d m f. record {
      node_ne = m.node_ne;
      node_there = ground (arith, f.nodes, m.node_there);
      text_ne = m.text_ne;
      text_there = ground (arith, f.texts, m.text_there);
    } in
    let (h', run, q) = reset_from-Reset h1 cs refl still a.1 in
    (
      h',
      reset_from-step h h1 c (map node_of cs) l.0 (remove_node-freed h c (map node_of cs) l.0 e)
          ∙ run,
      record {
        order = q.order;
        freed_all =
            ((q.no_node c.node (ground arith), q.no_text c.text (ground arith)), q.freed_all);
        no_node = λ p n. q.no_node p (ground (arith, n));
        no_text = λ p n. q.no_text p (ground (arith, n));
      },
    )
