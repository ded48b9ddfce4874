-- ===== src/Kernel/Paths/Nodes/Written.antt =====
-- A write to /proc/chos/valid on the list in memory.
use chos.Kernel.Buffer.{Ssize, Write, eperm, errno, written, text_length}
use chos.Kernel.Paths.{is_valid_path, print_valid, write_valid}
use chos.Kernel.Paths.Accepted.{is_root, reset_loop-nil}
use chos.Kernel.Paths.Nodes.{
  reset_from, Heap, add_node, done, print_nodes, search_nodes, write_nodes,
}
use chos.Kernel.Paths.Nodes.Added.{
  stored, added, Lists-stored, Lists-added, search_nodes-Lists, print_nodes-Lists,
}
use chos.Kernel.Paths.Nodes.Refines.{Lists, Reset, reset_from-Reset}
use chos.Kernel.State.{Machine, State, ValidPath, null, ok}
use chos.Prelude.{
  ◌≡◌, ◌≢◌, ◌⊎◌, ◌∙◌, inl, inr, refl, Bool-cases, true, false, ◌==◌, List, [], ◌∷◌, ◌++◌, ap, Bytes,
  none, arith,
}

-- What kmalloc gives for a write: null, or an object that is not in use.
pub record NewObjects (w : Write) (h : Heap) : Type 0 where
  pub text_new : w.text ≢ null → h.texts w.text ≡ none
  pub object_new : w.object ≢ null → h.nodes w.object ≡ none

-- A write on the list of paths, and the same write on the list in memory.
pub record Refined (m : Machine) (w : Write) (s : State) (h : Heap) (l : Lists h s.valid_paths)
    (r : Ssize) (s' : State) (h' : Heap) : Type 0 where
  pub paths : write_valid m w s ≡ ok r s'
  pub memory : write_nodes (is_root m s) w h ≡ done r h'
  pub lists : Lists h' s'.valid_paths
  pub others : s' ≡ record s { valid_paths = s'.valid_paths }
  pub refused : (is_root m s ≡ true) ⊎ ((r ≡ errno eperm) × (s' ≡ s) × (h' ≡ h))
  pub reset : (is_root m s ≡ false) ⊎ (w.buf 0 ≢ b'-') ⊎ Reset l.cells h h'
  pub searches : (p : Bytes) → search_nodes p h'.order h' ≡ done (is_valid_path s'.valid_paths p) h'
  pub prints : print_nodes h'.order h' ≡ done (print_valid s'.valid_paths) h'

module _ (m : Machine) (w : Write) (s : State) (h : Heap) (l : Lists h s.valid_paths)
    (new : NewObjects w h) where
  abbrev Result : Type 0
  Result = (r : Ssize) × (s' : State) × (h' : Heap) × Refined m w s h l r s' h'

  unchanged :
      (r : Ssize)
      → write_valid m w s ≡ ok r s
      → write_nodes (is_root m s) w h ≡ done r h
      → (is_root m s ≡ true) ⊎ (r ≡ errno eperm)
      → (is_root m s ≡ false) ⊎ (w.buf 0 ≢ b'-')
      → Result
  unchanged r run mem why dash = (
    r,
    s,
    h,
    record {
      paths = run;
      memory = mem;
      lists = l;
      others = refl;
      refused = elim why [ inl e ↦ inl e | inr e ↦ inr (e, refl, refl) ];
      reset = elim dash [ inl e ↦ inl e | inr e ↦ inr (inl e) ];
      searches = λ p. search_nodes-Lists p l;
      prints = print_nodes-Lists l;
    },
  )

  -- A caller other than root, and one for whom kmalloc gives nothing.
  by_user : is_root m s ≡ false → Result
  by_user user =
      unchanged (errno eperm) (unfold write_valid in rw user refl)
        (unfold write_nodes in rw user refl) (inr refl) (inl user)

  without_text : is_root m s ≡ true → (w.buf 0 == b'-') ≡ false → w.text ≡ null → Result
  without_text root other e =
      let no_text : (w.text == null) ≡ true = ground (arith, e) in
      unchanged (written 0) (unfold write_valid in rw (root, other, no_text) refl)
        (unfold write_nodes in rw (root, other, no_text) refl) (inl root)
        (inr (λ f. ground (arith, other, f)))

  by_dash : is_root m s ≡ true → (w.buf 0 == b'-') ≡ true → Result
  by_dash root dash =
      let (h', run, q) = reset_from-Reset h l.cells l.order l.live l.apart in
      let walked : reset_from h.order h ≡ done tt h' = ap (λ o. reset_from o h) l.order ∙ run in
      let empty : Lists h' [] = record {
        cells = [];
        order = q.order;
        live = tt;
        apart = tt;
        view = refl;
      } in
      (
        written w.count,
        record s { valid_paths = [] },
        h',
        record {
          paths =
              unfold write_valid in
              rw (root, dash)
                (ap (λ vs. ok (written w.count) (record s { valid_paths = vs }))
                  (reset_loop-nil s.valid_paths));
          memory = unfold write_nodes in rw (root, dash, walked) refl;
          lists = empty;
          others = refl;
          refused = inl root;
          reset = inr (inr q);
          searches = λ p. search_nodes-Lists p empty;
          prints = print_nodes-Lists empty;
        },
      )

  without_node :
      is_root m s ≡ true
      → (w.buf 0 == b'-') ≡ false
      → (w.text == null) ≡ false
      → (w.object == null) ≡ true
      → Result
  without_node root other text no_node =
      let l1 = Lists-stored w l (new.text_new (ground (arith, text))) in
      (
        written w.count,
        s,
        stored w h,
        record {
          paths = unfold write_valid in rw (root, other, text, no_node) refl;
          memory = unfold write_nodes add_node in rw (root, other, text, no_node) refl;
          lists = l1;
          others = refl;
          refused = inl root;
          reset = inr (inl (λ f. ground (arith, other, f)));
          searches = λ p. search_nodes-Lists p l1;
          prints = print_nodes-Lists l1;
        },
      )

  with_node :
      is_root m s ≡ true
      → (w.buf 0 == b'-') ≡ false
      → (w.text == null) ≡ false
      → (w.object == null) ≡ false
      → Result
  with_node root other text node =
      let text_ne : w.text ≢ null = ground (arith, text) in
      let node_ne : w.object ≢ null = ground (arith, node) in
      let l1 = Lists-added w l text_ne node_ne (new.text_new text_ne) (new.object_new node_ne) in
      let vs : List ValidPath =
        s.valid_paths
        ++ record { path = w.copy w.buf (text_length w); length = text_length w } ∷ [] in
      (
        written w.count,
        record s { valid_paths = vs },
        added w h,
        record {
          paths = unfold write_valid in rw (root, other, text, node) refl;
          memory = unfold write_nodes add_node in rw (root, other, text, node) refl;
          lists = l1;
          others = refl;
          refused = inl root;
          reset = inr (inl (λ f. ground (arith, other, f)));
          searches = λ p. search_nodes-Lists p l1;
          prints = print_nodes-Lists l1;
        },
      )

-- If the list of valid paths lies in memory in nodes of its own with strings of their own, all
-- allocated, and kmalloc gives a write to /proc/chos/valid null or objects that are not in use:
-- then the write ends without a fault of the memory, with the result of the write on the plain list
-- of paths, which is what the memory then holds in the same way; no other part of the state
-- changes. The write of a caller other than root gets EPERM and leaves state and memory as they
-- are; root's write that starts with '-' frees every node and string of the list and allocates
-- none. Behind the write, the search of is_valid_path and the lines of print_valid through the
-- memory end without a fault, with the results on the plain list.
pub write_valid-Refined :
    (m : Machine) (w : Write) (s : State) {h : Heap} (l : Lists h s.valid_paths)
    → NewObjects w h
    → (r : Ssize) × (s' : State) × (h' : Heap) × Refined m w s h l r s' h'
write_valid-Refined m w s {h} l new = elim (Bool-cases (is_root m s)) [
  | inr user ↦ by_user m w s h l new user
  | inl root ↦ elim (Bool-cases (w.buf 0 == b'-')) [
    | inl dash ↦ by_dash m w s h l new root dash
    | inr other ↦ elim (Bool-cases (w.text == null)) [
      | inl no_text ↦ without_text m w s h l new root other (ground (arith, no_text))
      | inr text ↦ elim (Bool-cases (w.object == null)) [
        | inl no_node ↦ without_node m w s h l new root other text no_node
        | inr node ↦ with_node m w s h l new root other text node
      ]
    ]
  ]
]
