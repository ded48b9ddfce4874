-- ===== src/Kernel/Paths/Nodes/Added.antt =====
-- The list in memory with a string or a node more.
use chos.Kernel.Buffer.{Write, text_length}
use chos.Kernel.Paths.{is_valid_path, print_valid}
use chos.Kernel.Paths.Nodes.{Heap, done, print_nodes, search_nodes}
use chos.Kernel.Paths.Nodes.Refines.{
  Apart, Cell, Differ, Lists, Live, node_of, print_nodes-cells, search_nodes-cells, shown,
}
use chos.Kernel.State.{ValidPath, null}
use chos.Prelude.{
  ◌≡◌, ◌≢◌, ◌∙◌, sym, refl, List, [], ◌∷◌, ◌++◌, map, ap, All, All-append, Bytes, none, some,
  update, arith,
}

pub search_nodes-Lists :
    {h : Heap} {vs : List ValidPath} (p : Bytes)
    → Lists h vs
    → search_nodes p h.order h ≡ done (is_valid_path vs p) h
search_nodes-Lists {h} p l =
    ap (λ o. search_nodes p o h) l.order
    ∙ search_nodes-cells h p l.cells l.live
    ∙ ap (λ v. done (is_valid_path v p) h) (sym l.view)

pub print_nodes-Lists :
    {h : Heap} {vs : List ValidPath} → Lists h vs → print_nodes h.order h ≡ done (print_valid vs) h
print_nodes-Lists {h} l =
    ap (λ o. print_nodes o h) l.order
    ∙ print_nodes-cells h l.cells l.live
    ∙ ap (λ v. done (print_valid v) h) (sym l.view)

-- The string of a new path.
abbrev pub stored : Write → Heap → Heap
stored w h = record h { texts = update h.texts w.text (some (w.copy w.buf (text_length w))) }

-- Its cell.
abbrev new_cell : Write → Cell
new_cell w = record {
  node = w.object;
  text = w.text;
  path = w.copy w.buf (text_length w);
  length = text_length w;
}

abbrev pub added : Write → Heap → Heap
added w h = record (stored w h) {
  nodes = update h.nodes w.object (some (record { path = w.text; length = text_length w }));
  order = h.order ++ w.object ∷ [];
}

Live-stored :
    (w : Write) (h : Heap) (c : Cell) → h.texts w.text ≡ none → Live h c → Live (stored w h) c
Live-stored w h c new l = record {
  node_ne = l.node_ne;
  node_there = l.node_there;
  text_ne = l.text_ne;
  text_there = ground (arith, new, l.text_there);
}

Live-added :
    (w : Write) (h : Heap) (c : Cell)
    → h.texts w.text ≡ none
    → h.nodes w.object ≡ none
    → Live h c
    → Live (added w h) c
Live-added w h c new_text new_node l = record {
  node_ne = l.node_ne;
  node_there = ground (arith, new_node, l.node_there);
  text_ne = l.text_ne;
  text_there = ground (arith, new_text, l.text_there);
}

Live-Differ :
    (w : Write) (h : Heap) (c : Cell)
    → h.texts w.text ≡ none
    → h.nodes w.object ≡ none
    → Live h c
    → Differ c (new_cell w)
Live-Differ w h c new_text new_node l = record {
  nodes = λ e. ground (arith, e, new_node, l.node_there);
  texts = λ e. ground (arith, e, new_text, l.text_there);
}

All-map :
    {A : Type 0} {P Q : A → Type 0} (xs : List A) → All P xs → ((x : A) → P x → Q x) → All Q xs
All-map [] p f = tt
All-map (x ∷ xs) p f = (f x p.0, All-map xs p.1 f)

Apart-append :
    (cs : List Cell) (d : Cell) → Apart cs → All (λ c. Differ c d) cs → Apart (cs ++ d ∷ [])
Apart-append [] d a e = (tt, tt)
Apart-append (c ∷ cs) d a e =
    (All-append (Differ c) cs (d ∷ []) a.0 (e.0, tt), Apart-append cs d a.1 e.1)

map-append :
    {A B : Type 0} (f : A → B) (xs : List A) (y : A) → map f (xs ++ y ∷ []) ≡ map f xs ++ f y ∷ []
map-append f [] y = refl
map-append f (x ∷ xs) y = ap (◌∷◌ (f x)) (map-append f xs y)

module _ (w : Write) {h : Heap} {vs : List ValidPath} (l : Lists h vs) where
  pub Lists-stored : h.texts w.text ≡ none → Lists (stored w h) vs
  Lists-stored new = record {
    cells = l.cells;
    order = l.order;
    live = All-map l.cells l.live λ c. Live-stored w h c new;
    apart = l.apart;
    view = l.view;
  }

  pub Lists-added :
      w.text ≢ null
      → w.object ≢ null
      → h.texts w.text ≡ none
      → h.nodes w.object ≡ none
      → Lists
          (added w h)
          (vs ++ record { path = w.copy w.buf (text_length w); length = text_length w } ∷ [])
  Lists-added text object new_text new_node = record {
    cells = l.cells ++ new_cell w ∷ [];
    order = rw (l.order, map-append node_of l.cells (new_cell w)) refl;
    live =
        All-append (Live (added w h)) l.cells (new_cell w ∷ [])
          (All-map l.cells l.live λ c. Live-added w h c new_text new_node)
          (
            record {
              node_ne = object;
              node_there = ground arith;
              text_ne = text;
              text_there = ground arith;
            },
            tt,
          );
    apart =
        Apart-append l.cells (new_cell w) l.apart
          (All-map l.cells l.live λ c. Live-Differ w h c new_text new_node);
    view = rw (l.view, map-append shown l.cells (new_cell w)) refl;
  }
