-- ===== src/Tests/Nodes.antt =====
-- The list of valid paths in memory, on the state of Tests/World.antt.
use chos.Kernel.Buffer.{Ssize}
use chos.Kernel.Paths.Nodes.{Heap, oops, reset_from}
use chos.Kernel.Paths.Nodes.Refines.{Cell, Lists}
use chos.Kernel.Paths.Nodes.Written.{NewObjects, Refined, write_valid-Refined}
use chos.Kernel.State.{Machine, State, use_after_free}
use chos.Prelude.{◌≡◌, ◌∷◌, [], arith, codes, none, refl, some, update}
use chos.Tests.World.{choose_b, machine, state0}

abbrev cell_a : Cell
cell_a = record { node = 81; text = 91; path = codes "/os/a"; length = 5 }

abbrev cell_b : Cell
cell_b = record { node = 82; text = 92; path = codes "/os/b"; length = 5 }

abbrev memory : Heap
memory = record {
  nodes =
      update (update (λ p. none) 81 (some (record { path = 91; length = 5 }))) 82
        (some (record { path = 92; length = 5 }));
  texts = update (update (λ p. none) 91 (some (codes "/os/a"))) 92 (some (codes "/os/b"));
  order = 81 ∷ 82 ∷ [];
}

memory-Lists : Lists memory state0.valid_paths
memory-Lists = record {
  cells = cell_a ∷ cell_b ∷ [];
  order = refl;
  live = (
    record {
      node_ne = λ e. omega (arith, e);
      node_there = refl;
      text_ne = λ e. omega (arith, e);
      text_there = refl;
    },
    (
      record {
        node_ne = λ e. omega (arith, e);
        node_there = refl;
        text_ne = λ e. omega (arith, e);
        text_there = refl;
      },
      tt,
    ),
  );
  apart = ((record { nodes = λ e. omega (arith, e); texts = λ e. omega (arith, e) }, tt), (tt, tt));
  view = refl;
}

abbrev by_root : Machine
by_root = record machine { current = 1 }

choose_b-NewObjects : NewObjects choose_b memory
choose_b-NewObjects = record { text_new = λ ne. refl; object_new = λ ne. refl }

-- A node that is freed twice.
freed_twice : reset_from (81 ∷ 81 ∷ []) memory ≡ oops use_after_free
unfolding reset_from
freed_twice = refl

write_valid-Refined_example :
    (r : Ssize) × (s' : State) × (h' : Heap) × Refined by_root choose_b state0 memory memory-Lists r
      s' h'
write_valid-Refined_example =
    write_valid-Refined by_root choose_b state0 memory-Lists choose_b-NewObjects
