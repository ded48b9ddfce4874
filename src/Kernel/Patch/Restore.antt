-- ===== src/Kernel/Patch/Restore.antt =====
-- What cleanup_do_fork leaves of an installed wrapper.
use chos.Prelude.{
  Bool, ◌-◌, ltb, inr, sym, ◌&&◌, true, subst, leb, Bool-cases, ℕ, zero, suc, ◌+◌, ◌/◌, ◌%◌, ◌≤◌,
  ◌<◌, ◌≡◌, ◌⊎◌, inl, refl, ap, ◌∙◌, arith, false, ◌==◌, update,
}
use chos.Kernel.Patch.{
  diff, is_near, matches, Memory, copy_to_jumper, page_rw, cleanup_do_fork, Target, init_do_fork,
  set_pteval, copy, store_bytes, write_jump,
}

-- The two ranges of `n` bytes have none in common.
abbrev Apart : ℕ → ℕ → ℕ → Type 0
Apart n a b = (a + n ≤ b) ⊎ (b + n ≤ a)

copy-outside :
    (n dst src : ℕ) (f : ℕ → ℕ) (a : ℕ) → (a < dst) ⊎ (dst + n ≤ a) → copy n dst src f a ≡ f a
unfolding copy
copy-outside zero dst src f a h = refl
copy-outside (suc n) dst src f a h =
    let out : (a < dst + 1) ⊎ ((dst + 1) + n ≤ a) = ground arith in
    let ne : (a == dst) ≡ false = ground arith in
    rw (copy-outside n (dst + 1) (src + 1) (update f dst (f src)) a out, ne) refl

pub copy-inside :
    (n dst src : ℕ) (f : ℕ → ℕ) (i : ℕ)
    → Apart n dst src
    → i < n
    → copy n dst src f (dst + i) ≡ f (src + i)
unfolding copy
copy-inside zero dst src f i h k = absurd (omega arith)
copy-inside (suc n) dst src f zero h k =
    copy-outside n (dst + 1) (src + 1) (update f dst (f src)) (dst + 0) (inl (omega arith))
    ∙ ground arith
copy-inside (suc n) dst src f (suc i) h k =
    let ih =
      copy-inside n (dst + 1) (src + 1) (update f dst (f src)) i (ground arith) (omega arith) in
    let there : dst + suc i ≡ (dst + 1) + i = omega arith in
    let from : (src + 1) + i ≡ src + suc i = omega arith in
    let ne : (((src + 1) + i) == dst) ≡ false = ground arith in
    ap (copy n (dst + 1) (src + 1) (update f dst (f src))) there ∙ ih ∙ (rw ne (ap f from))

store_bytes-outside :
    (n a v : ℕ) (f : ℕ → ℕ) (b : ℕ) → (b < a) ⊎ (a + n ≤ b) → store_bytes n a v f b ≡ f b
unfolding store_bytes
store_bytes-outside zero a v f b h = refl
store_bytes-outside (suc n) a v f b h =
    let out : (b < a + 1) ⊎ ((a + 1) + n ≤ b) = ground arith in
    let ne : (b == a) ≡ false = ground arith in
    rw (store_bytes-outside n (a + 1) (v / 256) (update f a (v % 256)) b out, ne) refl

write_jump-outside :
    (ptr target : ℕ) (f : ℕ → ℕ) (b : ℕ)
    → (b < ptr) ⊎ (ptr + 9 ≤ b)
    → write_jump ptr target f b ≡ f b
unfolding write_jump
write_jump-outside ptr target f b h =
    let out : (b < ptr + 1) ⊎ ((ptr + 1) + 8 ≤ b) = ground arith in
    let ne : (b == ptr) ≡ false = ground arith in
    store_bytes-outside 8 (ptr + 1) _ (update f ptr 233) b out ∙ rw ne refl

write_jump-start : (ptr target : ℕ) (f : ℕ → ℕ) → write_jump ptr target f ptr ≡ 233
unfolding write_jump
write_jump-start ptr target f =
    store_bytes-outside 8 (ptr + 1) _ (update f ptr 233) ptr (inl (omega arith)) ∙ ground arith

-- The page table entry is as it was, whether the page was writable or not.
set_pteval-back : (p : ℕ) → set_pteval p (set_pteval page_rw p) ≡ p
unfolding set_pteval
set_pteval-back p = elim (Bool-cases (p == page_rw)) [
  | inl rw_only ↦
      let e : p ≡ page_rw = ground arith in
      subst (λ q. set_pteval q (set_pteval page_rw q) ≡ q) (sym e) refl
  | inr other ↦ ground (arith, other)
]

abbrev patched : Target → (ℕ → ℕ) → ℕ → ℕ
patched c f =
    write_jump c.start c.wrapper
      (write_jump (c.jumper + c.length) (c.start + c.length) (copy_to_jumper c f))

module _ (c : Target) (f : ℕ → ℕ) (long : 9 ≤ c.length)
    (apart : (c.start + c.length ≤ c.jumper) ⊎ (c.jumper + c.length + 9 ≤ c.start)) where
  copy_to_jumper-outside :
      (a : ℕ) → (a < c.jumper) ⊎ (c.jumper + c.length ≤ a) → copy_to_jumper c f a ≡ f a
  unfolding copy_to_jumper
  copy_to_jumper-outside a h =
      copy-outside c.length c.jumper c.start (copy c.length c.jumper c.jumper_func f) a h
      ∙ copy-outside c.length c.jumper c.jumper_func f a h

  copy_to_jumper-inside :
      (i : ℕ) → i < c.length → copy_to_jumper c f (c.jumper + i) ≡ f (c.start + i)
  unfolding copy_to_jumper
  copy_to_jumper-inside i h =
      copy-inside c.length c.jumper c.start (copy c.length c.jumper c.jumper_func f) i
        (ground arith) h
      ∙ copy-outside c.length c.jumper c.jumper_func f (c.start + i) (ground arith)

  patched-outside :
      (a : ℕ)
      → (a < c.start) ⊎ (c.start + 9 ≤ a)
      → (a < c.jumper + c.length) ⊎ (c.jumper + c.length + 9 ≤ a)
      → patched c f a ≡ copy_to_jumper c f a
  patched-outside a h k =
      write_jump-outside c.start c.wrapper
        (write_jump (c.jumper + c.length) (c.start + c.length) (copy_to_jumper c f)) a h
      ∙ write_jump-outside (c.jumper + c.length) (c.start + c.length) (copy_to_jumper c f) a k

  copied_back :
      (a : ℕ)
      → (a < c.jumper) ⊎ (c.jumper + c.length + 9 ≤ a)
      → copy c.length c.start c.jumper (patched c f) a ≡ f a
  copied_back a h = elim (Bool-cases (leb c.start a && ltb a (c.start + c.length))) [
    | inl in_range ↦
        let i : ℕ = a - c.start in
        let at : a ≡ c.start + i = ground arith in
        let small : i < c.length = ground arith in
        subst (λ b. copy c.length c.start c.jumper (patched c f) b ≡ f b) (sym at)
          (copy-inside c.length c.start c.jumper (patched c f) i (ground arith) small
            ∙ patched-outside (c.jumper + i) (ground arith) (inl (omega arith))
            ∙ copy_to_jumper-inside i small)
    | inr out ↦
        copy-outside c.length c.start c.jumper (patched c f) a (ground arith)
        ∙ patched-outside a (ground arith) (ground arith)
        ∙ copy_to_jumper-outside a (ground arith)
  ]

-- If LENGTH is at least 9 and the jumper with the jump behind it does not overlap the function,
-- then after an init_do_fork that succeeded, cleanup_do_fork leaves every byte outside of the
-- jumper, and the page table entry, as they were before both.
pub cleanup_do_fork-restores :
    (c : Target) (m m' : Memory)
    → 9 ≤ c.length
    → (c.start + c.length ≤ c.jumper) ⊎ (c.jumper + c.length + 9 ≤ c.start)
    → init_do_fork c m ≡ (true, m')
    → ((a : ℕ)
        → (a < c.jumper) ⊎ (c.jumper + c.length + 9 ≤ a)
        → (cleanup_do_fork c m').bytes a ≡ m.bytes a)
      × ((cleanup_do_fork c m').pte ≡ m.pte)
unfolding init_do_fork cleanup_do_fork
cleanup_do_fork-restores c m m' long apart e =
    elim (Bool-cases (matches m.bytes c.opcode c.length c.start 0)) [
      | inr bad ↦ absurd (differs (ap (λ r. r.0) (rw bad at e)))
      | inl good ↦
          elim (Bool-cases (is_near (diff (c.start + c.length) (c.jumper + c.length + 5)))) [
            | inr far ↦ absurd (differs (ap (λ r. r.0) (rw (good, far) at e)))
            | inl near ↦
                let same = ap (λ (r : Bool × Memory). r.1) (rw (good, near) at e) in
                (
                  λ a h.
                      subst (λ (n : Memory). copy c.length c.start c.jumper n.bytes a ≡ m.bytes a)
                        same (copied_back c m.bytes long apart a h),
                  subst (λ (n : Memory). set_pteval n.pte (set_pteval page_rw n.pte) ≡ m.pte) same
                      (set_pteval-back _ ∙ set_pteval-back m.pte),
                )
          ]
    ]
  where
    differs : false ≡ true → ⊥
    differs h = cc

-- Behind an init_do_fork that succeeded the original function begins with a jump.
pub init_do_fork-jumps :
    (c : Target) (m : Memory)
    → (init_do_fork c m).0 ≡ true
    → (init_do_fork c m).1.bytes c.start ≡ 233
unfolding init_do_fork
init_do_fork-jumps c m e = elim (Bool-cases (matches m.bytes c.opcode c.length c.start 0)) [
  | inr bad ↦ absurd (cc)
  | inl good ↦ elim (Bool-cases (is_near (diff (c.start + c.length) (c.jumper + c.length + 5)))) [
    | inr far ↦ absurd (cc)
    | inl near ↦
        rw (good, near)
          (write_jump-start c.start c.wrapper
            (write_jump (c.jumper + c.length) (c.start + c.length) (copy_to_jumper c m.bytes)))
  ]
]
