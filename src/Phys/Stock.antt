-- ===== src/Phys/Stock.antt =====
-- How many frames of memory_phys.c are left.
use dbos.Base.{
  ℕ, zero, suc, ◌≤◌, ◌<◌, ◌≡◌, ◌≢◌, refl, sym, ap, ◌∙◌, true, inl, inr, some, List, [], ◌∷◌, arith,
  ◌==◌, Bool-cases, if◌then◌else◌, length, get_elem?, set, get_elem?-set_ne,
}
use dbos.Phys.{Phys, index_to_addr, set_refcount, alloc_page}
use dbos.Phys.Frames.{IsReady, Allocated, alloc_page-Allocated, alloc_page-IsReady}

-- The frames whose count is 0.
abbrev pub unused : List ℕ → ℕ
unused [] = 0
unused (r ∷ rs) = let rest = unused rs in if r == 0 then suc rest else rest

unused-none : (rs : List ℕ) → ((j : ℕ) → j < length rs → get_elem? rs j ≢ some 0) → unused rs ≡ 0
unused-none [] h = refl
unused-none (r ∷ rs) h =
    let rest = unused-none rs (λ j l. h (suc j) (omega arith)) in
    elim (Bool-cases (r == 0)) [
      | inl free_one ↦ let z : r ≡ 0 = ground arith in absurd (h 0 (omega arith) (ap some z))
      | inr taken_one ↦ rw taken_one rest
    ]

unused-set : (rs : List ℕ) (i : ℕ) → get_elem? rs i ≡ some 0 → suc (unused (set rs i 1)) ≡ unused rs
unused-set [] i e = absurd (ground arith)
unused-set (r ∷ rs) zero e = let z : (r == 0) ≡ true = ground arith in rw z refl
unused-set (r ∷ rs) (suc i) e =
    let rest = unused-set rs i e in
    elim (Bool-cases (r == 0)) [ inl x ↦ rw x (ap suc rest) | inr x ↦ rw x rest ]

-- At least `n` frames are left, and the frame at the address 0, which would be taken for a failure, is
-- not one of them.
pub record Stock (n : ℕ) (s : Phys) : Type 0 where
  pub ready : IsReady s
  pub zero_used : get_elem? s.refcounts 0 ≢ some 0
  pub enough : n ≤ unused s.refcounts

pub Stock-fewer : {s : Phys} (m n : ℕ) → m ≤ n → Stock n s → Stock m s
Stock-fewer m n le v = record {
  ready = v.ready;
  zero_used = v.zero_used;
  enough = omega (arith, v.enough);
}

index_to_addr_ne : (s : Phys) (i : ℕ) → IsReady s → i < s.pages → i ≢ 0 → index_to_addr s i ≢ 0
unfolding index_to_addr
index_to_addr_ne s i v h ne = ground (arith, v.laid_out.lower_small, v.laid_out.upper_fits)

Allocated-Stock :
    (n : ℕ) {s s' : Phys} {a : ℕ}
    → Stock (suc n) s
    → IsReady s'
    → Allocated s (a, s')
    → (a ≢ 0) × Stock n s'
unfolding set_refcount
Allocated-Stock n {s} {s'} {a} v r (Allocated.exhausted none_left ea es) = absurd (
    omega (
      arith,
      v.enough,
      unused-none s.refcounts (λ j l. none_left j (omega (arith, v.ready.counted))),
    ))
Allocated-Stock n {s} {s'} {a} v r (Allocated.frame i hi z first ea es) =
    let ne : i ≢ 0 = λ e. v.zero_used (sym (ap (get_elem? s.refcounts) e) ∙ z) in
    (
      λ e. index_to_addr_ne s i v.ready hi ne (sym ea ∙ e),
      record {
        ready = r;
        zero_used = λ e. v.zero_used (
            sym (get_elem?-set_ne s.refcounts i 0 1 ne)
            ∙ ap (λ (t : Phys). get_elem? t.refcounts 0) (sym es)
            ∙ e);
        enough =
            omega (
              arith,
              v.enough,
              unused-set s.refcounts i z,
              ap (λ (t : Phys). unused t.refcounts) es,
            );
      },
    )

-- While a frame is left, `alloc_phys_page` returns one, and there is at most one less.
pub alloc_page-Stock :
    (n : ℕ) {s : Phys}
    → Stock (suc n) s
    → (a : ℕ) × (s' : Phys) × (alloc_page s ≡ some (a, s')) × (a ≢ 0) × Stock n s'
alloc_page-Stock n {s} v =
    let ((a, s'), run, al) = alloc_page-Allocated v.ready in
    let (ne, v') = Allocated-Stock n v (alloc_page-IsReady v.ready run) al in (a, s', run, ne, v')
