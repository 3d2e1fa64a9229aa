-- ===== src/Scheduler/Members.antt =====
-- Lists of processes: what all of them satisfy, and that they differ.
use dbos.Base.{
  ℕ, ◌≤◌, ◌<◌, ◌≡◌, refl, sym, ◌∙◌, ap, ◌≢◌, ◌⊎◌, inl, inr, not, ◌||◌, List, [], ◌∷◌, ◌++◌, arith,
  ltb, ◌==◌, ==_ne, ==_refl, length, length-append, Bool-cases,
}
use dbos.Scheduler.{assign, enqueue_process, remove_process, sched_max}

abbrev pub All : (ℕ → Type 0) → List ℕ → Type 0
All P [] = Unit {0}
All P (x ∷ xs) = P x × All P xs

-- The process is not in the list.
abbrev pub Without : ℕ → List ℕ → Type 0
Without p xs = All (λ x. p ≢ x) xs

abbrev pub Distinct : List ℕ → Type 0
Distinct [] = Unit {0}
Distinct (x ∷ xs) = Without x xs × Distinct xs

pub assign_self : (f : ℕ → ℕ) (p v : ℕ) → assign f p v p ≡ v
unfolding assign
assign_self f p v = ground arith

pub assign_ne : (f : ℕ → ℕ) (p v a : ℕ) → a ≢ p → assign f p v a ≡ f a
unfolding assign
assign_ne f p v a ne = ground arith

pub assign_lists_self : (f : ℕ → List ℕ) (p : ℕ) (v : List ℕ) → assign f p v p ≡ v
unfolding assign
assign_lists_self f p v = rw (==_refl p)

pub assign_lists_ne : (f : ℕ → List ℕ) (p : ℕ) (v : List ℕ) (a : ℕ) → a ≢ p → assign f p v a ≡ f a
unfolding assign
assign_lists_ne f p v a ne = rw (==_ne a p ne)

pub All-append : (P : ℕ → Type 0) (xs ys : List ℕ) → All P xs → All P ys → All P (xs ++ ys)
All-append P [] ys h k = k
All-append P (x ∷ xs) ys h k = (h.0, All-append P xs ys h.1 k)

pub All-map : {P Q : ℕ → Type 0} (xs : List ℕ) → ((x : ℕ) → P x → Q x) → All P xs → All Q xs
All-map [] f h = tt
All-map (x ∷ xs) f h = (f x h.0, All-map xs f h.1)

pub All-both : (P Q : ℕ → Type 0) (xs : List ℕ) → All P xs → All Q xs → All (λ x. P x × Q x) xs
All-both P Q [] h k = tt
All-both P Q (x ∷ xs) h k = ((h.0, k.0), All-both P Q xs h.1 k.1)

-- Where a field has one value on a list, a process with another value is not in it.
pub Without-value :
    (f : ℕ → ℕ) (k p : ℕ) (xs : List ℕ) → f p ≢ k → All (λ x. f x ≡ k) xs → Without p xs
Without-value f k p xs ne h = All-map xs (λ x e q. ne (ap f q ∙ e)) h

-- Assigning to a process that is not in the list changes nothing on it.
pub All-assign :
    (f : ℕ → ℕ) (k p v : ℕ) (xs : List ℕ)
    → Without p xs
    → All (λ x. f x ≡ k) xs
    → All (λ x. assign f p v x ≡ k) xs
All-assign f k p v xs w h =
    All-map xs (λ x both. assign_ne f p v x (λ e. both.0 (sym e)) ∙ both.1)
      (All-both (λ x. p ≢ x) (λ x. f x ≡ k) xs w h)

pub append-Distinct : (xs : List ℕ) (p : ℕ) → Distinct xs → Without p xs → Distinct (xs ++ (p ∷ []))
append-Distinct [] p d w = (tt, tt)
append-Distinct (x ∷ xs) p d w =
    (All-append (λ y. x ≢ y) xs (p ∷ []) d.0 ((λ e. w.0 (sym e)), tt), append-Distinct xs p d.1 w.1)

-- What all of a list satisfy, all of it without a process satisfy.
pub All-remove : (P : ℕ → Type 0) (p : ℕ) (xs : List ℕ) → All P xs → All P (remove_process xs p)
unfolding remove_process
All-remove P p [] h = tt
All-remove P p (x ∷ xs) h = elim (Bool-cases (x == p)) [
  | inl t ↦ rw t (All-remove P p xs h.1)
  | inr t ↦ rw t (h.0, All-remove P p xs h.1)
]

pub Without-remove_self : (p : ℕ) (xs : List ℕ) → Without p (remove_process xs p)
unfolding remove_process
Without-remove_self p [] = tt
Without-remove_self p (x ∷ xs) = elim (Bool-cases (x == p)) [
  | inl t ↦ rw t (Without-remove_self p xs)
  | inr t ↦ rw t ((λ e. ground arith), Without-remove_self p xs)
]

pub Distinct-remove : (p : ℕ) (xs : List ℕ) → Distinct xs → Distinct (remove_process xs p)
unfolding remove_process
Distinct-remove p [] d = tt
Distinct-remove p (x ∷ xs) d = elim (Bool-cases (x == p)) [
  | inl t ↦ rw t (Distinct-remove p xs d.1)
  | inr t ↦ rw t (All-remove (λ y. x ≢ y) p xs d.0, Distinct-remove p xs d.1)
]

pub length-remove : (p : ℕ) (xs : List ℕ) → length (remove_process xs p) ≤ length xs
unfolding remove_process
length-remove p [] = omega arith
length-remove p (x ∷ xs) = elim (Bool-cases (x == p)) [
  | inl t ↦ rw t (let h = length-remove p xs in omega arith)
  | inr t ↦ rw t (let h = length-remove p xs in omega arith)
]

-- What `enqueue_process` leaves: the list, or the list with the process behind it.
pub enqueue-cases :
    (xs : List ℕ) (p : ℕ)
    → (enqueue_process xs p ≡ xs)
      ⊎ ((p ≢ 0) × (length xs < sched_max) × (enqueue_process xs p ≡ xs ++ (p ∷ [])))
unfolding enqueue_process
enqueue-cases xs p = elim (Bool-cases ((p == 0) || not (ltb (length xs) sched_max))) [
  | inl t ↦ inl (rw t refl)
  | inr t ↦ inr (ground arith, ground arith, rw t refl)
]

pub All-enqueue :
    (P : ℕ → Type 0) (p : ℕ) (xs : List ℕ) → P p → All P xs → All P (enqueue_process xs p)
All-enqueue P p xs here h = elim (enqueue-cases xs p) [
  | inl e ↦ rw e h
  | inr (_, _, e) ↦ rw e (All-append P xs (p ∷ []) h (here, tt))
]

pub Distinct-enqueue :
    (p : ℕ) (xs : List ℕ) → Without p xs → Distinct xs → Distinct (enqueue_process xs p)
Distinct-enqueue p xs w d = elim (enqueue-cases xs p) [
  | inl e ↦ rw e d
  | inr (_, _, e) ↦ rw e (append-Distinct xs p d w)
]

pub length-enqueue :
    (p : ℕ) (xs : List ℕ) → length xs ≤ sched_max → length (enqueue_process xs p) ≤ sched_max
length-enqueue p xs h = elim (enqueue-cases xs p) [
  | inl e ↦ rw e h
  | inr (_, lt, e) ↦ rw e (omega (arith, length-append {0} xs (p ∷ [])))
]
