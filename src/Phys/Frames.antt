-- ===== src/Phys/Frames.antt =====
-- Which frame `alloc_phys_page` of memory_phys.c hands out.
use dbos.Base.{
  ℕ, zero, suc, ◌+◌, ◌≤◌, ◌<◌, ◌≡◌, refl, sym, ap, ◌∙◌, ◌≢◌, inl, inr, false, Option, none, some,
  List, [], ◌∷◌, arith, ◌==◌, Bool-cases, Option-cases, length, get_elem?, set, length-set,
  get_elem?-set_self, get_elem?-some,
}
use native.Mathlib.Decide.{dec_lt}
use dbos.Phys.{
  FreeSlot, Phys, addr_to_index, index_to_addr, get_alloc, set_refcount, free, alloc_page,
  take_slot, file_freed, find_unused, scan_page,
}
use dbos.Phys.Addr.{IsLaidOut, addr-index}

-- No slot of `free_list` is in use.
abbrev pub AllNull : List FreeSlot → Type 0
AllNull [] = Unit {0}
AllNull (slot ∷ slots) = (slot.allocation ≡ none) × AllNull slots

-- The state between two calls: the sizes agree, the table holds a byte for each frame, and no slot
-- of `free_list` is in use.
pub record IsReady (s : Phys) : Type 0 where
  pub laid_out : IsLaidOut s
  pub counted : length s.refcounts ≡ s.pages
  pub no_slots : AllNull s.free_list

take_slot-AllNull : (slots : List FreeSlot) → AllNull slots → take_slot slots ≡ none
unfolding take_slot
take_slot-AllNull [] h = refl
take_slot-AllNull (slot ∷ slots) h = rw (h.0, take_slot-AllNull slots h.1)

pub file_freed_self : (slots : List FreeSlot) (i addr : ℕ) → file_freed slots i addr ≡ slots
unfolding file_freed
file_freed_self [] i addr = refl
file_freed_self (slot ∷ slots) i addr = ground (arith, file_freed_self slots i addr)

-- Whatever is freed, `alloc_phys_free` leaves the array `free_list` as it was: the freed frame is
-- never filed there.
pub free-free_list :
    (s : Phys) (addr : ℕ) {s' : Phys} → free s addr ≡ some s' → s'.free_list ≡ s.free_list
unfolding free
free-free_list s addr h = elim (Option-cases (get_alloc s addr)) [
  | inl e ↦ ground arith
  | inr (i, e) ↦ ground (arith, file_freed_self s.free_list i addr)
]

-- What the scan finds: the first index from `i` on with a count of 0, or none below `i + n`.
FoundAt : List ℕ → ℕ → ℕ → Option ℕ → Type 0
FoundAt xs i n none = (j : ℕ) → i ≤ j → j < i + n → get_elem? xs j ≢ some 0
FoundAt xs i n (some k) =
    (i ≤ k)
    × (k < i + n)
    × (get_elem? xs k ≡ some 0)
    × ((j : ℕ) → i ≤ j → j < k → get_elem? xs j ≢ some 0)

FoundAt-step :
    (xs : List ℕ) (n i : ℕ) (o : Option ℕ) {r : ℕ}
    → get_elem? xs i ≡ some r
    → (r == 0) ≡ false
    → FoundAt xs (i + 1) n o
    → FoundAt xs i (suc n) o
unfolding FoundAt
FoundAt-step xs n i none e miss f = λ j lo hi. elim (dec_lt i j) [
  | yes p ↦ f j (omega arith) (omega arith)
  | no p ↦ let here : j ≡ i = omega arith in rw here (ground arith)
]
FoundAt-step xs n i (some k) e miss f =
    (omega arith, omega arith, f.2, λ j lo hi. FoundAt-skip j (dec_lt i j) lo hi)
  where
    FoundAt-skip : (j : ℕ) → Dec (i < j) → i ≤ j → j < k → get_elem? xs j ≢ some 0
    FoundAt-skip j (yes p) lo hi = f.3 j (omega arith) hi
    FoundAt-skip j (no p) lo hi = let here : j ≡ i = omega arith in rw here (ground arith)

find_unused-FoundAt :
    (xs : List ℕ) (n i : ℕ)
    → i + n ≤ length xs
    → (o : Option ℕ) × (find_unused xs n i ≡ some o) × FoundAt xs i n o
unfolding find_unused FoundAt
find_unused-FoundAt xs zero i h = (none, refl, λ j lo hi. absurd (omega arith))
find_unused-FoundAt xs (suc n) i h =
    let (r, e) = get_elem?-some xs i (omega arith) in
    let (o, found, f) = find_unused-FoundAt xs n (i + 1) (omega arith) in
    elim (Bool-cases (r == 0)) [
      | inl hit ↦ (
        some i,
        ground arith,
        (omega arith, omega arith, ground arith, λ j lo hi. absurd (omega arith)),
      )
      | inr miss ↦ (o, ground arith, FoundAt-step xs n i o e miss f)
    ]

-- The outcome of `alloc_phys_page`: the frame of the lowest index whose count is 0, which becomes 1
-- with everything else unchanged; or, if no count is 0, the address 0 and the same state.
pub data Allocated (s : Phys) : ℕ × Phys → Type 0 where
  frame :
      {a : ℕ} {s' : Phys} (i : ℕ)
      → i < s.pages
      → get_elem? s.refcounts i ≡ some 0
      → ((j : ℕ) → j < i → get_elem? s.refcounts j ≢ some 0)
      → a ≡ index_to_addr s i
      → s' ≡ set_refcount s i 1
      → Allocated s (a, s')
  exhausted :
      {a : ℕ} {s' : Phys}
      → ((j : ℕ) → j < s.pages → get_elem? s.refcounts j ≢ some 0)
      → a ≡ 0
      → s' ≡ s
      → Allocated s (a, s')

scan_page-Allocated :
    (s : Phys) (o : Option ℕ)
    → find_unused s.refcounts s.pages 0 ≡ some o
    → FoundAt s.refcounts 0 s.pages o
    → (out : ℕ × Phys) × (scan_page s ≡ some out) × Allocated s out
unfolding scan_page FoundAt
scan_page-Allocated s none e f =
    ((0, s), rw (e, scan_page), exhausted (λ j h. f j (omega arith) (omega arith)) refl refl)
scan_page-Allocated s (some i) e f = (
  (index_to_addr s i, set_refcount s i 1),
  rw (e, scan_page),
  frame i (omega arith) f.2 (λ j h. f.3 j (omega arith) h) refl refl,
)

-- In a ready state `alloc_phys_page` reads only inside the table and returns an outcome as
-- `Allocated` says.
pub alloc_page-Allocated :
    {s : Phys} → IsReady s → (out : ℕ × Phys) × (alloc_page s ≡ some out) × Allocated s out
unfolding alloc_page
alloc_page-Allocated {s} v =
    let (o, e, f) = find_unused-FoundAt s.refcounts s.pages 0 (omega (arith, v.counted)) in
    rw (take_slot-AllNull s.free_list v.no_slots, alloc_page) (scan_page-Allocated s o e f)

-- Writing a count keeps a state ready.
pub set_refcount-IsReady : {s : Phys} (i r : ℕ) → IsReady s → IsReady (set_refcount s i r)
set_refcount-IsReady {s} i r v = record {
  laid_out = record {
    lower_whole = v.laid_out.lower_whole;
    lower_small = v.laid_out.lower_small;
    pages_sum = v.laid_out.pages_sum;
    upper_fits = v.laid_out.upper_fits;
  };
  counted = omega (arith, length-set s.refcounts i r, v.counted);
  no_slots = v.no_slots;
}

Allocated-IsReady : {s s' : Phys} {a : ℕ} → IsReady s → Allocated s (a, s') → IsReady s'
Allocated-IsReady v (frame i _ _ _ _ e) = rw e (set_refcount-IsReady i 1 v)
Allocated-IsReady v (exhausted _ _ e) = rw e v

-- What `alloc_phys_page` returned is an outcome as `Allocated` says.
pub Allocated-of_eq :
    {s : Phys} {out : ℕ × Phys} → IsReady s → alloc_page s ≡ some out → Allocated s out
Allocated-of_eq {s} {out} v p =
    let (out', q, al) = alloc_page-Allocated v in
    let same : out' ≡ out = ground arith in rw same at al

-- `alloc_phys_page` keeps a state ready.
pub alloc_page-IsReady :
    {s s' : Phys} {a : ℕ} → IsReady s → alloc_page s ≡ some (a, s') → IsReady s'
alloc_page-IsReady v p = Allocated-IsReady v (Allocated-of_eq v p)

index_to_addr-injective :
    {s : Phys} (i j : ℕ)
    → IsLaidOut s
    → i < s.pages
    → j < s.pages
    → index_to_addr s i ≡ index_to_addr s j
    → i ≡ j
index_to_addr-injective {s} i j v hi hj e =
    let p = (addr-index i v hi).0 in
    let q = (addr-index j v hj).0 in ground (arith, ap (addr_to_index s) e)

same_frame :
    {s : Phys} (i j : ℕ)
    → IsReady s
    → i < s.pages
    → j < s.pages
    → get_elem? (set s.refcounts i 1) j ≡ some 0
    → index_to_addr s i ≢ index_to_addr s j
same_frame {s} i j v hi hj z e =
    let here : i ≡ j = index_to_addr-injective i j v.laid_out hi hj e in
    let one = get_elem?-set_self s.refcounts i 1 (omega (arith, v.counted)) in ground arith

Allocated-twice :
    {s s' s'' : Phys} {a b : ℕ}
    → IsReady s
    → Allocated s (a, s')
    → Allocated s' (b, s'')
    → a ≢ 0
    → a ≢ b
unfolding index_to_addr
Allocated-twice v (exhausted _ e _) second nz = absurd (nz e)
Allocated-twice v (frame i _ _ _ e _) (exhausted _ e' _) nz = omega arith
Allocated-twice {s} {s'} {a} {b} v (frame i hi z _ e es) (frame j hj z' _ e' _) nz =
    λ same. same_frame i j v hi (rw es at hj) (rw es at z') (sym e ∙ same ∙ rw es at e')

-- A frame that is handed out is not handed out again by the next call: while the first answer is
-- not 0, two calls in a row return different addresses.
pub alloc_page_twice :
    {s s' s'' : Phys} {a b : ℕ}
    → IsReady s
    → alloc_page s ≡ some (a, s')
    → alloc_page s' ≡ some (b, s'')
    → a ≢ 0
    → a ≢ b
alloc_page_twice v p q nz =
    Allocated-twice v (Allocated-of_eq v p) (Allocated-of_eq (alloc_page-IsReady v p) q) nz
