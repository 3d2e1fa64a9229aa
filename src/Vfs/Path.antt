-- ===== src/Vfs/Path.antt =====
-- Paths of segments, and what the loops of kernel/vfs/vfs.c read from them.
use dbos.Base.{
  ℕ, ◌≡◌, ◌≢◌, refl, sym, ap, ap₂, ◌∙◌, inl, inr, true, false, List, [], ◌∷◌, ◌++◌, arith, ◌==◌,
  ==_ne, ==_refl, ==_iff, length, Bool-cases,
}
use dbos.Vfs.{Name, same, parse_path, first_string, next_string, behind_slash}

pub same_refl : (s : Name) → same s s ≡ true
unfolding same
same_refl [] = refl
same_refl (x ∷ s) = rw (==_refl x, same_refl s) refl

pub same_eq : (s t : Name) → same s t ≡ true → s ≡ t
unfolding same
same_eq [] [] e = refl
same_eq [] (y ∷ t) e = absurd (grind arith)
same_eq (x ∷ s) [] e = absurd (grind arith)
same_eq (x ∷ s) (y ∷ t) e = elim (Bool-cases (x == y)) [
  | inl xy ↦ ap₂ (λ c u. c ∷ u) ((==_iff x y).0 xy) (same_eq s t (sym (rw xy refl) ∙ e))
  | inr other ↦ absurd (grind arith)
]

pub same_ne : (s t : Name) → s ≢ t → same s t ≡ false
same_ne s t ne = elim (Bool-cases (same s t)) [ inl e ↦ absurd (ne (same_eq s t e)) | inr e ↦ e ]

-- A segment holds no slash and no zero byte.
abbrev pub IsSegment : Name → Type 0
IsSegment [] = Unit {0}
IsSegment (c ∷ s) = (c ≢ 0) × (c ≢ 47) × IsSegment s

abbrev pub AreSegments : List Name → Type 0
AreSegments [] = Unit {0}
AreSegments (s ∷ ss) = IsSegment s × AreSegments ss

-- The path of the segments, and the same with a zero byte for each slash.
abbrev pub path_of : List Name → Name
path_of [] = []
path_of (s ∷ ss) = 47 ∷ (s ++ path_of ss)

abbrev pub cut_path : List Name → Name
cut_path [] = []
cut_path (s ∷ ss) = 0 ∷ (s ++ cut_path ss)

parse_path-segment :
    (s p q : Name) (n : ℕ) → IsSegment s → parse_path p ≡ (n, q) → parse_path (s ++ p) ≡ (n, s ++ q)
unfolding parse_path
parse_path-segment [] p q n i e = e
parse_path-segment (c ∷ s) p q n i e =
    rw (parse_path-segment s p q n i.2 e, ==_ne c 47 i.1, parse_path) refl

pub parse_path-path_of :
    (ss : List Name) → AreSegments ss → parse_path (path_of ss) ≡ (length ss, cut_path ss)
unfolding parse_path
parse_path-path_of [] i = refl
parse_path-path_of (s ∷ ss) i =
    rw
      (
        parse_path-segment s (path_of ss) (cut_path ss) (length ss) i.0 (parse_path-path_of ss i.1),
        parse_path,
      )
      refl

pub first_string-cut :
    (s : Name) (ss : List Name) → IsSegment s → first_string (s ++ cut_path ss) ≡ s
unfolding first_string
first_string-cut [] [] i = refl
first_string-cut [] (t ∷ ss) i = refl
first_string-cut (c ∷ s) ss i =
    rw (==_ne c 0 i.0, first_string) (ap (λ u. c ∷ u) (first_string-cut s ss i.2))

pub next_string-cut :
    (s : Name) (ss : List Name)
    → IsSegment s
    → next_string (s ++ cut_path ss) ≡ behind_slash (cut_path ss)
unfolding next_string
next_string-cut [] [] i = refl
next_string-cut [] (t ∷ ss) i = refl
next_string-cut (c ∷ s) ss i = rw (==_ne c 0 i.0, next_string) (next_string-cut s ss i.2)
