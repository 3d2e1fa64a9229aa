-- ===== src/Strings/Token.antt =====
-- strtok of kernel/util/string.c cuts a token out of a string.
use dbos.Base.{
  ℕ, zero, suc, ◌+◌, ◌<◌, ◌≡◌, ◌≢◌, refl, sym, ap, ◌∙◌, true, false, some, List, [], ◌∷◌, ◌++◌,
  arith, ◌==◌, ==_ne, if◌then◌else◌, length, length-append,
}
use mathlib.Core.Path.{subst}
use dbos.Base.Word.{u32_mod, add32}
use dbos.Memory.{put}
use dbos.Strings.{Bytes}
use dbos.Strings.Spec.{IsString, member, span_without}
use dbos.Strings.Tokens.{skip_delimiters, strtok}
use dbos.Strings.Scan.{strchr-first}
use dbos.Strings.Spans.{first_at-member, strcspn-span}

-- Every character is in `t`.
abbrev pub AllIn : List ℕ → List ℕ → Type 0
AllIn [] t = Unit {0}
AllIn (x ∷ s) t = (member x t ≡ true) × AllIn s t

-- No character is in `t`.
abbrev pub NoneIn : List ℕ → List ℕ → Type 0
NoneIn [] t = Unit {0}
NoneIn (x ∷ s) t = (member x t ≡ false) × NoneIn s t

IsString-behind :
    (m : Bytes) (a : ℕ) (xs ys : List ℕ) → IsString m a (xs ++ ys) → IsString m (a + length xs) ys
IsString-behind m a [] ys v = let here : a + 0 ≡ a = omega arith in rw here v
IsString-behind m a (x ∷ xs) ys v =
    let place : a + suc (length xs) ≡ a + 1 + length xs = omega arith in
    rw place (IsString-behind m (a + 1) xs ys v.2)

-- A zero byte in the place of a character ends the string there.
IsString-cut :
    (m : Bytes) (a d : ℕ) (xs ys : List ℕ)
    → IsString m a (xs ++ (d ∷ ys))
    → IsString (put m (a + length xs) 0) a xs
IsString-cut m a d [] ys v = ground arith
IsString-cut m a d (x ∷ xs) ys v =
    let place : a + suc (length xs) ≡ a + 1 + length xs = omega arith in
    let ne : a ≢ a + 1 + length xs = omega arith in
    subst (λ k. IsString (put m k 0) a (x ∷ xs)) (sym place)
      (v.0, rw (==_ne a (a + 1 + length xs) ne) v.1, IsString-cut m (a + 1) d xs ys v.2)

span_without-token :
    (xs ys t : List ℕ) (d : ℕ)
    → NoneIn xs t
    → member d t ≡ true
    → span_without (xs ++ (d ∷ ys)) t ≡ length xs
span_without-token [] ys t d n h = rw h refl
span_without-token (x ∷ xs) ys t d n h = rw n.0 (ap suc (span_without-token xs ys t d n.1 h))

skip_delimiters-token :
    (fuel : ℕ) (m : Bytes) (a b x : ℕ) (ds w t : List ℕ)
    → IsString m a (ds ++ (x ∷ w))
    → IsString m b t
    → AllIn ds t
    → member x t ≡ false
    → b ≢ 0
    → a + length ds < u32_mod
    → b + length t < u32_mod
    → length ds + length t < fuel
    → skip_delimiters fuel m a b ≡ some (a + length ds)
unfolding skip_delimiters
skip_delimiters-token zero m a b x ds w t v u all out hb ra rb h = absurd (omega arith)
skip_delimiters-token (suc f) m a b x [] w t v u all out hb ra rb h =
    let found = strchr-first (suc f) m b x t u rb (omega arith) in
    let test = first_at-member b x t hb v.0 in
    rw (v.1, ==_ne x 0 v.0, skip_delimiters, v.1, found, test, out) (ap some (omega arith))
skip_delimiters-token (suc f) m a b x (d ∷ ds) w t v u all out hb ra rb h =
    let found = strchr-first (suc f) m b d t u rb (omega arith) in
    let test = first_at-member b d t hb v.0 in
    let na : add32 a 1 ≡ a + 1 = omega arith in
    rw (v.1, ==_ne d 0 v.0, skip_delimiters, v.1, found, test, all.0, na)
      (skip_delimiters-token f m (a + 1) b x ds w t v.2 u all.1 out hb (omega arith) rb
          (omega arith)
        ∙ ap some (omega arith))

-- `strtok` of delimiters, a token and one more delimiter returns the token: it stands at the address
-- returned, a zero byte is in the delimiter's place, and what is stored for the next call is the
-- address behind it. The string is the argument, or for a NULL argument the one stored before; neither
-- it nor the delimiters run over the end of the memory.
pub strtok-token :
    (fuel : ℕ) (m : Bytes) (stored string a b x d : ℕ) (ds tok rest t : List ℕ)
    → (if string == 0 then stored else string) ≡ a
    → a ≢ 0
    → b ≢ 0
    → IsString m a (ds ++ (x ∷ (tok ++ (d ∷ rest))))
    → IsString m b t
    → AllIn ds t
    → NoneIn (x ∷ tok) t
    → member d t ≡ true
    → a + length (ds ++ (x ∷ (tok ++ (d ∷ rest)))) < u32_mod
    → b + length t < u32_mod
    → length (ds ++ (x ∷ (tok ++ (d ∷ rest)))) + length t < fuel
    → (m' : Bytes) × (strtok fuel m stored string b
        ≡ some (a + length ds, a + length ds + suc (length tok) + 1, m'))
      × IsString m' (a + length ds) (x ∷ tok)
      × ((p : ℕ) → p ≢ a + length ds + suc (length tok) → m' p ≡ m p)
unfolding strtok
strtok-token fuel m stored string a b x d ds tok rest t start ha hb v u all nothing in_t ra rb h =
    let w = tok ++ (d ∷ rest) in
    let l₁ = length-append ds (x ∷ w) in
    let l₂ = length-append tok (d ∷ rest) in
    let skip =
      skip_delimiters-token fuel m a b x ds w t v u all nothing.0 hb (omega arith) rb
        (omega arith) in
    let q = a + length ds in
    let there = IsString-behind m a ds (x ∷ w) v in
    let count =
      strcspn-span fuel m q b (x ∷ w) t there u hb (omega arith) rb (omega arith)
      ∙ ap some (span_without-token (x ∷ tok) rest t d nothing in_t) in
    let n = suc (length tok) in
    let end = IsString-behind m q (x ∷ tok) (d ∷ rest) there in
    let at_end : add32 q n ≡ q + n = omega arith in
    let next : add32 (q + n) 1 ≡ q + n + 1 = omega arith in
    let ne : q ≢ 0 = omega arith in
    (
      put m (q + n) 0,
      rw (start, skip, ==_ne q 0 ne, count, at_end, end.1, ==_ne d 0 end.0, next, strtok) refl,
      IsString-cut m q d (x ∷ tok) rest there,
      λ p o. rw (==_ne p (q + n) o) refl,
    )
