-- ===== src/Malloc/Layout.antt =====
-- The heap of mm.c as a row of blocks with boundary tags.
use s_system_programmin.Common.{
  ℕ, ◌+◌, ◌-◌, ◌%◌, ◌≤◌, ◌<◌, ◌≡◌, refl, subst, ◌≢◌, Bool, true, false, not, ◌||◌, Option, none,
  some, List, [], ◌∷◌, ◌++◌, arith, ltb, ◌==◌, if◌then◌else◌,
}
use s_system_programmin.Malloc.Words.{pack}
use s_system_programmin.Malloc.Links.{has, is_link}

pub record Block : Type 0 where
  pub size : ℕ
  pub used : Bool

abbrev pub block : ℕ → Bool → Block
block n u = record { size = n; used = u }

abbrev pub total : List Block → ℕ
total [] = 0
total (b ∷ bs) = b.size + total bs

abbrev pub Sized : List Block → Type 0
Sized [] = Unit {0}
Sized (b ∷ bs) = (16 ≤ b.size) × (b.size % 8 ≡ 0) × Sized bs

-- From the block pointer `p` on, header and footer of each block hold its size and state.
abbrev pub Tags : (ℕ → ℕ) → ℕ → List Block → Type 0
Tags w p [] = Unit {0}
Tags w p (b ∷ bs) =
    (w (p - 4) ≡ pack b.size b.used)
    × (w (p + b.size - 8) ≡ pack b.size b.used)
    × Tags w (p + b.size) bs

-- Whether a word is the header or the footer of a block.
abbrev pub is_tag : ℕ → List Block → ℕ → Bool
is_tag p [] x = false
is_tag p (b ∷ bs) x = (x == p - 4) || (x == p + b.size - 8) || is_tag (p + b.size) bs x

abbrev pub block_at : ℕ → List Block → ℕ → Option Block
block_at p [] q = none
block_at p (b ∷ bs) q = if q == p then some b else block_at (p + b.size) bs q

-- The live allocations: the size of the allocated block at a pointer.
abbrev pub used_at : ℕ → List Block → ℕ → Option ℕ
used_at p [] q = none
used_at p (b ∷ bs) q =
    if q == p then if b.used then some b.size else none else used_at (p + b.size) bs q

abbrev pub is_free : ℕ → List Block → ℕ → Bool
is_free p [] q = false
is_free p (b ∷ bs) q = if q == p then not b.used else is_free (p + b.size) bs q

-- No two free blocks are neighbours; `prev` says whether the block before is allocated.
abbrev pub Spaced : (prev : Bool) → List Block → Type 0
Spaced prev [] = Unit {0}
Spaced prev (b ∷ bs) = ((prev || b.used) ≡ true) × Spaced b.used bs

pub total-append : (xs ys : List Block) → total (xs ++ ys) ≡ total xs + total ys
total-append [] ys = omega arith
total-append (x ∷ xs) ys = omega (arith, total-append xs ys)

pub Sized-append : (xs ys : List Block) → Sized (xs ++ ys) → Sized xs × Sized ys
Sized-append [] ys s = (tt, s)
Sized-append (x ∷ xs) ys s = ground (arith, Sized-append xs ys)

pub Sized-join : (xs ys : List Block) → Sized xs → Sized ys → Sized (xs ++ ys)
Sized-join [] ys s t = t
Sized-join (x ∷ xs) ys s t = ground (arith, Sized-join xs ys)

pub total_mod : (bs : List Block) → Sized bs → total bs % 8 ≡ 0
total_mod [] s = refl
total_mod (b ∷ bs) s = omega (arith, total_mod bs s.2)

pub Tags-append :
    (w : ℕ → ℕ) (p : ℕ) (xs ys : List Block)
    → Tags w p (xs ++ ys)
    → Tags w p xs × Tags w (p + total xs) ys
Tags-append w p [] ys t = (tt, subst (λ n. Tags w n ys) (omega arith) t)
Tags-append w p (x ∷ xs) ys t =
    let (left, right) = Tags-append w (p + x.size) xs ys t.2 in
    ((t.0, t.1, left), subst (λ n. Tags w n ys) (omega arith) right)

pub Tags-join :
    (w : ℕ → ℕ) (p : ℕ) (xs ys : List Block)
    → Tags w p xs
    → Tags w (p + total xs) ys
    → Tags w p (xs ++ ys)
Tags-join w p [] ys t u = subst (λ n. Tags w n ys) (omega arith) u
Tags-join w p (x ∷ xs) ys t u =
    (t.0, t.1, Tags-join w (p + x.size) xs ys t.2 (subst (λ n. Tags w n ys) (omega arith) u))

-- A tag of the row lies in the row, and four bytes at least before its end.
pub tag_range :
    (p : ℕ) (bs : List Block) (x : ℕ)
    → 8 ≤ p
    → Sized bs
    → is_tag p bs x ≡ true
    → (p ≤ x + 4) × (x + 8 ≤ p + total bs)
tag_range p [] x h s t = cc
tag_range p (b ∷ bs) x h s t = ground (arith, tag_range (p + b.size) bs x)

pub free_range :
    (p : ℕ) (bs : List Block) (q : ℕ)
    → Sized bs
    → is_free p bs q ≡ true
    → (p ≤ q) × (q + 16 ≤ p + total bs)
free_range p [] q s t = cc
free_range p (b ∷ bs) q s t = ground (arith, free_range (p + b.size) bs q)

-- The two links of a free block are not tags.
pub free_not_tag :
    (p : ℕ) (bs : List Block) (q x : ℕ)
    → 8 ≤ p
    → Sized bs
    → is_free p bs q ≡ true
    → is_tag p bs x ≡ true
    → (x ≢ q) × (x ≢ q + 4)
free_not_tag p [] q x h s f t = cc
free_not_tag p (b ∷ bs) q x h s f t = ground (
  arith,
  free_not_tag (p + b.size) bs q x,
  tag_range (p + b.size) bs x,
  free_range (p + b.size) bs q,
)

pub tag_not_link :
    (p : ℕ) (bs : List Block) (fs : List ℕ) (x : ℕ)
    → 8 ≤ p
    → Sized bs
    → ((q : ℕ) → has q fs ≡ true → is_free p bs q ≡ true)
    → is_tag p bs x ≡ true
    → is_link x fs ≡ false
tag_not_link p bs [] x h s l t = refl
tag_not_link p bs (f ∷ fs) x h s l t =
    ground
      (arith, l f, free_not_tag p bs f x, tag_not_link p bs fs x h s (λ q m. l q (ground arith)) t)

pub is_tag-left :
    (p : ℕ) (xs ys : List Block) (x : ℕ) → is_tag p xs x ≡ true → is_tag p (xs ++ ys) x ≡ true
is_tag-left p [] ys x t = cc
is_tag-left p (b ∷ xs) ys x t = ground (arith, is_tag-left (p + b.size) xs ys x)

pub is_tag-right :
    (p : ℕ) (xs ys : List Block) (m x : ℕ)
    → m ≡ p + total xs
    → is_tag m ys x ≡ true
    → is_tag p (xs ++ ys) x ≡ true
is_tag-right p [] ys m x e t = let e' : p ≡ m = omega arith in rw e' t
is_tag-right p (b ∷ xs) ys m x e t = ground (arith, is_tag-right (p + b.size) xs ys m x)

pub end_not_link :
    (p : ℕ) (bs : List Block) (fs : List ℕ) (x : ℕ)
    → Sized bs
    → ((q : ℕ) → has q fs ≡ true → is_free p bs q ≡ true)
    → p + total bs ≤ x + 8
    → is_link x fs ≡ false
end_not_link p bs [] x s l h = refl
end_not_link p bs (f ∷ fs) x s l h =
    ground (arith, l f, free_range p bs f, end_not_link p bs fs x s (λ q m. l q (ground arith)) h)

-- The tags survive a change that spares them.
pub Tags-frame :
    (w v : ℕ → ℕ) (p : ℕ) (bs : List Block)
    → Tags w p bs
    → ((x : ℕ) → is_tag p bs x ≡ true → v x ≡ w x)
    → Tags v p bs
Tags-frame w v p [] t same = tt
Tags-frame w v p (b ∷ bs) t same =
    let rest = Tags-frame w v (p + b.size) bs t.2 (λ x h. same x (ground arith)) in
    ground (arith, same (p - 4), same (p + b.size - 8))

pub used_at-below : (p : ℕ) (bs : List Block) (q : ℕ) → q < p → used_at p bs q ≡ none
used_at-below p [] q h = refl
used_at-below p (b ∷ bs) q h = ground (arith, used_at-below (p + b.size) bs q)

pub is_free-below : (p : ℕ) (bs : List Block) (q : ℕ) → q < p → is_free p bs q ≡ false
is_free-below p [] q h = refl
is_free-below p (b ∷ bs) q h = ground (arith, is_free-below (p + b.size) bs q)

-- Where a row is cut, at `m`, each block lies on one side.
pub used_at-append :
    (p : ℕ) (xs ys : List Block) (m q : ℕ)
    → Sized xs
    → m ≡ p + total xs
    → used_at p (xs ++ ys) q ≡ (if ltb q m then used_at p xs q else used_at m ys q)
used_at-append p [] ys m q s e =
    let e' : m ≡ p = omega arith in rw e' (ground (arith, used_at-below p ys q))
used_at-append p (x ∷ xs) ys m q s e = ground (arith, used_at-append (p + x.size) xs ys m q s.2)

pub is_free-append :
    (p : ℕ) (xs ys : List Block) (m q : ℕ)
    → Sized xs
    → m ≡ p + total xs
    → is_free p (xs ++ ys) q ≡ (if ltb q m then is_free p xs q else is_free m ys q)
is_free-append p [] ys m q s e =
    let e' : m ≡ p = omega arith in rw e' (ground (arith, is_free-below p ys q))
is_free-append p (x ∷ xs) ys m q s e = ground (arith, is_free-append (p + x.size) xs ys m q s.2)

pub used_range :
    (p : ℕ) (bs : List Block) (q n : ℕ)
    → Sized bs
    → used_at p bs q ≡ some n
    → (p ≤ q) × (q + n ≤ p + total bs) × (16 ≤ n) × (n % 8 ≡ 0)
used_range p [] q n s t = cc
used_range p (b ∷ bs) q n s t = ground (arith, used_range (p + b.size) bs q n)

-- A payload word of an allocated block is no link of a free one.
pub payload_not_free :
    (p : ℕ) (bs : List Block) (q n x f : ℕ)
    → Sized bs
    → used_at p bs q ≡ some n
    → q ≤ x
    → x + 8 < q + n
    → is_free p bs f ≡ true
    → (x ≢ f) × (x ≢ f + 4)
payload_not_free p [] q n x f s u a b i = cc
payload_not_free p (b' ∷ bs) q n x f s u a b i = ground (
  arith,
  payload_not_free (p + b'.size) bs q n x f,
  free_range (p + b'.size) bs f,
  used_range (p + b'.size) bs q n,
)

pub payload_not_link :
    (p : ℕ) (bs : List Block) (q n x : ℕ) (fs : List ℕ)
    → Sized bs
    → used_at p bs q ≡ some n
    → q ≤ x
    → x + 8 < q + n
    → ((f : ℕ) → has f fs ≡ true → is_free p bs f ≡ true)
    → is_link x fs ≡ false
payload_not_link p bs q n x [] s u a b l = refl
payload_not_link p bs q n x (f ∷ fs) s u a b l = ground (
  arith,
  l f,
  payload_not_free p bs q n x f,
  payload_not_link p bs q n x fs s u a b (λ y m. l y (ground arith)),
)

-- The state of the last block of a row.
abbrev pub last_used : Bool → List Block → Bool
last_used prev [] = prev
last_used prev (b ∷ bs) = last_used b.used bs

pub Spaced-append :
    (prev : Bool) (xs ys : List Block)
    → Spaced prev (xs ++ ys)
    → Spaced prev xs × Spaced (last_used prev xs) ys
Spaced-append prev [] ys s = (tt, s)
Spaced-append prev (x ∷ xs) ys s =
    let (left, right) = Spaced-append x.used xs ys s.1 in ((s.0, left), right)

pub Spaced-join :
    (prev : Bool) (xs ys : List Block)
    → Spaced prev xs
    → Spaced (last_used prev xs) ys
    → Spaced prev (xs ++ ys)
Spaced-join prev [] ys s t = t
Spaced-join prev (x ∷ xs) ys s t = (s.0, Spaced-join x.used xs ys s.1 t)

pub Spaced-true : (prev : Bool) (bs : List Block) → Spaced prev bs → Spaced true bs
Spaced-true prev [] s = tt
Spaced-true prev (b ∷ bs) s = (refl, s.1)
