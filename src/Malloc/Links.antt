-- ===== src/Malloc/Links.antt =====
-- The free list of mm.c in memory: from the head the next words lead through the free blocks to the
-- prologue block, which ends every search, and the previous words lead back.
use s_system_programmin.Common.{
  ℕ, ◌+◌, ◌%◌, ◌<◌, ◌≡◌, ◌∙◌, refl, ◌≢◌, ◌⊎◌, inl, inr, Bool, true, false, not, ◌&&◌, ◌||◌, List,
  [], ◌∷◌, arith, ◌==◌, Bool-cases, if◌then◌else◌,
}
pub use s_system_programmin.Common.{has, erase}

-- Distinct block pointers, none of them NULL or the sentinel `s`, at multiples of 8.
abbrev pub Nodes : ℕ → List ℕ → Type 0
Nodes s [] = (s % 8 ≡ 0) × (0 < s)
Nodes s (f ∷ fs) = (f % 8 ≡ 0) × (0 < f) × (has f fs ≡ false) × (f ≢ s) × Nodes s fs

-- From `p`, whose previous word is `pv`, the list runs over `fs` to the sentinel `s`.
abbrev pub Linked : (ℕ → ℕ) → (pv p : ℕ) → List ℕ → ℕ → Type 0
Linked w pv p [] s = (p ≡ s) × (w (s + 4) ≡ pv) × (w s ≡ 0)
Linked w pv p (f ∷ fs) s = (p ≡ f) × (w (f + 4) ≡ pv) × Linked w f (w f) fs s

-- Whether a word is one of the two links of a block of `fs`.
abbrev pub is_link : ℕ → List ℕ → Bool
is_link x [] = false
is_link x (f ∷ fs) = (x == f) || (x == f + 4) || is_link x fs

-- What the list looks like from the block `q` on it: its previous word names a block of the list or
-- is the outer one, and its next word names a block of the list or the sentinel.
pub prev_cases :
    (w : ℕ → ℕ) (pv p : ℕ) (fs : List ℕ) (s q : ℕ)
    → Linked w pv p fs s
    → has q fs ≡ true
    → ((p ≡ q) × (w (q + 4) ≡ pv)) ⊎ ((p ≢ q) × (has (w (q + 4)) fs ≡ true))
prev_cases w pv p [] s q l m = cc
prev_cases w pv p (f ∷ fs) s q l m = ground (arith, prev_cases w f (w f) fs s q l.2)

pub next_cases :
    (w : ℕ → ℕ) (pv p : ℕ) (fs : List ℕ) (s q : ℕ)
    → Linked w pv p fs s
    → has q fs ≡ true
    → (w q ≡ s) ⊎ (has (w q) fs ≡ true)
next_cases w pv p [] s q l m = cc
next_cases w pv p (f ∷ []) s q l m = ground arith
next_cases w pv p (f ∷ g ∷ fs) s q l m = ground (arith, next_cases w f (w f) (g ∷ fs) s q l.2)

pub Nodes-mem :
    (s : ℕ) (fs : List ℕ) (q : ℕ) → Nodes s fs → has q fs ≡ true → (q % 8 ≡ 0) × (0 < q) × (q ≢ s)
Nodes-mem s [] q n m = cc
Nodes-mem s (f ∷ fs) q n m = ground (arith, Nodes-mem s fs q)

pub Nodes-sentinel : (s : ℕ) (fs : List ℕ) → Nodes s fs → (s % 8 ≡ 0) × (0 < s)
Nodes-sentinel s [] n = n
Nodes-sentinel s (f ∷ fs) n = Nodes-sentinel s fs n.4

pub has-erase :
    (s q x : ℕ) (fs : List ℕ) → Nodes s fs → has x (erase q fs) ≡ (has x fs && not (x == q))
has-erase s q x [] n = refl
has-erase s q x (f ∷ fs) n = ground (arith, has-erase s q x fs)

pub Nodes-erase : (s q : ℕ) (fs : List ℕ) → Nodes s fs → Nodes s (erase q fs)
Nodes-erase s q [] n = n
Nodes-erase s q (f ∷ fs) n = ground (arith, has-erase s q f fs, Nodes-erase s q fs)

-- The list survives a change that spares its links.
pub Linked-frame :
    (w v : ℕ → ℕ) (pv p : ℕ) (fs : List ℕ) (s : ℕ)
    → Linked w pv p fs s
    → ((x : ℕ) → is_link x (s ∷ fs) ≡ true → v x ≡ w x)
    → Linked v pv p fs s
Linked-frame w v pv p [] s l same = ground (arith, same s, same (s + 4))
Linked-frame w v pv p (f ∷ fs) s l same =
    let rest = Linked-frame w v f (w f) fs s l.2 (λ x h. same x (ground arith)) in
    let e : v f ≡ w f = same f (ground arith) in (l.0, ground (arith, same (f + 4)), rw e rest)

-- The links of a list are apart from those of a block that is not in it.
pub link_apart :
    (s : ℕ) (fs : List ℕ) (x y : ℕ)
    → Nodes s fs
    → y % 8 ≡ 0
    → has y (s ∷ fs) ≡ false
    → is_link x (s ∷ fs) ≡ true
    → (x ≢ y) × (x ≢ y + 4)
link_apart s [] x y n a out m = ground arith
link_apart s (f ∷ fs) x y n a out m = ground (arith, link_apart s fs x y)

-- A new outer block: only the previous word of the first block is set to it.
pub relink :
    (w v : ℕ → ℕ) (pv0 pv p : ℕ) (fs : List ℕ) (s : ℕ)
    → Linked w pv0 p fs s
    → Nodes s fs
    → pv % 8 ≡ 0
    → has pv (s ∷ fs) ≡ false
    → v (p + 4) ≡ pv
    → ((x : ℕ) → x ≢ pv → x ≢ pv + 4 → x ≢ p + 4 → v x ≡ w x)
    → Linked v pv p fs s
relink w v pv0 pv p [] s l n a out set same = ground (arith, same s)
relink w v pv0 pv p (f ∷ fs) s l n a out set same =
    let e : v f ≡ w f = ground (arith, same f, Nodes-sentinel s fs) in
    let rest = Linked-frame w v f (w f) fs s l.2 λ x h.
      same x (ground (arith, link_apart s fs x pv)) (ground (arith, link_apart s fs x pv))
        (ground (arith, link_apart s fs x f)) in
    (l.0, ground arith, rw e rest)

-- The block `q` is unlinked: its neighbours name each other.
pub unlink :
    (w v : ℕ → ℕ) (pv p : ℕ) (fs : List ℕ) (s q : ℕ)
    → Linked w pv p fs s
    → Nodes s fs
    → has q fs ≡ true
    → pv % 8 ≡ 0
    → has pv (s ∷ fs) ≡ false
    → (has (w (q + 4)) fs ≡ true → v (w (q + 4)) ≡ w q)
    → v (w q + 4) ≡ w (q + 4)
    → ((x : ℕ) → x ≢ w (q + 4) → x ≢ w q + 4 → v x ≡ w x)
    → Linked v pv (if p == q then w q else p) (erase q fs) s
unlink w v pv p [] s q l n m a out next prev same = cc
unlink w v pv p (f ∷ fs) s q l n m a out next prev same = elim (Bool-cases (f == q)) [
  | inl hit ↦
      let e : f ≡ q = ground arith in
      let e' : p ≡ q = l.0 ∙ e in
      let set : v (w f + 4) ≡ pv = rw e (prev ∙ ground arith) in
      let rest =
        relink w v f pv (w f) fs s l.2 n.4 a (ground arith) set
          λ x h h' h''. same x (ground arith) (ground arith) in
      ground arith
  | inr miss ↦
      let inner : has q fs ≡ true = ground arith in
      let rest =
        unlink w v f (w f) fs s q l.2 n.4 inner n.0 (ground arith) (λ h. next (ground arith)) prev
          same in
      let before = prev_cases w f (w f) fs s q l.2 inner in
      let after = next_cases w f (w f) fs s q l.2 inner in
      let node = Nodes-mem s fs (w (q + 4)) n.4 in
      let keep : v (f + 4) ≡ w (f + 4) = same (f + 4) (ground arith) (ground arith) in
      let follow : v f ≡ (if w f == q then w q else w f) = elim before [
        | inl (e, e') ↦ let linked : v (w (q + 4)) ≡ w q = next (ground arith) in ground arith
        | inr (e, h) ↦
            let bottom = Nodes-sentinel s fs n.4 in
            ground (arith, same f (ground arith) (ground (arith, Nodes-mem s fs (w q) n.4)))
      ] in
      let tail : Linked v f (v f) (erase q fs) s = rw follow rest in ground arith
]
