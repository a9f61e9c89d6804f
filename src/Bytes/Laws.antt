-- ===== src/Bytes/Laws.antt =====
-- Laws of the texts and maps: a text around an occurrence, and what a changed map holds.
use token_flux.Base.{
  ◌↔◌, ℕ, zero, suc, ◌+◌, ◌-◌, ◌==◌, ==_iff, true, false, Bool-cases, Option, none, some, [], ◌∷◌,
  ◌++◌, length, if◌then◌else◌, ◌≡◌, refl, sym, ap, ap₂, subst, arith, inl, inr,
}
use token_flux.Bytes.{
  Text, Map, text_eq, take, drop, has_prefix, index_of_str, next, get_key, put_key, delete_key,
}

pub text_eq_refl : (s : Text) → text_eq s s ≡ true
unfolding text_eq
text_eq_refl [] = refl
text_eq_refl (a ∷ s) = ground (arith, text_eq_refl s)

pub text_eq_sound : (s t : Text) → text_eq s t ≡ true → s ≡ t
unfolding text_eq
text_eq_sound [] [] h = refl
text_eq_sound [] (b ∷ t) h = ground arith
text_eq_sound (a ∷ s) [] h = ground arith
text_eq_sound (a ∷ s) (b ∷ t) h = elim (Bool-cases (a == b)) [
  | inl e ↦ ap₂ (λ x y. x ∷ y) ((==_iff a b).0 e) (text_eq_sound s t (ground (arith, e, h)))
  | inr e ↦ ground (arith, e, h)
]

pub text_eq_iff : (s t : Text) → (text_eq s t ≡ true) ↔ (s ≡ t)
text_eq_iff s t = (text_eq_sound s t, λ e. subst (λ u. text_eq s u ≡ true) e (text_eq_refl s))

pub length-drop : (n : ℕ) (s : Text) → length (drop n s) ≡ length s - n
unfolding drop
length-drop zero s = omega arith
length-drop (suc n) [] = omega arith
length-drop (suc n) (c ∷ s) = omega (arith, length-drop n s)

pub has_prefix-append : (p s : Text) → has_prefix (p ++ s) p ≡ true
unfolding has_prefix
has_prefix-append [] [] = refl
has_prefix-append [] (c ∷ s) = refl
has_prefix-append (b ∷ p) s = ground (arith, has_prefix-append p s)

pub drop-append : (p s : Text) → drop (length p) (p ++ s) ≡ s
unfolding drop
drop-append [] s = refl
drop-append (b ∷ p) s = drop-append p s

pub take-append : (p s : Text) → take (length p) (p ++ s) ≡ p
unfolding take
take-append [] s = refl
take-append (b ∷ p) s = ap (λ t. b ∷ t) (take-append p s)

-- A text is its prefix and the rest.
pub has_prefix-split : (s p : Text) → has_prefix s p ≡ true → p ++ drop (length p) s ≡ s
unfolding has_prefix drop
has_prefix-split s [] h = refl
has_prefix-split [] (b ∷ p) h = ground (arith, h)
has_prefix-split (a ∷ s) (b ∷ p) h = elim (Bool-cases (a == b)) [
  | inl e ↦
      ap₂ (λ x y. x ∷ y) (sym ((==_iff a b).0 e)) (has_prefix-split s p (ground (arith, e, h)))
  | inr e ↦ ground (arith, e, h)
]

suc_add : (m n : ℕ) → suc m + n ≡ suc (m + n)
suc_add m n = omega arith

zero_add : (n : ℕ) → 0 + n ≡ n
zero_add n = omega arith

some_inj : {i j : ℕ} → ◌≡◌ {A = Option ℕ} (some i) (some j) → i ≡ j
some_inj h = cc h

next-some : (o : Option ℕ) (i : ℕ) → next o ≡ some i → (j : ℕ) × (o ≡ some j) × (i ≡ suc j)
next-some none i h = ground (arith, h)
next-some (some j) i h = (j, refl, sym (some_inj h))

-- A text is what stands before an occurrence, the occurrence, and the rest.
pub index_of_str-split :
    (s p : Text) (i : ℕ) → index_of_str s p ≡ some i → take i s ++ p ++ drop (i + length p) s ≡ s
unfolding index_of_str take drop has_prefix
index_of_str-split [] [] i h =
    subst (λ n. take n [] ++ [] ++ drop (n + 0) [] ≡ []) (some_inj h) refl
index_of_str-split [] (b ∷ p) i h = ground (arith, h)
index_of_str-split (c ∷ s) p i h = elim (Bool-cases (has_prefix (c ∷ s) p)) [
  | inl e ↦
      let z : ◌≡◌ {A = Option ℕ} (some 0) (some i) = rw e at h in
      subst (λ n. take n (c ∷ s) ++ p ++ drop (n + length p) (c ∷ s) ≡ c ∷ s) (some_inj z)
        (rw (zero_add (length p)) (has_prefix-split (c ∷ s) p e))
  | inr e ↦
      let n : next (index_of_str s p) ≡ some i = rw e at h in
      let (j, ej, ei) = next-some (index_of_str s p) i n in
      rw (ei, suc_add j (length p)) (ap (λ t. c ∷ t) (index_of_str-split s p j ej))
]

pub take-drop : (n : ℕ) (s : Text) → take n s ++ drop n s ≡ s
unfolding take drop
take-drop zero s = refl
take-drop (suc n) [] = refl
take-drop (suc n) (c ∷ s) = ap (λ t. c ∷ t) (take-drop n s)

-- At the position found the searched text starts.
pub index_of_str-prefix :
    (s p : Text) (i : ℕ) → index_of_str s p ≡ some i → has_prefix (drop i s) p ≡ true
unfolding index_of_str drop has_prefix
index_of_str-prefix [] [] i h = subst (λ n. has_prefix (drop n []) [] ≡ true) (some_inj h) refl
index_of_str-prefix [] (b ∷ p) i h = ground (arith, h)
index_of_str-prefix (c ∷ s) p i h = elim (Bool-cases (has_prefix (c ∷ s) p)) [
  | inl e ↦
      let z : ◌≡◌ {A = Option ℕ} (some 0) (some i) = rw e at h in
      subst (λ n. has_prefix (drop n (c ∷ s)) p ≡ true) (some_inj z) e
  | inr e ↦
      let n : next (index_of_str s p) ≡ some i = rw e at h in
      let (j, ej, ei) = next-some (index_of_str s p) i n in rw ei (index_of_str-prefix s p j ej)
]

-- The byte `c` is nowhere in the text.
unfoldable pub Absent : ℕ → Text → Type 0
Absent c [] = Unit
Absent c (b ∷ s) = ((b == c) ≡ false) × Absent c s

pub index_of_str-first :
    (c : ℕ) (s t : Text) → Absent c s → index_of_str (s ++ c ∷ t) (c ∷ []) ≡ some (length s)
unfolding Absent index_of_str has_prefix
index_of_str-first c [] t h = ground arith
index_of_str-first c (b ∷ s) t (n, h) = rw (n, index_of_str-first c s t h)

module _ {ℓ} {V : Type ℓ} where
  pub get_key-put_key :
      (k j : Text) (v : V) (m : Map V)
      → get_key k (put_key j v m) ≡ (if text_eq j k then some v else get_key k m)
  unfolding get_key put_key
  get_key-put_key k j v [] = refl
  get_key-put_key k j v ((i, w) ∷ m) = ground (
    arith,
    text_eq_iff k j,
    text_eq_iff i k,
    text_eq_iff i j,
    text_eq_iff j k,
    get_key-put_key k j v m,
  )

  pub get_key-delete_key :
      (k j : Text) (m : Map V)
      → get_key k (delete_key j m) ≡ (if text_eq j k then none else get_key k m)
  unfolding get_key delete_key
  get_key-delete_key k j [] = ground arith
  get_key-delete_key k j ((i, w) ∷ m) =
      ground (arith, text_eq_iff i k, text_eq_iff i j, text_eq_iff j k, get_key-delete_key k j m)
