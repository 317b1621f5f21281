-- ===== src/Codec/Canonical.antt =====
-- codec.cpp: the end of the decoders, which encode the result again and compare.
use ll_exp.Prelude.{
  ◌⊎◌, inl, inr, ℕ, ◌≡◌, refl, sym, ap, ◌∙◌, arith, ◌==◌, if◌then◌else◌, Bool, true, false, not,
  ◌&&◌, Option, none, some, List, [], ◌∷◌, ==_refl,
}
use ll_exp.Codec.{PayloadCodecStatus, Parsed, bytes_equal, after_encoded, after_parsed}

pub bytes_equal_refl : (bytes : List ℕ) → bytes_equal bytes bytes ≡ true
unfolding bytes_equal
bytes_equal_refl [] = refl
bytes_equal_refl (b ∷ bytes) = simp (==_refl b, bytes_equal_refl bytes)

eq_of_test : (a b : ℕ) → (a == b) ≡ true → a ≡ b
eq_of_test a b e = ground arith

and_parts : (a b : Bool) → (a && b) ≡ true → (a ≡ true) × (b ≡ true)
and_parts true b e = (refl, e)
and_parts false b e = cc

bytes_equal-same : (xs ys : List ℕ) → bytes_equal xs ys ≡ true → xs ≡ ys
unfolding bytes_equal
bytes_equal-same [] [] e = refl
bytes_equal-same [] (y ∷ ys) e = cc
bytes_equal-same (x ∷ xs) [] e = cc
bytes_equal-same (x ∷ xs) (y ∷ ys) e =
    let parts = and_parts (x == y) (bytes_equal xs ys) e in
    λ i. eq_of_test x y parts.0 i ∷ bytes_equal-same xs ys parts.1 i

module _ {A : Type 0} (bytes : List ℕ) where
  compared :
      (b : Bool) (a p : A)
      → ◌≡◌ {A = PayloadCodecStatus × Option A}
          (if not b
            then (PayloadCodecStatus.non_canonical_bytes, none)
            else (PayloadCodecStatus.ok, some a))
          (PayloadCodecStatus.ok, some p)
      → (b ≡ true) × (a ≡ p)
  compared true a p e = (refl, cc)
  compared false a p e = cc

  after_encoded-canonical :
      (a p : A) (r : PayloadCodecStatus × List ℕ)
      → after_encoded bytes a r ≡ (PayloadCodecStatus.ok, some p)
      → (a ≡ p) × (r ≡ (PayloadCodecStatus.ok, bytes))
  after_encoded-canonical a p (PayloadCodecStatus.ok, canonical) e =
      let same = compared (bytes_equal bytes canonical) a p e in
      (same.1, λ i. (PayloadCodecStatus.ok, sym (bytes_equal-same bytes canonical same.0) i))
  after_encoded-canonical a p (PayloadCodecStatus.invalid_size, canonical) e = cc
  after_encoded-canonical a p (PayloadCodecStatus.invalid_type, canonical) e = cc
  after_encoded-canonical a p (PayloadCodecStatus.invalid_field, canonical) e = cc
  after_encoded-canonical a p (PayloadCodecStatus.non_canonical_bytes, canonical) e = cc

-- What a decoder accepts is the encoding of its result.
pub after_parsed-canonical :
    {A B : Type 0} (bytes : List ℕ) (whole : A → B) (encode : B → PayloadCodecStatus × List ℕ)
    (r : Parsed A) (p : B)
    → after_parsed bytes whole encode r ≡ (PayloadCodecStatus.ok, some p)
    → encode p ≡ (PayloadCodecStatus.ok, bytes)
after_parsed-canonical bytes whole encode (Parsed.parsed a) p e =
    let same = after_encoded-canonical bytes (whole a) p (encode (whole a)) e in
    ap encode (sym same.0) ∙ same.1
after_parsed-canonical bytes whole encode (Parsed.refused status) p e = cc

-- The tests before that.
pub if_fits :
    {A : Type 0} (b : Bool) (x y : PayloadCodecStatus × Option A) (a : A)
    → x.1 ≡ none
    → (if b then x else y) ≡ (PayloadCodecStatus.ok, some a)
    → (b ≡ false) × (y ≡ (PayloadCodecStatus.ok, some a))
if_fits true x y a nothing e = cc
if_fits false x y a nothing e = (refl, e)

pub if_branches :
    {A : Type 0} (b : Bool) (x y z : A)
    → (if b then x else y) ≡ z
    → ((b ≡ true) × (x ≡ z)) ⊎ ((b ≡ false) × (y ≡ z))
if_branches true x y z e = inl (refl, e)
if_branches false x y z e = inr (refl, e)
