-- ===== src/Prisma/Ensures.antt =====
-- What holds whenever an action ends without an exception, step by step through its awaits.
use icedr.Prelude.{
  refl, subst, find?, some, if◌then◌else◌, some-injective, ◌≡◌, Bool, true, false, List, [], ◌∷◌,
  map, filter, any, arith, Bool-cases, inl, inr,
}
use icedr.Prisma.{Outcome, resolved, thrown, Action, then_run, update_where}

module _ {Db E A : Type 0} where
  abbrev pub Ensures : (A → Db → Type 0) → Outcome E A × Db → Type 0
  Ensures P (resolved a, db) = P a db
  Ensures P (thrown e, db) = Unit

module _ {Db E A B : Type 0} (Q : A → Db → Type 0) (P : B → Db → Type 0) where
  pub then_run-Ensures :
      (p : Outcome E A × Db) (f : A → Action Db E B)
      → Ensures Q p
      → ((a : A) (db : Db) → Q a db → Ensures P (f a db))
      → Ensures P (then_run p f)
  then_run-Ensures (resolved a, db) f h k = k a db h
  then_run-Ensures (thrown e, db) f h k = tt

module _ {Row : Type 0} (test : Row → Bool) (patch : Row → Row) (holds : Row → Bool) where
  -- If an update returns a row, then some row of the table is as the update makes them.
  pub any-update_where :
      ((x : Row) → test x ≡ true → holds (patch x) ≡ true)
      → (xs : List Row) {y : Row} {ys : List Row} → map patch (filter test xs) ≡ y ∷ ys
      → any holds (update_where test patch xs) ≡ true
  any-update_where h [] e = cc
  any-update_where h (x ∷ xs) {y} {ys} e = elim (Bool-cases (test x)) [
    | inl p ↦ rw p (ground (arith, h x p))
    | inr p ↦
        let e' : map patch (filter test xs) ≡ y ∷ ys = rw p at e in
        rw p (ground (arith, any-update_where h xs e'))
  ]

module _ {Row : Type 0} (p q : Row → Bool) where
  pub any_mono :
      ((x : Row) → p x ≡ true → q x ≡ true) → (xs : List Row) → any p xs ≡ true → any q xs ≡ true
  any_mono h [] e = e
  any_mono h (x ∷ xs) e = ground (arith, h x, any_mono h xs)

-- What holds at either end of an action: of its value and the tables, or of its exception.
module _ {Db E A : Type 0} where
  abbrev pub EndsIn : (A → Db → Type 0) → (E → Type 0) → Outcome E A × Db → Type 0
  EndsIn P X (resolved a, db) = P a db
  EndsIn P X (thrown e, db) = X e

module _ {Db E A B : Type 0} (Q : A → Db → Type 0) (P : B → Db → Type 0) (X : E → Type 0) where
  pub then_run-EndsIn :
      (p : Outcome E A × Db) (f : A → Action Db E B)
      → EndsIn Q X p
      → ((a : A) (db : Db) → Q a db → EndsIn P X (f a db))
      → EndsIn P X (then_run p f)
  then_run-EndsIn (resolved a, db) f h k = k a db h
  then_run-EndsIn (thrown e, db) f h k = h

module _ {Row : Type 0} (p q : Row → Bool) where
  pub any-eq-false_mono :
      ((x : Row) → p x ≡ true → q x ≡ true) → (xs : List Row) → any q xs ≡ false → any p xs ≡ false
  any-eq-false_mono h [] e = refl
  any-eq-false_mono h (x ∷ xs) e = ground (arith, h x, any-eq-false_mono h xs)

-- An update that no row fits returns nothing and changes nothing.
module _ {Row : Type 0} (test : Row → Bool) (patch : Row → Row) where
  pub update_where_none : (xs : List Row) → any test xs ≡ false → update_where test patch xs ≡ xs
  update_where_none [] e = refl
  update_where_none (x ∷ xs) e = ground (arith, update_where_none xs)

  pub filter_none : (xs : List Row) → any test xs ≡ false → map patch (filter test xs) ≡ []
  filter_none [] e = refl
  filter_none (x ∷ xs) e = ground (arith, filter_none xs)

-- The first row with a key, after an update that keeps keys.
module _ {Row : Type 0} (key test : Row → Bool) (patch : Row → Row)
    (keeps : (x : Row) → key (patch x) ≡ key x) where
  abbrev patched : Row → Row
  patched x = if test x then patch x else x

  patched_head :
      (y : Row) (ys : List Row)
      → key y ≡ true
      → find? key (update_where test patch (y ∷ ys)) ≡ some (patched y)
  patched_head y ys k = elim (Bool-cases (test y)) [
    | inl t ↦ rw (t, keeps y, k) refl
    | inr t ↦ rw (t, k) refl
  ]

  pub find?-update_where :
      (xs : List Row) {x : Row}
      → find? key xs ≡ some x
      → find? key (update_where test patch xs) ≡ some (if test x then patch x else x)
  find?-update_where [] e = cc
  find?-update_where (y ∷ ys) {x} e = elim (Bool-cases (key y)) [
    | inl k ↦
        subst (λ z. find? key (update_where test patch (y ∷ ys)) ≡ some (patched z))
          (some-injective (rw k at e)) (patched_head y ys k)
    | inr n ↦
        let rest = find?-update_where ys (rw n at e) in
        elim (Bool-cases (test y)) [ inl t ↦ rw (t, keeps y, n) rest | inr t ↦ rw (t, n) rest ]
  ]
