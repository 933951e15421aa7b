-- ===== src/Prisma.antt =====
-- The database client that the repositories call (Prisma, a package that is not in the repository),
-- as an interface: the calls that the code makes, and what Prisma documents of each.
pub mod Ensures
use icedr.Prelude.{
  ◌≡◌, Bool, List, [], ◌∷◌, ◌+◌, Option, none, some, map, if◌then◌else◌, filter, find?, ℕ, length,
  not, any, sym, subst, refl,
}

-- What a function that is awaited ends with: a value, or an exception.
pub data Outcome (E A : Type 0) : Type 0 where
  resolved : A → Outcome E A
  thrown : E → Outcome E A

-- A step of asynchronous code that reads and writes a database.
abbrev pub Action : Type 0 → Type 0 → Type 0 → Type 0
Action Db E A = Db → Outcome E A × Db

abbrev pub then_run :
    {Db E A B : Type 0} → Outcome E A × Db → (A → Action Db E B) → Outcome E B × Db
then_run (resolved a, db) f = f a db
then_run (thrown e, db) f = (thrown e, db)

infixl 5 ◌>>=◌ ◌>>◌
abbrev pub ◌>>=◌ : {Db E A B : Type 0} → Action Db E A → (A → Action Db E B) → Action Db E B
◌>>=◌ m f db = then_run (m db) f

abbrev pub ◌>>◌ : {Db E B : Type 0} → Action Db E (Unit {0}) → Action Db E B → Action Db E B
◌>>◌ m k db = then_run (m db) (λ _. k)

abbrev pub return : {Db E A : Type 0} → A → Action Db E A
return a db = (resolved a, db)

abbrev pub throw : {Db E A : Type 0} → E → Action Db E A
throw e db = (thrown e, db)

-- What an update of one row ends with: the row as it is now with the table, P2025, or P2002.
pub data Updated (Row : Type 0) : Type 0 where
  changed : Row → List Row → Updated Row
  not_found clashed : Updated Row

-- A table is the list of its rows. `where` clauses are tests and `data` clauses are functions.
pub record Client : Type 1 where
  pub update_many_and_return :
      (Row : Type 0) → (Row → Bool) → (Row → Row) → List Row → List Row × List Row
  pub find_first : (Row : Type 0) → (Row → Bool) → List Row → Option Row
  pub find_many : (Row : Type 0) → (Row → Bool) → List Row → List Row
  pub delete_many : (Row : Type 0) → (Row → Bool) → List Row → List Row × ℕ
  -- The test holds of the rows with the same unique key; `none` is the error P2002.
  pub create : (Row : Type 0) → (Row → Bool) → Row → List Row → Option (List Row)
  pub upsert : (Row : Type 0) → (Row → Bool) → Row → (Row → Row) → List Row → List Row
  -- The relation holds of two rows that a unique key forbids to stand together.
  pub update :
      (Row : Type 0) → (Row → Bool) → (Row → Row → Bool) → (Row → Row) → List Row → Updated Row
  -- The sum of a column over the rows of a test, without nulls; `none` is the null of no value.
  pub sum_of : (Row : Type 0) → (Row → Bool) → (Row → Option ℕ) → List Row → Option ℕ
  pub transaction : (E A Db : Type 0) → (Db → Outcome E A × Db) → Db → Outcome E A × Db

abbrev pub update_where : {Row : Type 0} → (Row → Bool) → (Row → Row) → List Row → List Row
update_where test patch = map (λ r. if test r then patch r else r)

abbrev pub insert_unique : {Row : Type 0} → (Row → Bool) → Row → List Row → Option (List Row)
insert_unique clash row rows = if any clash rows then none else some (row ∷ rows)

abbrev pub insert_or_update :
    {Row : Type 0} → (Row → Bool) → Row → (Row → Row) → List Row → List Row
insert_or_update key row patch rows =
    if any key rows then update_where key patch rows else row ∷ rows

abbrev pub update_found :
    {Row : Type 0}
    → (Row → Bool)
    → (Row → Row → Bool)
    → (Row → Row)
    → List Row
    → Option Row
    → Updated Row
update_found test clash patch rows none = not_found
update_found test clash patch rows (some row) =
    if any (clash (patch row)) rows
    then clashed
    else changed (patch row) (update_where test patch rows)

abbrev pub update_one :
    {Row : Type 0} → (Row → Bool) → (Row → Row → Bool) → (Row → Row) → List Row → Updated Row
update_one test clash patch rows = update_found test clash patch rows (find? test rows)

-- A value more in a sum.
abbrev pub add_value : Option ℕ → Option ℕ → Option ℕ
add_value none sum = sum
add_value (some n) none = some n
add_value (some n) (some m) = some (n + m)

abbrev pub sum_where : {Row : Type 0} → (Row → Bool) → (Row → Option ℕ) → List Row → Option ℕ
sum_where test value [] = none
sum_where test value (row ∷ rows) =
    let sum = sum_where test value rows in if test row then add_value (value row) sum else sum

abbrev pub roll_back : {E A Db : Type 0} → Db → Outcome E A × Db → Outcome E A × Db
roll_back before (resolved a, after) = (resolved a, after)
roll_back before (thrown e, after) = (thrown e, before)

-- What the client documents: which rows a call touches and returns, the unique keys, and that a
-- transaction whose function throws leaves the database as it was.
pub record IsPrisma (c : Client) : Type 1 where
  pub updates :
      (Row : Type 0) (test : Row → Bool) (patch : Row → Row) (rows : List Row)
      → c.update_many_and_return Row test patch rows
        ≡ (update_where test patch rows, map patch (filter test rows))
  pub finds :
      (Row : Type 0) (test : Row → Bool) (rows : List Row)
      → c.find_first Row test rows ≡ find? test rows
  pub finds_many :
      (Row : Type 0) (test : Row → Bool) (rows : List Row)
      → c.find_many Row test rows ≡ filter test rows
  pub deletes :
      (Row : Type 0) (test : Row → Bool) (rows : List Row)
      → c.delete_many Row test rows ≡ (filter (λ r. not (test r)) rows, length (filter test rows))
  pub creates :
      (Row : Type 0) (clash : Row → Bool) (row : Row) (rows : List Row)
      → c.create Row clash row rows ≡ insert_unique clash row rows
  pub upserts :
      (Row : Type 0) (key : Row → Bool) (row : Row) (patch : Row → Row) (rows : List Row)
      → c.upsert Row key row patch rows ≡ insert_or_update key row patch rows
  pub updates_one :
      (Row : Type 0) (test : Row → Bool) (clash : Row → Row → Bool) (patch : Row → Row)
      (rows : List Row)
      → c.update Row test clash patch rows ≡ update_one test clash patch rows
  pub sums :
      (Row : Type 0) (test : Row → Bool) (value : Row → Option ℕ) (rows : List Row)
      → c.sum_of Row test value rows ≡ sum_where test value rows
  pub commits :
      (E A Db : Type 0) (f : Db → Outcome E A × Db) (db : Db)
      → c.transaction E A Db f db ≡ roll_back db (f db)

-- The client that keeps its tables as lists in memory.
abbrev pub in_memory : Client
in_memory = record {
  update_many_and_return =
      λ Row test patch rows. (update_where test patch rows, map patch (filter test rows));
  find_first = λ Row test rows. find? test rows;
  find_many = λ Row test rows. filter test rows;
  delete_many = λ Row test rows. (filter (λ r. not (test r)) rows, length (filter test rows));
  create = λ Row clash row rows. insert_unique clash row rows;
  upsert = λ Row key row patch rows. insert_or_update key row patch rows;
  update = λ Row test clash patch rows. update_one test clash patch rows;
  sum_of = λ Row test value rows. sum_where test value rows;
  transaction = λ E A Db f db. roll_back db (f db);
}

pub in_memory-IsPrisma : IsPrisma in_memory
in_memory-IsPrisma = record {
  updates = λ Row test patch rows. refl;
  finds = λ Row test rows. refl;
  finds_many = λ Row test rows. refl;
  deletes = λ Row test rows. refl;
  creates = λ Row clash row rows. refl;
  upserts = λ Row key row patch rows. refl;
  updates_one = λ Row test clash patch rows. refl;
  sums = λ Row test value rows. refl;
  commits = λ E A Db f db. refl;
}

-- The documented behaviour determines the calls that the code makes.
pub eq-in_memory_of_IsPrisma : {c : Client} → IsPrisma c → c ≡ in_memory
eq-in_memory_of_IsPrisma h = λ i. record {
  update_many_and_return = λ Row test patch rows. h.updates Row test patch rows i;
  find_first = λ Row test rows. h.finds Row test rows i;
  find_many = λ Row test rows. h.finds_many Row test rows i;
  delete_many = λ Row test rows. h.deletes Row test rows i;
  create = λ Row clash row rows. h.creates Row clash row rows i;
  upsert = λ Row key row patch rows. h.upserts Row key row patch rows i;
  update = λ Row test clash patch rows. h.updates_one Row test clash patch rows i;
  sum_of = λ Row test value rows. h.sums Row test value rows i;
  transaction = λ E A Db f db. h.commits E A Db f db i;
}

-- So a statement about the code over any such client is proved over the one in memory.
pub by_in_memory {ℓ} : (P : Client → Type ℓ) {c : Client} → IsPrisma c → P in_memory → P c
by_in_memory P h p = subst P (sym (eq-in_memory_of_IsPrisma h)) p
