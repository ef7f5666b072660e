-- ===== src/Restart/Sorted.antt =====
-- The files that restart/mod.rs finds in a directory, and their order.
use lsmlite.Base.{
  ℕ, ◌+◌, ◌≤◌, ◌≡◌, refl, arith, Bool, true, false, List, [], ◌∷◌, All, if◌then◌else◌,
}
use lsmlite.Base.{leb, leb→le, Bool-cases, inl, inr}
use lsmlite.Base.{Option, none, some, Option-cases, ◌⊎◌, ◌∙◌, ap}
use lsmlite.Base.Bytes.{Blob}
use lsmlite.Restart.{Artifact, no_later, place, sort_by, oldest_first, newest_first}
use lsmlite.Restart.{DatabaseFile, wal_file, sstable_file, from_path, wal_artifact}
use lsmlite.Restart.{sstable_artifact, sort_out, scan_directory}

-- How many artifacts pass a test.
abbrev pub count_if : (Artifact → Bool) → List Artifact → ℕ
count_if p [] = 0
count_if p (a ∷ files) = (if p a then 1 else 0) + count_if p files

-- Each stands in the relation to all behind it.
abbrev pub Ordered : (Artifact → Artifact → Type 0) → List Artifact → Type 0
Ordered R [] = Unit {0}
Ordered R (a ∷ files) = All (R a) files × Ordered R files

module _ (before : Artifact → Artifact → Bool) where
  count_if-place :
      (p : Artifact → Bool) (a : Artifact) (files : List Artifact)
      → count_if p (place before a files) ≡ (if p a then 1 else 0) + count_if p files
  unfolding place
  count_if-place p a [] = refl
  count_if-place p a (b ∷ bs) = elim (Bool-cases (before a b)) [
    | inl e ↦ rw e refl
    | inr e ↦ rw e (omega (arith, count_if-place p a bs))
  ]

  count_if-sort_by :
      (p : Artifact → Bool) (files : List Artifact)
      → count_if p (sort_by before files) ≡ count_if p files
  unfolding sort_by
  count_if-sort_by p [] = refl
  count_if-sort_by p (a ∷ files) =
      omega (arith, count_if-place p a (sort_by before files), count_if-sort_by p files)

  module _ (R : Artifact → Artifact → Type 0) (trans : (a b c : Artifact) → R a b → R b c → R a c)
      (yes : (a b : Artifact) → before a b ≡ true → R a b)
      (no : (a b : Artifact) → before a b ≡ false → R b a) where
    All-place :
        (x a : Artifact) (files : List Artifact)
        → R x a
        → All (R x) files
        → All (R x) (place before a files)
    unfolding place
    All-place x a [] r h = (r, tt)
    All-place x a (b ∷ bs) r h = elim (Bool-cases (before a b)) [
      | inl e ↦ rw e (r, h)
      | inr e ↦ rw e (h.0, All-place x a bs r h.1)
    ]

    All-trans : (a b : Artifact) (bs : List Artifact) → R a b → All (R b) bs → All (R a) bs
    All-trans a b [] r h = tt
    All-trans a b (c ∷ cs) r h = (trans a b c r h.0, All-trans a b cs r h.1)

    place-Ordered :
        (a : Artifact) (files : List Artifact) → Ordered R files → Ordered R (place before a files)
    unfolding place
    place-Ordered a [] h = (tt, tt)
    place-Ordered a (b ∷ bs) h = elim (Bool-cases (before a b)) [
      | inl e ↦ rw e ((yes a b e, All-trans a b bs (yes a b e) h.0), h)
      | inr e ↦ rw e (All-place b a bs (no a b e) h.0, place-Ordered a bs h.1)
    ]

    sort_by-Ordered : (files : List Artifact) → Ordered R (sort_by before files)
    unfolding sort_by
    sort_by-Ordered [] = tt
    sort_by-Ordered (a ∷ files) = place-Ordered a (sort_by before files) (sort_by-Ordered files)

abbrev pub is_some {ℓ} : {A : Type ℓ} → Option A → Bool
is_some none = false
is_some (some a) = true

-- Whether the name of an entry has a time, if its file is one of the database's.
abbrev pub named : Blob × Blob → Bool
named (name, file) = elim (from_path name) [
  | none ↦ true
  | some kind ↦ elim kind [
    | wal_file ↦ is_some (wal_artifact name file)
    | sstable_file ↦ is_some (sstable_artifact name file)
  ]
]

abbrev pub passes : (Artifact → Bool) → Option Artifact → ℕ
passes p none = 0
passes p (some a) = if p a then 1 else 0

-- How many entries are files of tables that pass a test, and how many are such logs.
abbrev pub count_tables : (Artifact → Bool) → List (Blob × Blob) → ℕ
count_tables p [] = 0
count_tables p ((name, file) ∷ entries) =
    elim (from_path name) [
      | none ↦ 0
      | some kind ↦ elim kind [
        | wal_file ↦ 0
        | sstable_file ↦ passes p (sstable_artifact name file)
      ]
    ]
    + count_tables p entries

abbrev pub count_logs : (Artifact → Bool) → List (Blob × Blob) → ℕ
count_logs p [] = 0
count_logs p ((name, file) ∷ entries) =
    elim (from_path name) [
      | none ↦ 0
      | some kind ↦ elim kind [ wal_file ↦ passes p (wal_artifact name file) | sstable_file ↦ 0 ]
    ]
    + count_logs p entries

DatabaseFile-cases : (kind : DatabaseFile) → (kind ≡ wal_file) ⊎ (kind ≡ sstable_file)
DatabaseFile-cases wal_file = inl refl
DatabaseFile-cases sstable_file = inr refl

is_some_lem {ℓ} : {A : Type ℓ} (o : Option A) → is_some o ≡ true → (a : A) × (o ≡ some a)
is_some_lem none e = cc
is_some_lem (some a) e = (a, refl)

-- The loop sorts out what the entries are.
abbrev SortedOut : List (Blob × Blob) → Type 0
SortedOut entries =
    (tables : List Artifact) × (logs : List Artifact) × (sort_out entries ≡ some (tables, logs))
    × ((p : Artifact → Bool)
        → (count_if p tables ≡ count_tables p entries) × (count_if p logs ≡ count_logs p entries))

sort_out_lem :
    (entries : List (Blob × Blob)) → All (λ e. named e ≡ true) entries → SortedOut entries
unfolding sort_out
sort_out_lem [] h = ([], [], refl, λ p. (refl, refl))
sort_out_lem ((name, file) ∷ entries) h =
    let (tables, logs, e, counts) = sort_out_lem entries h.1 in
    elim (Option-cases (from_path name)) [
      | inl k ↦ (
        tables,
        logs,
        rw (sort_out, k) e,
        λ p. (rw k (omega (arith, (counts p).0)), rw k (omega (arith, (counts p).1))),
      )
      | inr (kind, k) ↦ elim (DatabaseFile-cases kind) [
        | inl w ↦
            let k' : from_path name ≡ some wal_file = k ∙ ap some w in
            let (a, f) = is_some_lem (wal_artifact name file) (rw (named, k') at h.0) in
            (
              tables,
              a ∷ logs,
              rw (sort_out, k', f, e) refl,
              λ p. (rw k' (omega (arith, (counts p).0)), rw (k', f) (omega (arith, (counts p).1))),
            )
        | inr s ↦
            let k' : from_path name ≡ some sstable_file = k ∙ ap some s in
            let (a, f) = is_some_lem (sstable_artifact name file) (rw (named, k') at h.0) in
            (
              a ∷ tables,
              logs,
              rw (sort_out, k', f, e) refl,
              λ p. (rw (k', f) (omega (arith, (counts p).0)), rw k' (omega (arith, (counts p).1))),
            )
      ]
    ]

newest_first-Ordered : (files : List Artifact) → Ordered (λ a b. b.ts ≤ a.ts) (newest_first files)
unfolding newest_first no_later
newest_first-Ordered files =
    sort_by-Ordered (λ a b. leb b.ts a.ts) (λ a b. b.ts ≤ a.ts) (λ a b c p q. omega arith)
      (λ a b e. leb→le b.ts a.ts e) (λ a b e. ground arith) files

oldest_first-Ordered : (files : List Artifact) → Ordered (λ a b. a.ts ≤ b.ts) (oldest_first files)
unfolding oldest_first no_later
oldest_first-Ordered files =
    sort_by-Ordered (λ a b. leb a.ts b.ts) (λ a b. a.ts ≤ b.ts) (λ a b c p q. omega arith)
      (λ a b e. leb→le a.ts b.ts e) (λ a b e. ground arith) files

-- When each entry of a directory that is a file of the database has a time in its name, the scan
-- does not panic. It gives the files of tables with the newest first and the logs with the oldest
-- first, and each file as often as the directory has an entry for it.
pub scanned_files :
    (entries : List (Blob × Blob))
    → All (λ e. named e ≡ true) entries
    → (tables : List Artifact) × (logs : List Artifact) × (scan_directory entries
        ≡ some (tables, logs))
      × Ordered (λ a b. b.ts ≤ a.ts) tables
      × Ordered (λ a b. a.ts ≤ b.ts) logs
      × ((p : Artifact → Bool)
          → (count_if p tables ≡ count_tables p entries) × (count_if p logs ≡ count_logs p entries))
unfolding scan_directory newest_first oldest_first
scanned_files entries h =
    let (tables, logs, e, counts) = sort_out_lem entries h in
    (
      newest_first tables,
      oldest_first logs,
      rw e refl,
      newest_first-Ordered tables,
      oldest_first-Ordered logs,
      λ p. (
        count_if-sort_by (λ a b. no_later b a) p tables ∙ (counts p).0,
        count_if-sort_by no_later p logs ∙ (counts p).1,
      ),
    )
