-- ===== src/Paperwork/Service/Log.antt =====
-- paperwork/service.py: the revisions of a record are the log of its states.
use prison_policy_ai.Prelude.{
  ◌||◌, ℕ, zero, suc, ◌+◌, ◌≡◌, refl, ap, subst, ◌∙◌, List, [], ◌∷◌, ◌++◌, map, Option, none, some,
  Bool, true, false, arith, All, find, any, select, update_where, Unique, Lacks, Bool-cases, inl,
  inr, ◌==◌, if◌then◌else◌,
}
use prison_policy_ai.Paperwork.Models.{
  PaperworkRecord, PaperworkSnapshot, PaperworkRevision, PaperworkDb,
}
use prison_policy_ai.Paperwork.Service.Effects.{snapshot_of}

-- the revisions of a record, in the order of their writing
abbrev pub log : ℕ → List PaperworkRevision → List PaperworkRevision
log id = select (λ v. v.record_id == id)

-- 1, …, n
abbrev pub count_up : ℕ → List ℕ
count_up zero = []
count_up (suc n) = count_up n ++ suc n ∷ []

abbrev pub last {ℓ} : {A : Type ℓ} → List A → Option A
last [] = none
last (x ∷ []) = some x
last (x ∷ y ∷ xs) = last (y ∷ xs)

abbrev pub numbers : List PaperworkRevision → List ℕ
numbers = map (λ v. v.revision_number)

abbrev pub snapshots : List PaperworkRevision → List PaperworkSnapshot
snapshots = map (λ v. v.snapshot)

-- The revisions of the record are numbered from 1 to its current revision, with no gap and none twice,
-- and the last of them has what the record shows.
abbrev pub IsCurrent : List PaperworkRevision → PaperworkRecord → Type 0
IsCurrent vs row =
    (numbers (log row.id vs) ≡ count_up row.current_revision_number)
    × (last (snapshots (log row.id vs)) ≡ some (snapshot_of row))

abbrev pub has_record : List PaperworkRecord → ℕ → Bool
has_record rows id = any (λ (r : PaperworkRecord). r.id == id) rows

pub record IsLogged (db : PaperworkDb) : Type 0 where
  pub ids : Unique (λ (r : PaperworkRecord). r.id) db.records
  pub owned : All (λ v. has_record db.records v.record_id ≡ true) db.revisions
  pub current : All (IsCurrent db.revisions) db.records

pub log-append :
    (id : ℕ) (vs : List PaperworkRevision) (v : PaperworkRevision)
    → log id (vs ++ v ∷ []) ≡ (if v.record_id == id then log id vs ++ v ∷ [] else log id vs)
unfolding select
log-append id [] v = ground arith
log-append id (x ∷ vs) v = ground (arith, log-append id vs v)

last-append {ℓ} : {A : Type ℓ} (xs : List A) (z : A) → last (xs ++ z ∷ []) ≡ some z
last-append [] z = refl
last-append (x ∷ []) z = refl
last-append (x ∷ y ∷ xs) z = last-append (y ∷ xs) z

pub map-snoc {ℓ κ} :
    {A : Type ℓ} {B : Type κ} (f : A → B) (xs : List A) (z : A)
    → map f (xs ++ z ∷ []) ≡ map f xs ++ f z ∷ []
map-snoc f [] z = refl
map-snoc f (x ∷ xs) z = ap (λ ys. f x ∷ ys) (map-snoc f xs z)

-- a record that a revision of another is appended beside stays current
pub IsCurrent-other :
    (vs : List PaperworkRevision) (v : PaperworkRevision) (row : PaperworkRecord)
    → (v.record_id == row.id) ≡ false
    → IsCurrent vs row
    → IsCurrent (vs ++ v ∷ []) row
IsCurrent-other vs v row apart h = rw (log-append row.id vs v, apart) h

-- and so does one that moves to the revision that is appended
pub IsCurrent-moved :
    (vs : List PaperworkRevision) (v : PaperworkRevision) (n : ℕ) (row : PaperworkRecord)
    → numbers (log row.id vs) ≡ count_up n
    → v.record_id ≡ row.id
    → row.current_revision_number ≡ n + 1
    → v.revision_number ≡ n + 1
    → v.snapshot ≡ snapshot_of row
    → IsCurrent (vs ++ v ∷ []) row
IsCurrent-moved vs v n row at own next same shown =
    let grown : log row.id (vs ++ v ∷ []) ≡ log row.id vs ++ v ∷ [] =
      ground (arith, log-append row.id vs v, own) in
    let next' : row.current_revision_number ≡ suc n = omega arith in
    let same' : v.revision_number ≡ suc n = omega arith in
    (
      ap numbers grown
          ∙ map-snoc (λ (w : PaperworkRevision). w.revision_number) (log row.id vs) v
          ∙ rw (at, same', next') refl,
      ap (λ ws. last (snapshots ws)) grown
          ∙ ap last (map-snoc (λ (w : PaperworkRevision). w.snapshot) (log row.id vs) v)
          ∙ last-append (snapshots (log row.id vs)) v.snapshot
          ∙ ap some shown,
    )

module _ (row : PaperworkRecord) where
  abbrev pub put : List PaperworkRecord → List PaperworkRecord
  put = update_where (λ r. r.id == row.id) (λ _. row)

  put-Lacks :
      (k : ℕ) (rows : List PaperworkRecord)
      → Lacks (λ (r : PaperworkRecord). r.id) k rows
      → Lacks (λ (r : PaperworkRecord). r.id) k (put rows)
  unfolding update_where
  put-Lacks k [] l = tt
  put-Lacks k (x ∷ xs) l = elim (Bool-cases (x.id == row.id)) [
    | inl e ↦
        let same : x.id ≡ row.id = ground arith in rw e (rw (← same) (l.0), put-Lacks k xs l.1)
    | inr e ↦ rw e (l.0, put-Lacks k xs l.1)
  ]

  pub put-Unique :
      (rows : List PaperworkRecord)
      → Unique (λ (r : PaperworkRecord). r.id) rows
      → Unique (λ (r : PaperworkRecord). r.id) (put rows)
  unfolding update_where
  put-Unique [] u = tt
  put-Unique (x ∷ xs) u = elim (Bool-cases (x.id == row.id)) [
    | inl e ↦
        let same : x.id ≡ row.id = ground arith in
        rw e (
          subst (λ k. Lacks (λ (r : PaperworkRecord). r.id) k (put xs)) same
              (put-Lacks x.id xs u.0),
          put-Unique xs u.1,
        )
    | inr e ↦ rw e (put-Lacks x.id xs u.0, put-Unique xs u.1)
  ]

  pub All-put :
      {P Q : PaperworkRecord → Type 0} (rows : List PaperworkRecord)
      → ((x : PaperworkRecord) → (x.id == row.id) ≡ false → P x → Q x)
      → Q row
      → All P rows
      → All Q (put rows)
  unfolding update_where
  All-put [] other own a = tt
  All-put (x ∷ xs) other own a = elim (Bool-cases (x.id == row.id)) [
    | inl e ↦ rw e (own, All-put xs other own a.1)
    | inr e ↦ rw e (other x e a.0, All-put xs other own a.1)
  ]

  pub has_record-put :
      (rows : List PaperworkRecord) (id : ℕ) → has_record (put rows) id ≡ has_record rows id
  unfolding update_where any
  has_record-put [] id = refl
  has_record-put (x ∷ xs) id = ground (arith, has_record-put xs id)

pub has_record-append :
    (rows : List PaperworkRecord) (row : PaperworkRecord) (id : ℕ)
    → has_record (rows ++ row ∷ []) id ≡ has_record rows id || row.id == id
unfolding any
has_record-append [] row id = ground arith
has_record-append (x ∷ xs) row id = ground (arith, has_record-append xs row id)

pub has_record-find :
    (q : PaperworkRecord → Bool) (rows : List PaperworkRecord) (row : PaperworkRecord)
    → find q rows ≡ some row
    → has_record rows row.id ≡ true
unfolding find any
has_record-find q [] row h = ground arith
has_record-find q (x ∷ xs) row h = elim (Bool-cases (q x)) [
  | inl e ↦
      let same : x ≡ row = ground arith in ground (arith, ap (λ (r : PaperworkRecord). r.id) same)
  | inr e ↦ ground (arith, has_record-find q xs row)
]

pub has_record-Lacks :
    (id : ℕ) (rows : List PaperworkRecord)
    → Lacks (λ (r : PaperworkRecord). r.id) id rows
    → has_record rows id ≡ false
unfolding any
has_record-Lacks id [] l = refl
has_record-Lacks id (x ∷ xs) l = ground (arith, l.0, has_record-Lacks id xs l.1)

pub log-fresh :
    (id : ℕ) (rows : List PaperworkRecord) (vs : List PaperworkRevision)
    → has_record rows id ≡ false
    → All (λ v. has_record rows v.record_id ≡ true) vs
    → log id vs ≡ []
unfolding select
log-fresh id rows [] new o = refl
log-fresh id rows (v ∷ vs) new o = elim (Bool-cases (v.record_id == id)) [
  | inl e ↦
      let same : v.record_id ≡ id = ground arith in
      let known : has_record rows id ≡ true = rw (← same) (o.0) in
      absurd (ground (arith, new, known))
  | inr e ↦ ground (arith, log-fresh id rows vs new o.1)
]
