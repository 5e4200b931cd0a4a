-- ===== src/Paperwork/Counts/Entered.antt =====
-- paperwork/counts.py: the values of a calculation, and those that are missing, against what was entered.
use prison_policy_ai.Prelude.{
  ℕ, ◌≤◌, ◌≡◌, ◌↔◌, refl, ap, subst, List, [], ◌∷◌, Option, none, some, true, false, Text,
  text_eq_iff, text_eq_refl, any, find, select, All, arith, Bool-cases, inl, inr, is_some, length,
  leb, read_decimal, Option-cases, is_none,
}
use prison_policy_ai.Fault.{ok, Result-cases}
use prison_policy_ai.Identity.Json.{Json, null, boolean, number, string, arr, obj, Fields}
use prison_policy_ai.Paperwork.CountSheet.{Dict, keys, is_key_of, are_distinct, entry}
use prison_policy_ai.Paperwork.Values.{get_field}
use prison_policy_ai.Paperwork.Counts.Arithmetic.{
  count_of, normalized_values, without, missing_rows,
}

-- a later entry is found behind another key
behind :
    (k : Text) (v : Option ℕ) (d rest : Dict (Option ℕ))
    → is_key_of k (keys rest) ≡ false
    → All (λ e. entry e.0 d ≡ ok e.1) rest
    → All (λ e. entry e.0 ((k, v) ∷ d) ≡ ok e.1) rest
unfolding is_key_of any entry find
behind k v d [] absent a = tt
behind k v d ((j, w) ∷ rest) absent a = (
  ground (arith, a.0, text_eq_iff k j, text_eq_iff j k),
  behind k v d rest (ground (arith, absent)) a.1,
)

-- in a dict whose keys are distinct every entry is found
pub distinct-found :
    (d : Dict (Option ℕ)) → are_distinct (keys d) ≡ true → All (λ e. entry e.0 d ≡ ok e.1) d
unfolding are_distinct entry find
distinct-found [] h = tt
distinct-found ((k, v) ∷ d) h = (
  ground (arith, text_eq_refl k),
  behind k v d d (ground (arith, h)) (distinct-found d (ground (arith, h))),
)

pub missing_rows-none :
    (d rows : Dict (Option ℕ)) (missing : List Text)
    → All (λ e. entry e.0 d ≡ ok e.1) rows
    → missing_rows d (keys rows) ≡ ok missing
    → (leb (length missing) 0 ≡ true) ↔ All (λ e. is_some e.1 ≡ true) rows
unfolding missing_rows
missing_rows-none d [] missing a h = (λ _. tt, λ _. ground (arith, h))
missing_rows-none d ((k, v) ∷ rows) missing a h = elim (Result-cases (missing_rows d (keys rows))) [
  | inr (f, bad) ↦ absurd (ground (arith, a.0, bad, h))
  | inl (rest, good) ↦
      let ih = missing_rows-none d rows rest a.1 good in
      elim (Bool-cases (is_none v)) [
        | inl blank ↦ (
          λ short. absurd (ground (arith, a.0, good, blank, h, short)),
          λ full. absurd (ground (arith, blank, full.0)),
        )
        | inr given ↦
            let same : rest ≡ missing = ground (arith, a.0, good, given, h) in
            (
              λ short. (ground (arith, given), ih.0 (rw same short)),
              λ full. subst (λ m. leb (length m) 0 ≡ true) same (ih.1 full.1),
            )
      ]
]

-- what a value that is entered, or is not there, counts as: nothing, or a number in range
abbrev pub IsEntered : Json → Option ℕ → Type 0
IsEntered null v = v ≡ none
IsEntered (string s) v = (s ≡ []) × (v ≡ none)
IsEntered (number literal) v =
    (n : ℕ) × (read_decimal literal ≡ some n) × (n ≤ 99999) × (v ≡ some n)
IsEntered _ v = ⊥

count_of_sound : (value : Json) (n : Option ℕ) → count_of value ≡ ok n → IsEntered value n
unfolding count_of
count_of_sound null n h = ground arith
count_of_sound (number literal) n h = elim (Option-cases (read_decimal literal)) [
  | inl bad ↦ absurd (ground (arith, bad, h))
  | inr (m, read) ↦ (m, read, ground (arith, read, h), ground (arith, read, h))
]
count_of_sound (string []) n h = (refl, ground arith)
count_of_sound (string (c ∷ s)) n h = absurd (ground arith)
count_of_sound (boolean b) n h = absurd (ground arith)
count_of_sound (arr xs) n h = absurd (ground arith)
count_of_sound (obj fs) n h = absurd (ground arith)

-- the rows in order, each with what was entered for it
abbrev pub AreCounts : Fields → List Text → Dict (Option ℕ) → Type 0
AreCounts values row_ids d = (keys d ≡ row_ids) × All (λ e. IsEntered (get_field e.0 values) e.1) d

without-absent : (k : Text) (d : Dict (Option ℕ)) → is_key_of k (keys d) ≡ false → without k d ≡ d
unfolding is_key_of any select
without-absent k [] h = refl
without-absent k ((j, v) ∷ d) h = ground (arith, h, without-absent k d)

pub normalized_values-AreCounts :
    (values : Fields) (row_ids : List Text) (d : Dict (Option ℕ))
    → are_distinct row_ids ≡ true
    → normalized_values values row_ids ≡ ok d
    → AreCounts values row_ids d
unfolding normalized_values are_distinct
normalized_values-AreCounts values [] d distinct h =
    let same : [] ≡ d = ground arith in subst (AreCounts values []) same (refl, tt)
normalized_values-AreCounts values (k ∷ ks) d distinct h =
    elim (Result-cases (count_of (get_field k values))) [
      | inr (f, bad) ↦ absurd (ground (arith, bad, h))
      | inl (n, good) ↦ elim (Result-cases (normalized_values values ks)) [
        | inr (f, bad) ↦ absurd (ground (arith, good, bad, h))
        | inl (rest, e) ↦
            let (named, given) =
              normalized_values-AreCounts values ks rest (ground (arith, distinct)) e in
            let absent : is_key_of k (keys rest) ≡ false = rw named (ground (arith, distinct)) in
            let same : (k, n) ∷ rest ≡ d =
              ground (arith, good, e, h, without-absent k rest absent) in
            subst (AreCounts values (k ∷ ks)) same
              (ap (λ names. k ∷ names) named, (count_of_sound (get_field k values) n good, given))
      ]
    ]
