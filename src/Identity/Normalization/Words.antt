-- ===== src/Identity/Normalization/Words.antt =====
-- str.split and " ".join: joining the words of a text and splitting again gives the words.
use prison_policy_ai.Prelude.{
  ℕ, ◌≡◌, refl, sym, ap, ◌∙◌, List, [], ◌∷◌, ◌++◌, true, false, not, Text, arith, All, all,
  append_assoc, Bool-cases, inl, inr,
}
use prison_policy_ai.Identity.Normalization.{is_space, is_empty, split_from, join_words}

-- no white space in it
abbrev Solid : Text → Type 0
Solid w = all (λ c. not (is_space c)) w ≡ true

abbrev IsWord : Text → Type 0
IsWord w = Solid w × (is_empty w ≡ false)

append-nil : (s : Text) → s ++ [] ≡ s
append-nil [] = refl
append-nil (c ∷ s) = ap (λ t. c ∷ t) (append-nil s)

split_from-append :
    (begun w s : Text) → Solid w → split_from begun (w ++ s) ≡ split_from (begun ++ w) s
unfolding split_from all
split_from-append begun [] s h = ap (λ b. split_from b s) (sym (append-nil begun))
split_from-append begun (c ∷ w) s h =
    let solid : is_space c ≡ false = ground arith in
    rw solid (
      split_from-append (begun ++ c ∷ []) w s (ground arith)
      ∙ ap (λ b. split_from b s) (append_assoc begun (c ∷ []) w))

Solid-snoc : (w : Text) (c : ℕ) → Solid w → is_space c ≡ false → Solid (w ++ c ∷ [])
unfolding all
Solid-snoc [] c h e = ground arith
Solid-snoc (d ∷ w) c h e = ground (arith, Solid-snoc w c)

snoc-is_empty : (w : Text) (c : ℕ) → is_empty (w ++ c ∷ []) ≡ false
snoc-is_empty [] c = refl
snoc-is_empty (d ∷ w) c = refl

split_from-words : (w s : Text) → Solid w → All IsWord (split_from w s)
unfolding split_from
split_from-words w [] h = elim (Bool-cases (is_empty w)) [
  | inl e ↦ rw e tt
  | inr e ↦ rw e ((h, e), tt)
]
split_from-words w (c ∷ s) h = elim (Bool-cases (is_space c)) [
  | inr e ↦ rw e (split_from-words (w ++ c ∷ []) s (Solid-snoc w c h e))
  | inl e ↦ elim (Bool-cases (is_empty w)) [
    | inl e' ↦ rw (e, e') (split_from-words [] s (unfold all in refl))
    | inr e' ↦ rw (e, e') ((h, e'), split_from-words [] s (unfold all in refl))
  ]
]

space_is_space : is_space b' ' ≡ true
unfolding is_space
space_is_space = refl

split-join : (ws : List Text) → All IsWord ws → split_from [] (join_words ws) ≡ ws
unfolding split_from join_words
split-join [] a = refl
split-join (w ∷ []) a =
    ap (split_from []) (sym (append-nil w)) ∙ split_from-append [] w [] a.0.0 ∙ rw (a.0.1) refl
split-join (w ∷ v ∷ ws) a =
    split_from-append [] w (b' ' ∷ join_words (v ∷ ws)) a.0.0
    ∙ ground (arith, a.0.1, space_is_space, split-join (v ∷ ws) a.1)

pub split-join-split : (s : Text) → split_from [] (join_words (split_from [] s)) ≡ split_from [] s
split-join-split s = split-join (split_from [] s) (split_from-words [] s (unfold all in refl))
