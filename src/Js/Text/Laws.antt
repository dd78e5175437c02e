-- ===== src/Js/Text/Laws.antt =====
-- What the string methods guarantee.
use securesupabase_js.Prelude.{
  ℕ, ◌≡◌, ◌≢◌, ◌↔◌, ◌∙◌, inl, inr, refl, ap, true, List, [], ◌∷◌, ◌++◌, arith, ◌==◌, length, drop,
  All, Bool-cases,
}
use securesupabase_js.Js.Text.{Str, str_eq, split, cons_head, join, starts_with, replace_first}

pub str_eq_refl : (s : Str) → str_eq s s ≡ true
unfolding str_eq
str_eq_refl [] = refl
str_eq_refl (c ∷ s) = ground (arith, str_eq_refl s)

pub eq_of_str_eq : (s t : Str) → str_eq s t ≡ true → s ≡ t
unfolding str_eq
eq_of_str_eq [] [] h = refl
eq_of_str_eq [] (y ∷ ys) h = cc
eq_of_str_eq (x ∷ xs) [] h = cc
eq_of_str_eq (x ∷ xs) (y ∷ ys) h = ground (arith, eq_of_str_eq xs ys)

pub str_eq_iff : (s t : Str) → (str_eq s t ≡ true) ↔ (s ≡ t)
str_eq_iff s t = (eq_of_str_eq s t, λ e. rw e (str_eq_refl t))

-- No part of a split holds the separator.
abbrev pub Without : ℕ → Str → Type 0
Without c s = All (λ x. x ≢ c) s

All-cons_head :
    (P : Str → Type 0) (c : ℕ) (parts : List Str)
    → P (c ∷ [])
    → ((part : Str) → P part → P (c ∷ part))
    → All P parts
    → All P (cons_head c parts)
unfolding cons_head
All-cons_head P c [] one more h = (one, tt)
All-cons_head P c (part ∷ parts) one more (h, hs) = (more part h, hs)

pub split-Without : (separator : ℕ) (s : Str) → All (Without separator) (split separator s)
unfolding split
split-Without separator [] = (tt, tt)
split-Without separator (c ∷ s) = elim (Bool-cases (c == separator)) [
  | inl same ↦ rw same (tt, split-Without separator s)
  | inr differ ↦ rw differ (
      All-cons_head (Without separator) c (split separator s) (ground arith, tt)
        (λ part h. (ground arith, h)) (split-Without separator s))
]

split-ne-nil : (separator : ℕ) (s : Str) → split separator s ≢ []
unfolding split cons_head
split-ne-nil separator [] e = cc
split-ne-nil separator (c ∷ s) e = ground arith

split-join_step :
    (separator : ℕ) (part rest : Str)
    → Without separator part
    → split separator (part ++ separator ∷ rest) ≡ part ∷ split separator rest
unfolding split cons_head
split-join_step separator [] rest h = ground arith
split-join_step separator (c ∷ part) rest (h, hs) =
    rw (split-join_step separator part rest hs) (ground arith)

split_one : (separator : ℕ) (part : Str) → Without separator part → split separator part ≡ part ∷ []
unfolding split cons_head
split_one separator [] h = refl
split_one separator (c ∷ part) (h, hs) = rw (split_one separator part hs) (ground arith)

-- Splitting what was joined gives back the parts, if no part holds the separator.
pub split-join :
    (separator : ℕ) (part : Str) (parts : List Str)
    → All (Without separator) (part ∷ parts)
    → split separator (join (separator ∷ []) (part ∷ parts)) ≡ part ∷ parts
unfolding join
split-join separator part [] (h, _) = split_one separator part h
split-join separator part (next ∷ parts) (h, hs) =
    split-join_step separator part _ h ∙ ap (λ ps. part ∷ ps) (split-join separator next parts hs)

-- A prefix that a string starts with is what `replace` takes away.
pub replace_first-of_prefix :
    (s prefix_ : Str)
    → starts_with s prefix_ ≡ true
    → replace_first s prefix_ [] ≡ drop (length prefix_) s
unfolding replace_first starts_with
replace_first-of_prefix [] [] h = refl
replace_first-of_prefix [] (p ∷ ps) h = cc
replace_first-of_prefix (c ∷ s) ps h = rw h refl
