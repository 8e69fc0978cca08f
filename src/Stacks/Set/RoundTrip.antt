-- ===== src/Stacks/Set/RoundTrip.antt =====
-- What is parsed is what was written, and which text is refused.
use Prim.Native.String.{String}
use mathlib.Core.Option.{some-injective}
use text.Mathlib.Text.{◌==◌ as str_eq}
use wtfis_stalling.Base.{
  ℕ, zero, suc, subst, ◌<◌, ◌≡◌, ◌↔◌, refl, arith, Bool, true, false, not, ◌||◌, Option, none, some,
  List, [], ◌∷◌, filter, head?, All, Bool-cases, inl, inr, Option-cases, get_elem?,
}
use wtfis_stalling.Stacks.Set.{
  StackSet, Parsed, ok, unknown_word, all_kinds, named, name, bit, of, has, kinds, join, names,
  trim, to_ascii_lowercase, words, parse_words, parse, no_stacks,
}

abbrev sets : List StackSet
sets = 0 ∷ 1 ∷ 2 ∷ 3 ∷ 4 ∷ 5 ∷ 6 ∷ 7 ∷ 8 ∷ 9 ∷ 10 ∷ 11 ∷ 12 ∷ 13 ∷ 14 ∷ 15 ∷ []

abbrev IsReadBack : StackSet → Type 0
IsReadBack set = parse (names set) ≡ ok set

All-IsReadBack : All IsReadBack sets
unfolding parse words parse_words trim to_ascii_lowercase has bit name of names kinds join
All-IsReadBack = ground arith

All-get_elem? : (P : ℕ → Type 0) (xs : List ℕ) (i x : ℕ) → All P xs → get_elem? xs i ≡ some x → P x
All-get_elem? P [] i x a e = absurd cc
All-get_elem? P (y ∷ ys) zero x a e = subst P (some-injective y x e) a.0
All-get_elem? P (y ∷ ys) (suc i) x a e = All-get_elem? P ys i x a.1 e

-- The names of a set of kinds, read back, are the set.
pub parse-names : (set : StackSet) → set < 16 → parse (names set) ≡ ok set
parse-names set h = All-get_elem? IsReadBack sets set set All-IsReadBack (ground arith)

-- A word that stands for something.
abbrev pub is_word : String → Bool
is_word w =
    str_eq w "none"
    || str_eq w "default"
    || str_eq w "all"
    || elim (named w all_kinds) [ none ↦ false | some k ↦ true ]

abbrev pub unknown_words : List String → List String
unknown_words ws = filter (λ w. not (is_word w)) ws

-- The loop returns the first word that is not known, and a set when there is none.
abbrev IsOutcome : Parsed → Option String → Type 0
IsOutcome p none = (r : StackSet) × (p ≡ ok r)
IsOutcome p (some w) = p ≡ unknown_word w

parse_words-refused :
    (ws : List String) (set : StackSet) → IsOutcome (parse_words set ws) (head? (unknown_words ws))
unfolding parse_words
parse_words-refused [] set = (set, refl)
parse_words-refused (w ∷ ws) set = elim (Bool-cases (str_eq w "none")) [
  | inl t ↦ rw t (parse_words-refused ws set)
  | inr f1 ↦ elim (Bool-cases (str_eq w "default")) [
    | inl t ↦ rw (f1, t) (parse_words-refused ws _)
    | inr f2 ↦ elim (Bool-cases (str_eq w "all")) [
      | inl t ↦ rw (f1, f2, t) (parse_words-refused ws _)
      | inr f3 ↦ elim (Option-cases (named w all_kinds)) [
        | inl e ↦ rw (f1, f2, f3, e) refl
        | inr (k, e) ↦ rw (f1, f2, f3, e) (parse_words-refused ws _)
      ]
    ]
  ]
]

outcome_iff :
    (p : Parsed) (o : Option String) (w : String)
    → IsOutcome p o
    → (p ≡ unknown_word w) ↔ (o ≡ some w)
outcome_iff p none w (r, e) = (λ h. absurd cc, λ h. absurd cc)
outcome_iff p (some v) w e = (λ h. cc, λ h. cc)

-- The text is refused, with the word that is reported, exactly when that is its first unknown word.
pub parse-unknown :
    (s w : String) → (parse s ≡ unknown_word w) ↔ (head? (unknown_words (words s)) ≡ some w)
unfolding parse
parse-unknown s w =
    outcome_iff (parse s) (head? (unknown_words (words s))) w
      (parse_words-refused (words s) no_stacks)
